-- ===== src/Tests/Device.antt =====
-- Tests of the model of the kernel module's life cycle.
use pciebench_nfp.Common.{refl, true, false, none, not, ◌==◌}
use pciebench_nfp.Driver.Device.{Kernel, Env, nfp6000, valid, zeroed, npb_init, npb_pci_probe}
use pciebench_nfp.Driver.Device.Chunks.{IsReleased}
use pciebench_nfp.Driver.Device.Probe.{
  IsIdle, InitDone, ProbeDone, npb_init-InitDone, npb_pci_probe-ProbeDone,
}
use pciebench_nfp.Driver.Device.Remove.{LeavesNothing, npb_pci_remove-LeavesNothing}

abbrev boot : Kernel
boot = record {
  enabled = false;
  regions = false;
  cpp = false;
  dev_cpp = false;
  npb = false;
  pages = λ i. false;
  maps = λ i. false;
  procs = λ j. false;
  misuse = false;
}

-- Chunk 5 gets pages, and its mapping fails.
abbrev failing_map : Env
failing_map = record {
  pci_enable_device = none;
  pci_set_dma_mask = none;
  pci_set_consistent_dma_mask = none;
  pci_request_regions = none;
  device = nfp6000;
  cpp_from_pcie = valid;
  platform_device_register = true;
  kzalloc = true;
  alloc_pages = λ i. true;
  dma_map_single = λ i. not (i == 5);
  proc_create = λ j. true;
}

boot-IsReleased : IsReleased boot
boot-IsReleased = record { no_chunk = λ j. (refl, refl); no_entry = λ j. refl; no_misuse = refl }

boot-IsIdle : IsIdle boot
boot-IsIdle = record { released = boot-IsReleased; nothing = refl }

npb_init_test : InitDone boot (npb_init failing_map zeroed boot)
npb_init_test = npb_init-InitDone failing_map boot boot-IsReleased

npb_pci_probe-ProbeDone_example : ProbeDone (npb_pci_probe failing_map boot)
npb_pci_probe-ProbeDone_example = npb_pci_probe-ProbeDone failing_map boot boot-IsIdle

-- Every call succeeds.
abbrev all_well : Env
all_well = record failing_map { dma_map_single = λ i. true }

npb_pci_remove-LeavesNothing_example : LeavesNothing (npb_pci_probe all_well boot)
npb_pci_remove-LeavesNothing_example = npb_pci_remove-LeavesNothing all_well boot boot-IsIdle
