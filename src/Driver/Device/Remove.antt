-- ===== src/Driver/Device/Remove.antt =====
-- Removal undoes a probe that succeeded.
use pciebench_nfp.Common.{arith, none, some}
use pciebench_nfp.Driver.Device.{
  Kernel, Env, Probed, npb_pci_probe, npb_pci_remove, disable_device, release_regions, cpp_free,
  platform_device_unregister, kfree,
}
use pciebench_nfp.Driver.Device.Chunks.{npb_remove-IsReleased}
use pciebench_nfp.Driver.Device.Probe.{IsIdle, idle, ProbeDone, npb_pci_probe-ProbeDone}

-- What is left of a probe when the kernel has removed the device, if it was bound: the kernel calls
-- `npb_pci_remove` only after a probe that succeeded.
abbrev pub LeavesNothing : Probed → Type 0
LeavesNothing (k', some b, none) = IsIdle (npb_pci_remove b k')
LeavesNothing (k', none, some e) = IsIdle k'
LeavesNothing (k', _, _) = ⊥

removed : (r : Probed) → ProbeDone r → LeavesNothing r
unfolding npb_pci_remove disable_device release_regions kfree cpp_free platform_device_unregister
removed (k', some b, none) (s, c, held) =
    let (r, same) = npb_remove-IsReleased b k' s in
    idle _ r.no_chunk r.no_entry (ground (arith, r.no_misuse, same, held))
      (ground (arith, same, held))
removed (k', none, some e) i = i
removed (k', some b, some e) h = h
removed (k', none, none) h = h

-- However the kernel's calls end, from a state in which nothing is held: after a probe, and after
-- `npb_pci_remove` if the probe succeeded, nothing is held, and each thing was released once.
pub npb_pci_remove-LeavesNothing :
    (env : Env) (k : Kernel) → IsIdle k → LeavesNothing (npb_pci_probe env k)
npb_pci_remove-LeavesNothing env k i = removed _ (npb_pci_probe-ProbeDone env k i)
