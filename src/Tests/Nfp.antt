-- ===== src/Tests/Nfp.antt =====
-- Tests of the models of me/libnfp.c.
use pciebench_nfp.Common.{◌≡◌, ◌+◌, ◌*◌, ◌^◌, ◌%◌, ◌≤◌, ◌<◌, suc, arith, true, false}
use pciebench_nfp.Nfp.{nfp3200, nfp6000}
use pciebench_nfp.Nfp.C2p.RoundTrip.{Reaches, pcie_c2p_roundtrip}
use pciebench_nfp.Nfp.Me.{signal_me}
use pciebench_nfp.Nfp.Me.Fields.{Target, target, signal_me_roundtrip}
use pciebench_nfp.Nfp.Journal.{mem_journal_setup, log2_int, log2_unsigned}
use pciebench_nfp.Nfp.Journal.Laws.{
  ring, IsJournal, mem_journal_setup-IsJournal, log2_unsigned_lem, log2_int_lem,
}
use pciebench_nfp.Nfp.Dma.{pcie_dma_setup, set_address}
use pciebench_nfp.Nfp.Dma.Fields.{descriptor, pcie_dma_setup_fields}
use pciebench_nfp.Bandwidth.LastWorker.{starts_next_on, no_last_worker, last_worker_3200}

pcie_c2p_roundtrip_example : Reaches nfp6000 1 3 0x12_3456 0xfedc_ba98 64
pcie_c2p_roundtrip_example =
    pcie_c2p_roundtrip nfp6000 1 3 0x12_3456 0xfedc_ba98 64 (omega arith) (omega arith)
      (omega arith) (omega arith) (omega arith) (omega arith)

abbrev master : Target
master = record { islcl = 33; me = 0; ctx = 5; sig_no = 15 }

signal_me_roundtrip_example : target nfp6000 (signal_me nfp6000 33 0 5 15) ≡ master
signal_me_roundtrip_example =
    signal_me_roundtrip nfp6000 master (omega arith) (omega arith) (omega arith) (omega arith)

mem_journal_setup-IsJournal_example :
    IsJournal 0x1_4000_0000 0x100_0000 (ring (mem_journal_setup 0x1_4000_0000 (4 * 0x100_0000)))
mem_journal_setup-IsJournal_example =
    mem_journal_setup-IsJournal 0x1_4000_0000 0x100_0000 (omega arith) (omega arith) (omega arith)
      (omega arith)

log2_unsigned_test : (2 ^ log2_unsigned 1000 ≤ 1000) × (1000 < 2 ^ suc (log2_unsigned 1000))
log2_unsigned_test = log2_unsigned_lem 1000 (omega arith) (omega arith)

log2_int_test : log2_int 0x40_0000 ≡ 31
log2_int_test = log2_int_lem 0x40_0000

pcie_dma_setup_fields_example :
    descriptor nfp6000
      (set_address 0x12 0x3456_7890 (pcie_dma_setup nfp6000 0 0x214 3 0x8000 9 4096 64))
    ≡ record {
      pcie_addr = 0x12_3456_7890;
      cpp_addr = 0x8040;
      length = 4096;
      island = 33;
      me = 4;
      ctx = 3;
      signo = 9;
    }
pcie_dma_setup_fields_example =
    pcie_dma_setup_fields nfp6000 0 0x214 3 0x8000 9 4096 64 0x12 0x3456_7890 (omega arith)
      (omega arith) (omega arith) (omega arith) (omega arith)

no_last_worker_example : starts_next_on nfp6000 (λ m. 0x78) 94 ≡ true
no_last_worker_example = no_last_worker (λ m. 0x78) (λ m. omega arith) 94

last_worker_test : starts_next_on nfp3200 (λ m. (m % 8 + 4) * 8) 62 ≡ false
last_worker_test =
    last_worker_3200 (λ m. (m % 8 + 4) * 8) (λ m. omega arith) (λ m h. omega arith) 62 (omega arith)
