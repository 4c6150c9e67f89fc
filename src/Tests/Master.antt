-- ===== src/Tests/Master.antt =====
-- Tests of the models of the bandwidth test's master and of the workers' registers.
use pciebench_nfp.Common.{ℕ, ◌≡◌, refl, arith, inl, true, false, [], ◌∷◌}
use mathlib.Core.List.{map}
use pciebench_nfp.Nfp.{nfp6000}
use pciebench_nfp.Bandwidth.{Reach, reads}
use pciebench_nfp.Bandwidth.Cluster.{
  Regs, SetUp, Issue, Cluster, Run, launched, moved, launch, wake, claim, enqueue, complete, leave,
  finish, woken, worker_loads, master_loads,
}
use pciebench_nfp.Bandwidth.Cluster.Refine.{view, AllAsked, Run-Refines}
use pciebench_nfp.Bandwidth.Master.{DmaBw}
use pciebench_nfp.Bandwidth.Master.Returns.{IsBwRun, dma_bw-IsBwRun}
use pciebench_nfp.Bandwidth.Master.Completes.{dma_bw_ends}
use pciebench_nfp.Latency.{Ran}
use pciebench_nfp.Tests.Addresses.{
  host_chunks, host_chunks-IsMapped, no_random, no_random-lt, small_window-IsAccepted, unit_128,
}
use pciebench_nfp.Tests.Latency.{asked, quiet}
use pciebench_nfp.Tests.Bandwidth.{saturating, saturating_lem, always}

-- Registers and descriptors that earlier tests have left.
abbrev pub old : ℕ → Regs
old m = record {
  test_no = 6;
  arg_flags = 1;
  arg_trans_sz = 64;
  arg_win = 4096;
  arg_hoff = 4;
  arg_doff = 8;
}

abbrev pub stale : ℕ → SetUp
stale i = record { len = 64; d_off = 8 }

-- The first worker performs the only transaction of a test of reads and signals the master, which goes
-- on; the eighth worker, on the next ME, wakes up after that.
late_write : (s : Cluster) × Run saturating always asked [] 64 5 1 old stale s
unfolding launch woken worker_loads saturating
late_write = (
  _,
  moved
      (moved
        (moved
          (moved
            (moved
              (moved
                (moved
                  (moved
                    (moved
                      (moved
                        (moved
                          (moved
                            (moved
                              (moved
                                (moved (moved launched (wake 0 (omega arith) refl refl))
                                  (claim 0 (omega arith) refl))
                                (enqueue 0 1 (omega arith) refl))
                              (complete 0 1 (omega arith) refl))
                            (leave 0 1 (omega arith) refl (omega arith)))
                          (finish (omega arith)))
                        (wake 1 (omega arith) refl refl))
                      (wake 2 (omega arith) refl refl))
                    (wake 3 (omega arith) refl refl))
                  (wake 4 (omega arith) refl refl))
                (wake 5 (omega arith) refl refl))
              (wake 6 (omega arith) refl refl))
            (wake 7 (omega arith) refl refl))
          (claim 7 (omega arith) refl))
        (enqueue 7 0 (omega arith) refl))
      (complete 7 0 (omega arith) refl),
)

-- Its DMA is a write.
late_write_direction : map (λ (d : Issue). d.dma.read) late_write.0.log ≡ false ∷ true ∷ []
unfolding late_write launch woken worker_loads master_loads reads
late_write_direction = refl

Run-Refines_example :
    Reach saturating always 5 64 1 (view 5 late_write.0)
    × AllAsked 5 asked [] late_write.0.test_ctrl late_write.0.signals late_write.0.log
Run-Refines_example = Run-Refines saturating_lem (omega arith) late_write.1

pub ended :
    (ran : Ran) × DmaBw nfp6000
      (λ n. n)
      (λ n. 0)
      no_random
      65
      saturating
      always
      64
      old
      stale
      host_chunks
      asked
      5
      quiet
      ran
ended =
    dma_bw_ends nfp6000 (λ n. n) (λ n. 0) no_random host_chunks 65 asked small_window-IsAccepted
      host_chunks-IsMapped no_random-lt (inl (refl, omega (arith, unit_128))) saturating always 64
      old stale saturating_lem (λ i h. refl) (omega arith) 5 quiet

dma_bw_ends_example :
    (ran : Ran) × DmaBw nfp6000
      (λ n. n)
      (λ n. 0)
      no_random
      65
      saturating
      always
      64
      old
      stale
      host_chunks
      asked
      5
      quiet
      ran
dma_bw_ends_example =
    dma_bw_ends nfp6000 (λ n. n) (λ n. 0) no_random host_chunks 65 asked small_window-IsAccepted
      host_chunks-IsMapped no_random-lt (inl (refl, omega (arith, unit_128))) saturating always 64
      old stale saturating_lem (λ i h. refl) (omega arith) 5 quiet

dma_bw-IsBwRun_example : IsBwRun host_chunks asked 100 5 64 quiet ended.0
dma_bw-IsBwRun_example =
    dma_bw-IsBwRun nfp6000 (λ n. n) (λ n. 0) no_random host_chunks 65 asked small_window-IsAccepted
      host_chunks-IsMapped no_random-lt (inl (refl, omega (arith, unit_128))) saturating always 64
      old stale saturating_lem 5 quiet ended.0 (omega arith) ended.1
