-- ===== src/Bandwidth/Master.antt =====
-- me/pcie_dma.c, `dma_bw`: the master's side of the bandwidth test, with the workers of
-- Bandwidth.Cluster between its signal to the first one and the signal that it waits for. `old` and
-- `stale` are the registers and descriptors that earlier tests have left.
pub mod Finish
pub mod Completes
pub mod Refused
pub mod Returns
use pciebench_nfp.Common.{
  ℕ, ◌+◌, ◌*◌, ◌≡◌, Bool, true, false, if◌then◌else◌, Option, none, some, List, [], ◌∷◌, ◌++◌,
  Outcome, done, ◌>>=◌,
}
use pciebench_nfp.Nfp.{Chip}
use pciebench_nfp.Addresses.{Address, dma_addr_init}
use pciebench_nfp.Bandwidth.{Dma, TestSub}
use pciebench_nfp.Bandwidth.Cluster.{Regs, SetUp, Issue, Cluster, Run}
use pciebench_nfp.Latency.{
  TestParams, Op, from_pci, to_pci, Bus, bad_args, Ran, has_flag, refused, window, prepare, report,
  pcie_addr, dma_len,
}

-- `PCIEBENCH_BW_TRANS`, or `PCIEBENCH_JOURNAL_SZ` in a long test.
pub bw_trans : ℕ → ℕ
bw_trans flags = if has_flag flags 8 then 16 * 1024 * 1024 else 8 * 1024 * 1024

-- What a DMA of a worker does to the host, by the fields of its descriptor.
pub host_op : Chip → Issue → Outcome Op
host_op chip d = do
  a ← d.address
  let len = dma_len chip d.set_up.len
  done (if d.dma.read then from_pci (pcie_addr a) len else to_pci (pcie_addr a) len)

pub host_ops : Chip → List Issue → Outcome (List Op)
host_ops chip [] = done []
host_ops chip (d ∷ log) = do op ← host_op chip d; ops ← host_ops chip log; done (op ∷ ops)

-- `dma_bw` until it signals the first worker; `none` if it refuses its arguments.
pub dma_bw_begin : (ℕ → ℕ) → List ℕ → ℕ → TestParams → Bus → Outcome (Option (List ℕ × Bus))
dma_bw_begin rand chunks fuel p s =
    let run = (do
      addrs ← dma_addr_init rand chunks (window p) fuel
      done (some (addrs, record (prepare p s) { stamps = s.stamps + 2 }))) in
    if refused p then done none else run

-- `dma_bw` from the signal of the last worker on, with the bus as the workers leave it.
pub dma_bw_end : (ℕ → ℕ) → (ℕ → ℕ) → TestParams → Bus → Bus → List Op → Ran
dma_bw_end ts_lo ts_hi p s begun ops =
    report ts_lo ts_hi s.stamps (bw_trans p.p0) (true, record begun { ops = ops ++ begun.ops })

module _ (chip : Chip) (ts_lo ts_hi rand : ℕ → ℕ) (fuel : ℕ) (cls_test_sub : TestSub)
    (next : ℕ → Bool) (n : ℕ) (old : ℕ → Regs) (stale : ℕ → SetUp) where
  -- The ways in which `dma_bw` can end. It returns before `main` overwrites `test_ctrl`.
  pub data DmaBw (chunks : List ℕ) (p : TestParams) (test : ℕ) (s : Bus) (ran : Ran) : Type 0 where
    refuses :
        dma_bw_begin rand chunks fuel p s ≡ done none
        → ran ≡ record { ret = bad_args; bus = s; result = λ r. r }
        → DmaBw chunks p test s ran
    ends :
        (addrs : List ℕ) (begun : Bus) (c : Cluster) (ops : List Op)
        → dma_bw_begin rand chunks fuel p s ≡ done (some (addrs, begun))
        → Run cls_test_sub next p addrs n test (bw_trans p.p0) old stale c
        → c.signals ≡ 1
        → c.test_ctrl ≡ test
        → host_ops chip c.log ≡ done ops
        → ran ≡ dma_bw_end ts_lo ts_hi p s begun ops
        → DmaBw chunks p test s ran
