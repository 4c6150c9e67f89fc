-- ===== src/Bandwidth/Cluster.antt =====
-- me/pcie_dma.c, `dma_bw_worker` with the variables that the contexts of one ME share: the steps of
-- Bandwidth with the registers that each ME loads, the descriptor that each worker sets up, and the
-- address that it patches in. `test` and `p` are what the host has written to `test_ctrl` and
-- `test_params`, and `addrs` is the table of addresses in memory. Once the master has its signal, `main`
-- overwrites `test_ctrl`, while an ME may still have to load it; the host is taken not to write either
-- variable until all workers are done.
pub mod Chain
pub mod Loaded
pub mod Kept
pub mod Refine
use pciebench_nfp.Bandwidth.Census.{update}
use pciebench_nfp.Bandwidth.{
  Pc, waiting, ready, finished, claimed, in_flight, completed, Dma, Bench, TestSub, reads,
}
use pciebench_nfp.Common.{
  ℕ, ◌+◌, ◌/◌, ◌%◌, ◌≤◌, ◌<◌, ◌≡◌, Bool, true, false, ◌||◌, ◌==◌, if◌then◌else◌, List, [], ◌∷◌,
  Outcome,
}
use pciebench_nfp.Addresses.{Address, dma_addr_from_idx}
use pciebench_nfp.Latency.{TestParams}

-- The `__shared __gpr` variables of one ME.
pub record Regs : Type 0 where
  pub test_no : ℕ
  pub arg_flags : ℕ
  pub arg_trans_sz : ℕ
  pub arg_win : ℕ
  pub arg_hoff : ℕ
  pub arg_doff : ℕ

-- What `dma_bw` sets on its ME: its `arg_win` is a local variable of that name.
unfoldable pub master_loads : ℕ → TestParams → Regs → Regs
master_loads test p r = record r {
  test_no = test;
  arg_flags = p.p0;
  arg_trans_sz = p.p1;
  arg_hoff = p.p3;
  arg_doff = p.p4;
}

-- What context 0 sets on another ME.
unfoldable pub worker_loads : ℕ → TestParams → Regs
worker_loads test p = record {
  test_no = test;
  arg_flags = p.p0;
  arg_trans_sz = p.p1;
  arg_win = p.p2;
  arg_hoff = p.p3;
  arg_doff = p.p4;
}

-- The ME and the context of a worker.
abbrev pub me_of : ℕ → ℕ
me_of i = (i + 1) / 8

abbrev pub ctx_of : ℕ → ℕ
ctx_of i = (i + 1) % 8

-- What a worker gives to `pcie_dma_setup`.
pub record SetUp : Type 0 where
  pub len : ℕ
  pub d_off : ℕ

-- A DMA with its set-up and its address in host memory.
pub record Issue : Type 0 where
  pub dma : Dma
  pub set_up : SetUp
  pub address : Outcome Address

pub record Cluster : Type 0 where
  pub num_dma_trans : ℕ
  pub signals : ℕ
  pub test_ctrl : ℕ
  pub log : List Issue
  pub start : ℕ → Bool
  pub pc : ℕ → Pc
  pub regs : ℕ → Regs  -- of each ME
  pub set_up : ℕ → SetUp  -- of each worker

-- The registers after worker `i` has woken up.
unfoldable pub woken : ℕ → TestParams → ℕ → (ℕ → Regs) → ℕ → Regs
woken test p i regs = if ctx_of i == 0 then update regs (me_of i) (worker_loads test p) else regs

unfoldable pub set_up_from : Regs → SetUp
set_up_from r = record { len = r.arg_trans_sz; d_off = r.arg_doff }

-- `dma_bw` when it has signalled the first worker; `old` and `stale` are left from earlier tests.
unfoldable pub launch : ℕ → TestParams → ℕ → (ℕ → Regs) → (ℕ → SetUp) → Cluster
launch test p max_trans old stale = record {
  num_dma_trans = max_trans;
  signals = 0;
  test_ctrl = test;
  log = [];
  start = λ i. i == 0;
  pc = λ i. waiting;
  regs = update old 0 (master_loads test p (old 0));
  set_up = stale;
}

module _ (cls_test_sub : TestSub) (next : ℕ → Bool) (p : TestParams) (addrs : List ℕ) (n : ℕ) where
  pub data Move (s : Cluster) : Cluster → Type 0 where
    wake :
        (i : ℕ)
        → i < n
        → s.pc i ≡ waiting
        → s.start i ≡ true
        → Move s (record s {
          start = update (update s.start i false) (i + 1) (next i || s.start (i + 1));
          pc = update s.pc i ready;
          regs = woken s.test_ctrl p i s.regs;
          set_up = update s.set_up i (set_up_from (woken s.test_ctrl p i s.regs (me_of i)));
        })
    claim :
        (i : ℕ)
        → i < n
        → s.pc i ≡ ready
        → Move s (record s {
          num_dma_trans = (cls_test_sub s.num_dma_trans 1).1;
          pc = update s.pc i (claimed (cls_test_sub s.num_dma_trans 1).0);
        })
    enqueue :
        (i trans : ℕ)
        → i < n
        → s.pc i ≡ claimed trans
        → Move s (record s {
          log =
              record {
                dma = record { index = trans; read = reads (s.regs (me_of i)).test_no trans };
                set_up = s.set_up i;
                address = dma_addr_from_idx addrs trans;
              }
              ∷ s.log;
          pc = update s.pc i (in_flight trans);
        })
    complete :
        (i trans : ℕ)
        → i < n
        → s.pc i ≡ in_flight trans
        → Move s (record s { pc = update s.pc i (completed trans) })
    again :
        (i trans : ℕ)
        → i < n
        → s.pc i ≡ completed trans
        → 1 < trans
        → Move s (record s { pc = update s.pc i ready })
    leave :
        (i trans : ℕ)
        → i < n
        → s.pc i ≡ completed trans
        → trans ≤ 1
        → Move s (record s {
          signals = if trans == 1 then s.signals + 1 else s.signals;
          pc = update s.pc i finished;
        })
    -- `dma_bw` has returned 0 and `main` stores it.
    finish : 0 < s.signals → Move s (record s { test_ctrl = 0 })

  -- The states that a test can come to.
  pub data Run (test max_trans : ℕ) (old : ℕ → Regs) (stale : ℕ → SetUp) : Cluster → Type 0 where
    launched : Run test max_trans old stale (launch test p max_trans old stale)
    moved :
        {s t : Cluster} → Run test max_trans old stale s → Move s t → Run test max_trans old stale t
