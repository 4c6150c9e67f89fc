-- ===== src/Bandwidth.antt =====
-- me/pcie_dma.c, `dma_bw` and `dma_bw_worker`: the bandwidth test. The master thread sets the number
-- of transactions and starts the first of `n` worker threads; each worker starts the next one, and
-- all draw transaction numbers from a shared counter until it is used up. One test is one run of
-- the step relation; a worker that has left its inner loop is `finished`. The log has the directions
-- that the host's test number asks for; Bandwidth.Cluster has the number that each ME really loads.
pub mod Census
pub mod Invariant
pub mod Outcome
pub mod LastWorker
pub mod Early
pub mod Progress
pub mod Cluster
pub mod Master
use pciebench_nfp.Bandwidth.Census.{update}
use pciebench_nfp.Common.{
  ℕ, ◌+◌, ◌-◌, ◌/◌, ◌%◌, ◌≤◌, ◌<◌, ◌≡◌, bit_and, Bool, true, false, ◌||◌, ◌==◌, if◌then◌else◌, List,
  [], ◌∷◌,
}

-- `enum pciebench_tests` of me/pciebench.h: the bandwidth tests.
abbrev pub bw_dma_rd : ℕ
bw_dma_rd = 5

abbrev pub bw_dma_wr : ℕ
bw_dma_wr = 6

abbrev pub bw_dma_rw : ℕ
bw_dma_rw = 7

-- Whether transaction `trans` of test `test_no` reads from the host.
unfoldable pub reads : ℕ → ℕ → Bool
reads test_no trans =
    if test_no == bw_dma_rd
    then true
    else if test_no == bw_dma_wr
    then false
    else if bit_and trans 1 == 0
    then false
    else true

-- Where a worker stands. The number is its `trans`.
pub data Pc : Type 0 where
  waiting ready finished : Pc
  claimed in_flight completed : ℕ → Pc

-- A DMA as the engine gets it: the index of its address, and its direction.
pub record Dma : Type 0 where
  pub index : ℕ
  pub read : Bool

pub record Bench : Type 0 where
  pub num_dma_trans : ℕ
  pub signals : ℕ  -- sent to the master
  pub log : List Dma  -- DMAs enqueued, the last one first
  pub start : ℕ → Bool  -- start signals not yet consumed
  pub pc : ℕ → Pc

-- The worker threads are numbered along the chain of start signals: worker `i` is context
-- `(i + 1) % 8` of ME `(i + 1) / 8`. `last_me` is the value that `meid & 0xf` is compared with, and
-- `me_number` gives `__ME() & 0xf` on an ME.
unfoldable pub starts_next : (ℕ → ℕ) → ℕ → ℕ → Bool
starts_next me_number last_me i =
    if (i + 1) % 8 == 7 then (if me_number ((i + 1) / 8) == last_me then false else true) else true

-- `cls_test_sub` on the counter: the value returned and the value left.
abbrev pub TestSub : Type 0
TestSub = ℕ → ℕ → ℕ × ℕ

-- `dma_bw` before it waits.
unfoldable pub begin : ℕ → Bench
begin max_trans = record {
  num_dma_trans = max_trans;
  signals = 0;
  log = [];
  start = λ i. i == 0;
  pc = λ i. waiting;
}

module _ (cls_test_sub : TestSub) (next : ℕ → Bool) (test_no n : ℕ) where
  -- One step of one worker.
  pub data Step (s : Bench) : Bench → Type 0 where
    wake :
        (i : ℕ)
        → i < n
        → s.pc i ≡ waiting
        → s.start i ≡ true
        → Step s (record s {
          start = update (update s.start i false) (i + 1) (next i || s.start (i + 1));
          pc = update s.pc i ready;
        })
    claim :
        (i : ℕ)
        → i < n
        → s.pc i ≡ ready
        → Step s (record s {
          num_dma_trans = (cls_test_sub s.num_dma_trans 1).1;
          pc = update s.pc i (claimed (cls_test_sub s.num_dma_trans 1).0);
        })
    enqueue :
        (i trans : ℕ)
        → i < n
        → s.pc i ≡ claimed trans
        → Step s (record s {
          log = record { index = trans; read = reads test_no trans } ∷ s.log;
          pc = update s.pc i (in_flight trans);
        })
    complete :
        (i trans : ℕ)
        → i < n
        → s.pc i ≡ in_flight trans
        → Step s (record s { pc = update s.pc i (completed trans) })
    again :
        (i trans : ℕ)
        → i < n
        → s.pc i ≡ completed trans
        → 1 < trans
        → Step s (record s { pc = update s.pc i ready })
    leave :
        (i trans : ℕ)
        → i < n
        → s.pc i ≡ completed trans
        → trans ≤ 1
        → Step s (record s {
          signals = if trans == 1 then s.signals + 1 else s.signals;
          pc = update s.pc i finished;
        })

  pub data Reach (max_trans : ℕ) : Bench → Type 0 where
    begun : Reach max_trans (begin max_trans)
    later : {s t : Bench} → Reach max_trans s → Step s t → Reach max_trans t
