-- ===== src/Bandwidth/Cluster/Refine.antt =====
-- The workers with their registers refine the step relation of Bandwidth.
use pciebench_nfp.Bandwidth
use pciebench_nfp.Bandwidth.{
  Dma, Bench, TestSub, waiting, claimed, reads, begin, Step, Reach, begun, later,
}
use pciebench_nfp.Bandwidth.Invariant.{Reach-IsFair}
use pciebench_nfp.Bandwidth.Cluster.{
  Regs, SetUp, Issue, Cluster, Move, wake, claim, enqueue, complete, again, leave, finish, Run,
  launched, moved, launch, me_of,
}
use pciebench_nfp.Bandwidth.Cluster.Chain.{claims}
use pciebench_nfp.Bandwidth.Cluster.Loaded.{IsReady, IsNumber, launch-IsReady}
use pciebench_nfp.Bandwidth.Cluster.Kept.{Move-IsReady}
use pciebench_nfp.Common.{
  ℕ, ◌-◌, ◌≤◌, ◌<◌, ◌≡◌, ◌≢◌, ◌⊎◌, inl, inr, refl, sym, ap, ◌∙◌, arith, Bool, false, ◌==◌,
  Bool-cases, List, [], ◌∷◌,
}
use pciebench_nfp.Addresses.{dma_addr_from_idx}
use pciebench_nfp.Latency.{TestParams}

-- The DMAs of a log by their numbers, each with the direction that test `test` has for its number.
abbrev pub dmas : ℕ → List Issue → List Dma
dmas test [] = []
dmas test (d ∷ log) = record { index = d.dma.index; read = reads test d.dma.index } ∷ dmas test log

-- What the step relation of Bandwidth has of a state.
abbrev pub view : ℕ → Cluster → Bench
view test s = record {
  num_dma_trans = s.num_dma_trans;
  signals = s.signals;
  log = dmas test s.log;
  start = s.start;
  pc = s.pc;
}

-- A DMA of the test, with the parameters of the test and the address of its number. Its direction is
-- that of its number; once `main` has overwritten `test_ctrl`, a DMA with the number 0 may be a write.
pub record IsAsked (test : ℕ) (p : TestParams) (addrs : List ℕ) (ctrl signals : ℕ) (d : Issue)
    : Type 0 where
  pub direction :
      (d.dma.read ≡ reads test d.dma.index)
      ⊎ ((d.dma.index ≡ 0) × (d.dma.read ≡ false) × (ctrl ≡ 0) × (0 < signals))
  pub set_up : d.set_up ≡ record { len = p.p1; d_off = p.p4 }
  pub address : d.address ≡ dma_addr_from_idx addrs d.dma.index

abbrev pub AllAsked : ℕ → TestParams → List ℕ → ℕ → ℕ → List Issue → Type 0
AllAsked test p addrs ctrl signals [] = Unit {0}
AllAsked test p addrs ctrl signals (d ∷ log) =
    IsAsked test p addrs ctrl signals d × AllAsked test p addrs ctrl signals log

module _ (test : ℕ) (p : TestParams) (addrs : List ℕ) where
  -- More signals, or the end of the test, take nothing back.
  asked_later :
      (ctrl signals ctrl' signals' : ℕ) (log : List Issue)
      → (ctrl ≡ 0 → ctrl' ≡ 0)
      → signals ≤ signals'
      → AllAsked test p addrs ctrl signals log
      → AllAsked test p addrs ctrl' signals' log
  asked_later ctrl signals ctrl' signals' [] over grown h = h
  asked_later ctrl signals ctrl' signals' (d ∷ log) over grown (h, rest) = (
    record {
      direction = elim (h.direction) [
        | inl right ↦ inl right
        | inr (zero_no, write, ended, some) ↦ inr (zero_no, write, over ended, omega arith)
      ];
      set_up = h.set_up;
      address = h.address;
    },
    asked_later ctrl signals ctrl' signals' log over grown rest,
  )

  -- The direction that a worker gives to its DMA.
  issued_direction :
      (ctrl signals t trans : ℕ)
      → IsNumber test p ctrl signals t
      → (t ≢ test → trans ≡ 0)
      → (reads t trans ≡ reads test trans)
        ⊎ ((trans ≡ 0) × (reads t trans ≡ false) × (ctrl ≡ 0) × (0 < signals))
  unfolding reads
  issued_direction ctrl signals t trans number drawn = elim (Bool-cases (t == test)) [
    | inl same ↦ let e : t ≡ test = ground (arith, same) in inl (ap (λ (x : ℕ). reads x trans) e)
    | inr other ↦
        let late : t ≢ test = ground (arith, other) in
        elim number [
          | inl same ↦ absurd (late same)
          | inr (zero_no, over, some) ↦ inr (drawn late, rw (zero_no, drawn late) refl, over, some)
        ]
  ]

  module _ {cls_test_sub : TestSub} {next : ℕ → Bool} {n : ℕ} where
    Move-AllAsked :
        {s t : Cluster}
        → IsReady test p s
        → Move cls_test_sub next p addrs n s t
        → AllAsked test p addrs s.test_ctrl s.signals s.log
        → AllAsked test p addrs t.test_ctrl t.signals t.log
    Move-AllAsked r (wake i below at started) asked = asked
    Move-AllAsked r (claim i below at) asked = asked
    Move-AllAsked {s} r (enqueue i trans below at) asked = (
      record {
        direction =
            issued_direction s.test_ctrl s.signals (s.regs (me_of i)).test_no trans
              (r.begun i (rw at λ e. cc)).test_no λ late. ap claims (sym at) ∙ r.idle i late;
        set_up = r.set i (rw at λ e. cc);
        address = refl;
      },
      asked,
    )
    Move-AllAsked r (complete i trans below at) asked = asked
    Move-AllAsked r (again i trans below at more) asked = asked
    Move-AllAsked {s} r (leave i trans below at last) asked =
        asked_later s.test_ctrl s.signals s.test_ctrl _ s.log (λ e. e) (ground arith) asked
    Move-AllAsked {s} r (finish some) asked =
        asked_later s.test_ctrl s.signals 0 s.signals s.log (λ e. refl) (omega arith) asked

    -- A move is a step; that `main` overwrites `test_ctrl` is none.
    pub Move-Step :
        {s t : Cluster}
        → Move cls_test_sub next p addrs n s t
        → Step cls_test_sub next test n (view test s) (view test t) ⊎ (view test s ≡ view test t)
    Move-Step (wake i below at started) = inl (Bandwidth.wake i below at started)
    Move-Step (claim i below at) = inl (Bandwidth.claim i below at)
    Move-Step (enqueue i trans below at) = inl (Bandwidth.enqueue i trans below at)
    Move-Step (complete i trans below at) = inl (Bandwidth.complete i trans below at)
    Move-Step (again i trans below at more) = inl (Bandwidth.again i trans below at more)
    Move-Step (leave i trans below at last) = inl (Bandwidth.leave i trans below at last)
    Move-Step (finish some) = inr refl

module _ {cls_test_sub : TestSub} {next : ℕ → Bool} {test : ℕ} {n max_trans : ℕ}
    (law : (v k : ℕ) → cls_test_sub v k ≡ (v, v - k)) (some_trans : 0 < max_trans) where
  reach_on :
      {s t : Bench}
      → Reach cls_test_sub next test n max_trans s
      → Step cls_test_sub next test n s t ⊎ (s ≡ t)
      → Reach cls_test_sub next test n max_trans t
  reach_on r (inl step) = later r step
  reach_on r (inr same) = rw same at r

  -- No transaction is left once the master has its signal.
  drained :
      {s : Bench} → Reach cls_test_sub next test n max_trans s → 0 < s.signals → s.num_dma_trans ≡ 0
  drained r some = ground (arith, (Reach-IsFair n max_trans law some_trans r).signal)

  module _ {p : TestParams} {addrs : List ℕ} where
    Run-IsReady :
        {old : ℕ → Regs} {stale : ℕ → SetUp} {s : Cluster}
        → Run cls_test_sub next p addrs n test max_trans old stale s
        → Reach cls_test_sub next test n max_trans (view test s) × IsReady test p s
    unfolding launch begin
    Run-IsReady {old} {stale} launched = (begun, launch-IsReady test p max_trans old stale)
    Run-IsReady (moved r m) =
        let (reached, ready) = Run-IsReady r in
        (
          reach_on reached (Move-Step test p addrs m),
          Move-IsReady test p law m (drained reached) ready,
        )

    -- If `cls_test_sub` returns the old value and leaves the saturated difference, and there are
    -- transactions to do, whatever the registers of the MEs and the descriptors held before, and
    -- also if `main` overwrites `test_ctrl` while MEs have still to load it: each state that the
    -- workers come to is, but for the registers, the descriptors and the directions, one that the
    -- step relation of Bandwidth comes to with the host's test number. Every DMA so far has the
    -- length and the buffer offset of the host's parameters and the address that the table has for
    -- its number. Its direction is the one that the host's test number asks for, unless its number
    -- is 0, the master has its signal and `test_ctrl` is 0: then it may be a write.
    pub Run-Refines :
        {old : ℕ → Regs} {stale : ℕ → SetUp} {s : Cluster}
        → Run cls_test_sub next p addrs n test max_trans old stale s
        → Reach cls_test_sub next test n max_trans (view test s)
          × AllAsked test p addrs s.test_ctrl s.signals s.log
    unfolding launch begin
    Run-Refines launched = (begun, tt)
    Run-Refines (moved r m) =
        let (reached, asked) = Run-Refines r in
        let (_, ready) = Run-IsReady r in
        (reach_on reached (Move-Step test p addrs m), Move-AllAsked test p addrs ready m asked)
