-- ===== src/Bandwidth/Invariant.antt =====
-- What every step of the workers keeps: which transactions have been handed out, and to whom.
use pciebench_nfp.Bandwidth.Census.{census, census-update, census_const, update}
use pciebench_nfp.Bandwidth.{
  Pc, waiting, ready, finished, claimed, in_flight, completed, Dma, Bench, TestSub, begin, Step,
  wake, claim, enqueue, complete, again, leave, Reach, begun, later,
}
use pciebench_nfp.Common.{
  ℕ, ◌+◌, ◌-◌, ◌≤◌, ◌<◌, ◌≡◌, refl, arith, Bool, ◌&&◌, ltb, leb, ◌==◌, if◌then◌else◌, List, [], ◌∷◌,
  length,
}

-- How many DMAs of the log are for index `t`.
pub tally : ℕ → List Dma → ℕ
tally t [] = 0
tally t (d ∷ log) = (if d.index == t then 1 else 0) + tally t log

-- A worker that has drawn `t` and not yet enqueued it.
abbrev pub draws : ℕ → Pc → ℕ
draws t (claimed u) = if u == t then 1 else 0
draws t _ = 0

-- A worker that has drawn and not yet enqueued.
abbrev pub drawing : Pc → ℕ
drawing (claimed u) = 1
drawing _ = 0

-- A worker whose draw was its last.
abbrev pub last_draw : Pc → ℕ
last_draw waiting = 0
last_draw ready = 0
last_draw finished = 1
last_draw (claimed u) = if leb u 1 then 1 else 0
last_draw (in_flight u) = if leb u 1 then 1 else 0
last_draw (completed u) = if leb u 1 then 1 else 0

-- A worker that will signal the master.
abbrev pub signaller : Pc → ℕ
signaller waiting = 0
signaller ready = 0
signaller finished = 0
signaller (claimed u) = if u == 1 then 1 else 0
signaller (in_flight u) = if u == 1 then 1 else 0
signaller (completed u) = if u == 1 then 1 else 0

module _ (n max_trans : ℕ) where
  pub record IsFair (s : Bench) : Type 0 where
    pub bound : s.num_dma_trans ≤ max_trans
    pub each :
        (t : ℕ)
        → 0 < t
        → tally t s.log + census (draws t) n s.pc
          ≡ (if ltb s.num_dma_trans t && leb t max_trans then 1 else 0)
    pub zeros :
        census last_draw n s.pc
        ≡ tally 0 s.log + census (draws 0) n s.pc + (if s.num_dma_trans == 0 then 1 else 0)
    pub early : 0 < s.num_dma_trans → tally 0 s.log + census (draws 0) n s.pc ≡ 0
    pub size :
        length s.log + census drawing n s.pc + s.num_dma_trans
        ≡ max_trans + tally 0 s.log + census (draws 0) n s.pc
    pub signal : s.signals + census signaller n s.pc ≡ (if s.num_dma_trans == 0 then 1 else 0)

  begin-IsFair : 0 < max_trans → IsFair (begin max_trans)
  unfolding begin tally
  begin-IsFair some_trans = record {
    bound = omega arith;
    each = λ t pos. ground (arith, none_yet (draws t) refl);
    zeros = ground (arith, none_yet last_draw refl, none_yet (draws 0) refl);
    early = λ pos. ground (arith, none_yet (draws 0) refl);
    size = ground (arith, none_yet drawing refl, none_yet (draws 0) refl);
    signal = ground (arith, none_yet signaller refl);
  }
    where
      none_yet : (w : Pc → ℕ) → w waiting ≡ 0 → census w n (λ i. waiting) ≡ 0
      none_yet w h = omega (arith, census_const w n 0 (λ i. waiting) (λ i below. h))

  -- A step of worker `i` that leaves the counter alone. What the log gains the worker has drawn,
  -- and what the master gets the worker owed.
  kept-IsFair :
      {s : Bench} (i : ℕ) (p : Pc) (start : ℕ → Bool) (log : List Dma) (signals : ℕ)
      → IsFair s
      → i < n
      → ((t : ℕ) → tally t log + draws t p ≡ tally t s.log + draws t (s.pc i))
      → length log + drawing p ≡ length s.log + drawing (s.pc i)
      → last_draw p ≡ last_draw (s.pc i)
      → signals + signaller p ≡ s.signals + signaller (s.pc i)
      → IsFair (record {
        num_dma_trans = s.num_dma_trans;
        signals = signals;
        log = log;
        start = start;
        pc = update s.pc i p;
      })
  kept-IsFair {s} i p start log signals f below drawn sized last owed = record {
    bound = f.bound;
    each = λ t pos. omega (arith, f.each t pos, drawn t, census-update (draws t) n i s.pc p below);
    zeros = omega (
      arith,
      f.zeros,
      drawn 0,
      last,
      census-update (draws 0) n i s.pc p below,
      census-update last_draw n i s.pc p below,
    );
    early = λ pos. omega (arith, f.early pos, drawn 0, census-update (draws 0) n i s.pc p below);
    size = omega (
      arith,
      f.size,
      drawn 0,
      sized,
      census-update (draws 0) n i s.pc p below,
      census-update drawing n i s.pc p below,
    );
    signal = omega (arith, f.signal, owed, census-update signaller n i s.pc p below);
  }

  module _ {cls_test_sub : TestSub} {next : ℕ → Bool} {test_no : ℕ}
      (law : (v k : ℕ) → cls_test_sub v k ≡ (v, v - k)) where
    Step-IsFair : {s t : Bench} → Step cls_test_sub next test_no n s t → IsFair s → IsFair t
    unfolding tally
    Step-IsFair {s} (wake i below at started) f =
        kept-IsFair i ready _ s.log s.signals f below (λ t. rw at refl) (rw at refl) (rw at refl)
          (rw at refl)
    Step-IsFair {s} (claim i below at) f = record {
      bound = ground (arith, law s.num_dma_trans 1, f.bound);
      each = λ t pos. ground (
        arith,
        law s.num_dma_trans 1,
        f.bound,
        f.each t,
        census-update (draws t) n i s.pc (claimed s.num_dma_trans) below,
      );
      zeros = ground (
        arith,
        law s.num_dma_trans 1,
        census-update last_draw n i s.pc (claimed s.num_dma_trans) below,
        census-update (draws 0) n i s.pc (claimed s.num_dma_trans) below,
        f.zeros,
      );
      early = λ pos. ground (
        arith,
        law s.num_dma_trans 1,
        f.early (ground (arith, law s.num_dma_trans 1)),
        census-update (draws 0) n i s.pc (claimed s.num_dma_trans) below,
      );
      size = ground (
        arith,
        law s.num_dma_trans 1,
        census-update drawing n i s.pc (claimed s.num_dma_trans) below,
        census-update (draws 0) n i s.pc (claimed s.num_dma_trans) below,
        f.size,
      );
      signal = ground (
        arith,
        law s.num_dma_trans 1,
        census-update signaller n i s.pc (claimed s.num_dma_trans) below,
        f.signal,
      );
    }
    Step-IsFair {s} (enqueue i trans below at) f =
        kept-IsFair i (in_flight trans) s.start _ s.signals f below (λ t. ground arith)
          (ground arith) (rw at refl) (rw at refl)
    Step-IsFair {s} (complete i trans below at) f =
        kept-IsFair i (completed trans) s.start s.log s.signals f below (λ t. rw at refl)
          (rw at refl) (rw at refl) (rw at refl)
    Step-IsFair {s} (again i trans below at more) f =
        kept-IsFair i ready s.start s.log s.signals f below (λ t. rw at refl) (rw at refl)
          (ground arith) (ground arith)
    Step-IsFair {s} (leave i trans below at last) f =
        kept-IsFair i finished s.start s.log _ f below (λ t. rw at refl) (rw at refl) (ground arith)
          (ground arith)

    -- In every state of a test the transactions handed out are those above the counter.
    pub Reach-IsFair :
        {s : Bench} → 0 < max_trans → Reach cls_test_sub next test_no n max_trans s → IsFair s
    Reach-IsFair some_trans begun = begin-IsFair some_trans
    Reach-IsFair some_trans (later r step) = Step-IsFair step (Reach-IsFair some_trans r)
