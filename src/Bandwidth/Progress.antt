-- ===== src/Bandwidth/Progress.antt =====
-- Every run of the workers comes to its end: no run is longer than a bound, and none is stuck before
-- all workers are done.
use native.Mathlib.Decide.{dec_lt}
use pciebench_nfp.Bandwidth.Census.{census, census-update, census_const, update}
use pciebench_nfp.Bandwidth.{
  Pc, waiting, ready, finished, claimed, in_flight, completed, Dma, Bench, TestSub, begin, Step,
  wake, claim, enqueue, complete, again, leave, Reach, begun, later,
}
use pciebench_nfp.Bandwidth.Invariant.{tally}
use pciebench_nfp.Bandwidth.Outcome.{all_done}
use pciebench_nfp.Common.{
  ℕ, zero, suc, ◌+◌, ◌-◌, ◌*◌, ◌≤◌, ◌<◌, ◌≡◌, ◌⊎◌, inl, inr, refl, ap, ◌∙◌, List, arith, Bool, true,
  false, ◌||◌, ltb, if◌then◌else◌,
}

-- How many more steps a worker can take before it draws again, counting five for each number that the
-- counter still holds.
abbrev weight : Pc → ℕ
weight waiting = 6
weight ready = 5
weight finished = 0
weight (claimed t) = if ltb 1 t then 9 else 4
weight (in_flight t) = if ltb 1 t then 8 else 3
weight (completed t) = if ltb 1 t then 7 else 2

abbrev awake : Pc → Bool
awake waiting = false
awake _ = true

pub potential : ℕ → Bench → ℕ
potential n s = census weight n s.pc + 5 * s.num_dma_trans

-- A worker that is awake has started its neighbour.
record IsChained (n : ℕ) (s : Bench) : Type 0 where
  first : (awake (s.pc 0) || s.start 0) ≡ true
  linked :
      (i : ℕ) → suc i < n → awake (s.pc i) ≡ true → (awake (s.pc (suc i)) || s.start (suc i)) ≡ true

-- A step of a worker that is awake and stays so.
moved-IsChained :
    (n : ℕ) {s : Bench} (i : ℕ) (p : Pc) (num_dma_trans signals : ℕ) (log : List Dma)
    → IsChained n s
    → awake (s.pc i) ≡ true
    → awake p ≡ true
    → IsChained n (record {
      num_dma_trans = num_dma_trans;
      signals = signals;
      log = log;
      start = s.start;
      pc = update s.pc i p;
    })
moved-IsChained n i p num_dma_trans signals log c was is = record {
  first = ground (arith, c.first);
  linked = λ j within up. ground (arith, c.linked j within);
}

module _ (cls_test_sub : TestSub) (next : ℕ → Bool) (test_no n max_trans : ℕ) where
  -- The number of steps of a run.
  pub steps : {s : Bench} → Reach cls_test_sub next test_no n max_trans s → ℕ
  steps begun = 0
  steps (later r step) = suc (steps r)

module _ (cls_test_sub : TestSub) (next : ℕ → Bool) (test_no n max_trans : ℕ)
    (law : (v k : ℕ) → cls_test_sub v k ≡ (v, v - k)) where
  pub Step-potential-lt :
      {s t : Bench} → Step cls_test_sub next test_no n s t → potential n t < potential n s
  unfolding potential
  Step-potential-lt {s} (wake i below at started) =
      ground (arith, census-update weight n i s.pc ready below)
  Step-potential-lt {s} (claim i below at) =
      ground (
        arith,
        law s.num_dma_trans 1,
        census-update weight n i s.pc (claimed s.num_dma_trans) below,
      )
  Step-potential-lt {s} (enqueue i trans below at) =
      ground (arith, census-update weight n i s.pc (in_flight trans) below)
  Step-potential-lt {s} (complete i trans below at) =
      ground (arith, census-update weight n i s.pc (completed trans) below)
  Step-potential-lt {s} (again i trans below at more) =
      ground (arith, census-update weight n i s.pc ready below)
  Step-potential-lt {s} (leave i trans below at last) =
      ground (arith, census-update weight n i s.pc finished below)

  steps-add-potential :
      {s : Bench} (r : Reach cls_test_sub next test_no n max_trans s)
      → steps cls_test_sub next test_no n max_trans r + potential n s ≤ 6 * n + 5 * max_trans
  unfolding steps potential begin
  steps-add-potential begun =
      omega (arith, census_const weight n 6 (λ i. waiting) (λ i below. refl))
  steps-add-potential (later r step) = omega (arith, steps-add-potential r, Step-potential-lt step)

  -- However the workers are scheduled, a test with `n` workers and `max_trans` transactions ends after
  -- at most `6 * n + 5 * max_trans` steps.
  pub steps_bound :
      {s : Bench} (r : Reach cls_test_sub next test_no n max_trans s)
      → steps cls_test_sub next test_no n max_trans r ≤ 6 * n + 5 * max_trans
  steps_bound r = omega (arith, steps-add-potential r)

  module _ (chain : (i : ℕ) → suc i < n → next i ≡ true) where
    Step-IsChained :
        {s t : Bench} → Step cls_test_sub next test_no n s t → IsChained n s → IsChained n t
    Step-IsChained {s} (wake i below at started) c = record {
      first = ground (arith, c.first);
      linked = λ j within up. ground (arith, c.linked j within, chain j within);
    }
    Step-IsChained (claim i below at) c = moved-IsChained n i _ _ _ _ c (rw at refl) refl
    Step-IsChained (enqueue i trans below at) c = moved-IsChained n i _ _ _ _ c (rw at refl) refl
    Step-IsChained (complete i trans below at) c = moved-IsChained n i _ _ _ _ c (rw at refl) refl
    Step-IsChained (again i trans below at more) c = moved-IsChained n i _ _ _ _ c (rw at refl) refl
    Step-IsChained (leave i trans below at last) c = moved-IsChained n i _ _ _ _ c (rw at refl) refl

    Reach-IsChained : {s : Bench} → Reach cls_test_sub next test_no n max_trans s → IsChained n s
    unfolding begin
    Reach-IsChained begun = record { first = refl; linked = λ i within up. cc }
    Reach-IsChained (later r step) = Step-IsChained step (Reach-IsChained r)

    -- What one worker can do, if it has been started.
    moves :
        (s : Bench) (i : ℕ)
        → i < n
        → (awake (s.pc i) || s.start i) ≡ true
        → (p : Pc) → s.pc i ≡ p
        → (p ≡ finished) ⊎ ((t : Bench) × Step cls_test_sub next test_no n s t)
    moves s i below up waiting at = inr (_, wake i below at (ground (arith, up)))
    moves s i below up ready at = inr (_, claim i below at)
    moves s i below up finished at = inl refl
    moves s i below up (claimed t) at = inr (_, enqueue i t below at)
    moves s i below up (in_flight t) at = inr (_, complete i t below at)
    moves s i below up (completed t) at = elim (dec_lt 1 t) [
      | yes more ↦ inr (_, again i t below at more)
      | no last ↦ inr (_, leave i t below at (omega arith))
    ]

    -- The worker after those that have finished has been started.
    up_next :
        (s : Bench)
        → IsChained n s
        → (k : ℕ) → k < n
        → ((i : ℕ) → i < k → s.pc i ≡ finished)
        → (awake (s.pc k) || s.start k) ≡ true
    up_next s c zero below quiet = c.first
    up_next s c (suc k) below quiet = c.linked k below (rw (quiet k (omega arith)) refl)

    -- The first `k` workers have finished, or there is a step.
    scan :
        (s : Bench)
        → IsChained n s
        → (k : ℕ) → k ≤ n
        → ((i : ℕ) → i < k → s.pc i ≡ finished)
          ⊎ ((t : Bench) × Step cls_test_sub next test_no n s t)
    scan s c zero within = inl (λ i none_below. absurd (omega arith))
    scan s c (suc k) within = elim (scan s c k (omega arith)) [
      | inr step ↦ inr step
      | inl quiet ↦ elim (moves s k within (up_next s c k within quiet) (s.pc k) refl) [
        | inr step ↦ inr step
        | inl end ↦ inl (λ i below. elim (dec_lt i k) [
          | yes lower ↦ quiet i lower
          | no top ↦ ap s.pc (omega arith) ∙ end
        ])
      ]
    ]

    -- If every worker but the last starts the next one, a test is never stuck: as long as some worker
    -- is not done there is a step, and when there is none the master has had one signal and each of the
    -- transactions has been enqueued once.
    pub never_stuck :
        {s : Bench}
        → Reach cls_test_sub next test_no n max_trans s
        → 0 < n
        → 0 < max_trans
        → ((t : Bench) × Step cls_test_sub next test_no n s t)
          ⊎ ((s.signals ≡ 1)
              × ((t : ℕ) → 0 < t → t ≤ max_trans → tally t s.log ≡ 1)
              × ((i : ℕ) → i < n → s.pc i ≡ finished))
    never_stuck {s} r some_worker some_trans = elim (scan s (Reach-IsChained r) n (omega arith)) [
      | inr step ↦ inl step
      | inl quiet ↦
          let (each, signal, _, _) = all_done law some_trans r some_worker quiet in
          inr (signal, each, quiet)
    ]
