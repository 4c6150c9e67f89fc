-- ===== src/Tests/Bandwidth.antt =====
-- Tests of the model of the bandwidth test's workers.
use pciebench_nfp.Common.{ℕ, ◌≡◌, ◌+◌, ◌-◌, ◌<◌, ◌≤◌, ◌*◌, ◌⊎◌, refl, arith, Bool, length, true}
use pciebench_nfp.Bandwidth.{
  Bench, Step, TestSub, finished, begin, wake, claim, enqueue, complete, leave, Reach, begun, later,
}
use pciebench_nfp.Bandwidth.Invariant.{tally}
use pciebench_nfp.Bandwidth.Progress.{steps, steps_bound, never_stuck}
use pciebench_nfp.Bandwidth.Early.{SignalledEarly, master-SignalledEarly}
use pciebench_nfp.Bandwidth.Outcome.{no_duplicates, all_done}

unfoldable pub saturating : TestSub
saturating v k = (v, v - k)

pub saturating_lem : (v k : ℕ) → saturating v k ≡ (v, v - k)
unfolding saturating
saturating_lem v k = refl

abbrev pub always : ℕ → Bool
always i = true

-- One worker performs the only transaction and signals.
one_worker : (s : Bench) × Reach saturating always 5 1 1 s × ((i : ℕ) → i < 1 → s.pc i ≡ finished)
unfolding begin saturating
one_worker = (
  _,
  later
      (later
        (later (later (later begun (wake 0 (omega arith) refl refl)) (claim 0 (omega arith) refl))
          (enqueue 0 1 (omega arith) refl))
        (complete 0 1 (omega arith) refl))
      (leave 0 1 (omega arith) refl (omega arith)),
  λ i below. ground arith,
)

no_duplicates_test :
    (one_worker.0.signals ≤ 1)
    × ((t : ℕ) → 0 < t → tally t one_worker.0.log ≤ 1)
    × ((t : ℕ) → 1 < t → tally t one_worker.0.log ≡ 0)
no_duplicates_test = no_duplicates saturating_lem (omega arith) one_worker.1

all_done_example :
    ((t : ℕ) → 0 < t → t ≤ 1 → tally t one_worker.0.log ≡ 1)
    × (one_worker.0.signals ≡ 1)
    × (tally 0 one_worker.0.log + 1 ≡ 1)
    × (length one_worker.0.log + 1 ≡ 1 + 1)
all_done_example = all_done saturating_lem (omega arith) one_worker.1 (omega arith) one_worker.2

master-SignalledEarly_example : SignalledEarly saturating always 5 7 1000
master-SignalledEarly_example =
    master-SignalledEarly saturating always 5 7 1000 saturating_lem (omega arith) refl (omega arith)

steps_bound_example : steps saturating always 5 1 1 one_worker.1 ≤ 6 * 1 + 5 * 1
steps_bound_example = steps_bound saturating always 5 1 1 saturating_lem one_worker.1

never_stuck_example :
    ((t : Bench) × Step saturating always 5 1 one_worker.0 t)
    ⊎ ((one_worker.0.signals ≡ 1)
        × ((t : ℕ) → 0 < t → t ≤ 1 → tally t one_worker.0.log ≡ 1)
        × ((i : ℕ) → i < 1 → one_worker.0.pc i ≡ finished))
never_stuck_example =
    never_stuck saturating always 5 1 1 saturating_lem (λ i h. refl) one_worker.1 (omega arith)
      (omega arith)
