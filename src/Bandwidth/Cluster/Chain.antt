-- ===== src/Bandwidth/Cluster/Chain.antt =====
-- The workers wake up along the chain of start signals.
use pciebench_nfp.Bandwidth.Census.{update, update_elim}
use pciebench_nfp.Bandwidth.{Pc, waiting, claimed}
use pciebench_nfp.Common.{ℕ, zero, suc, ◌+◌, ◌≡◌, ◌≢◌, refl, arith, Bool, true, false, ◌==◌}

-- Who has been started or has begun finds that the worker before it has begun.
pub record InChain (start : ℕ → Bool) (pc : ℕ → Pc) : Type 0 where
  pub starts : (j : ℕ) → start (suc j) ≡ true → pc j ≢ waiting
  pub chain : (j : ℕ) → pc (suc j) ≢ waiting → pc j ≢ waiting

pub launch-InChain : InChain (λ i. i == 0) (λ i. waiting)
launch-InChain = record {
  starts = λ j on. absurd (ground (arith, on));
  chain = λ j now. absurd (now refl);
}

-- A worker that has begun stays so.
module _ {start : ℕ → Bool} {pc : ℕ → Pc} (i : ℕ) (q : Pc) (h : InChain start pc)
    (going : q ≢ waiting) where
  kept : (j : ℕ) → pc j ≢ waiting → update pc i q j ≢ waiting
  kept j now = update_elim (λ r. r ≢ waiting) pc i q j (λ same. going) (λ other. now)

  pub moved-InChain : pc i ≢ waiting → InChain start (update pc i q)
  moved-InChain was = record {
    starts = λ j on. kept j (h.starts j on);
    chain = λ j now. kept j (h.chain j (before (suc j) now));
  }
    where
      before : (j : ℕ) → update pc i q j ≢ waiting → pc j ≢ waiting
      before j =
          update_elim (λ r. r ≢ waiting → pc j ≢ waiting) pc i q j (λ same now. rw same was)
            (λ other now. now)

  pub woke-InChain :
      (v : Bool)
      → start i ≡ true
      → InChain (update (update start i false) (i + 1) v) (update pc i q)
  woke-InChain v on = record {
    starts = λ j.
        update_elim (λ b. b ≡ true → update pc i q j ≢ waiting) (update start i false) (i + 1) v
          (suc j) (λ same now. own j (omega arith))
          λ far.
            update_elim (λ b. b ≡ true → update pc i q j ≢ waiting) start i false (suc j)
              (λ same now. cc) (λ other now. kept j (h.starts j now));
    chain = λ j.
        update_elim (λ r. r ≢ waiting → update pc i q j ≢ waiting) pc i q (suc j)
          (λ same now. kept j (h.starts j (rw same on))) (λ other now. kept j (h.chain j now));
  }
    where
      own : (j : ℕ) → j ≡ i → update pc i q j ≢ waiting
      own j same =
          update_elim (λ r. r ≢ waiting) pc i q j (λ here. going) (λ other. absurd (other same))

module _ {start : ℕ → Bool} {pc : ℕ → Pc} (h : InChain start pc) where
  pub begun_before : (k j : ℕ) → pc (k + j) ≢ waiting → pc j ≢ waiting
  begun_before zero j now = rw zero_add at now
    where
      zero_add : 0 + j ≡ j
      zero_add = omega arith
  begun_before (suc k) j now = begun_before k j (h.chain (k + j) (rw next at now))
    where
      next : suc k + j ≡ suc (k + j)
      next = omega arith

-- The number that a worker has drawn and not yet enqueued.
abbrev pub claims : Pc → ℕ
claims (claimed u) = u
claims _ = 0

-- A worker that has not begun has drawn none.
pub claims_waiting : (q : Pc) → ((q ≢ waiting) → ⊥) → claims q ≡ 0
claims_waiting waiting h = refl
claims_waiting (claimed u) h = absurd (h (λ e. cc))
claims_waiting q h = ground arith
