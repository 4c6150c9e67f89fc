-- ===== src/Bandwidth/Census.antt =====
-- Counts over the first `n` workers, and over the log of DMAs.
use native.Mathlib.Decide.{dec_lt}
use pciebench_nfp.Common.{
  ℕ, zero, suc, ◌+◌, ◌*◌, ◌≤◌, ◌<◌, ◌≡◌, ◌≢◌, inl, inr, refl, arith, ◌==◌, if◌then◌else◌,
  Bool-cases,
}

abbrev pub update {ℓ} : {A : Type ℓ} → (ℕ → A) → ℕ → A → ℕ → A
update f i a j = if j == i then a else f j

-- What holds of the new value at `i`, and of the old ones elsewhere.
pub update_elim {ℓ κ} :
    {A : Type ℓ} (P : A → Type κ) (f : ℕ → A) (i : ℕ) (a : A) (j : ℕ)
    → (j ≡ i → P a)
    → (j ≢ i → P (f j))
    → P (update f i a j)
update_elim P f i a j same other = elim (Bool-cases (j == i)) [
  | inl e ↦ rw e (same (ground (arith, e)))
  | inr e ↦ rw e (other (ground (arith, e)))
]

module _ {ℓ} {A : Type ℓ} (weight : A → ℕ) where
  pub census : ℕ → (ℕ → A) → ℕ
  census zero f = 0
  census (suc n) f = weight (f n) + census n f

  census-update_beyond :
      (n i : ℕ) (f : ℕ → A) (a : A) → n ≤ i → census n (update f i a) ≡ census n f
  unfolding census
  census-update_beyond zero i f a h = refl
  census-update_beyond (suc n) i f a h = ground (arith, census-update_beyond n i f a (omega arith))

  -- A change at one worker moves the census by that worker's weight.
  pub census-update :
      (n i : ℕ) (f : ℕ → A) (a : A)
      → i < n
      → census n (update f i a) + weight (f i) ≡ census n f + weight a
  unfolding census
  census-update zero i f a h = elim h [ ]
  census-update (suc n) i f a h = elim (dec_lt i n) [
    | yes below ↦ ground (arith, census-update n i f a below)
    | no top ↦ ground (arith, census-update_beyond n i f a (omega arith))
  ]

  pub census_const :
      (n k : ℕ) (f : ℕ → A) → ((i : ℕ) → i < n → weight (f i) ≡ k) → census n f ≡ n * k
  unfolding census
  census_const zero k f h = omega arith
  census_const (suc n) k f h =
      omega (arith, h n (omega arith), census_const n k f (λ i below. h i (omega arith)))

-- Two weights of which at most one counts for each worker.
pub census_apart {ℓ} :
    {A : Type ℓ} (v w : A → ℕ) (n : ℕ) (f : ℕ → A)
    → ((a : A) → v a + w a ≤ 1)
    → census v n f + census w n f ≤ n
unfolding census
census_apart v w zero f apart = omega arith
census_apart v w (suc n) f apart = omega (arith, census_apart v w n f apart, apart (f n))
