-- ===== src/Runtime/Division/Laws.antt =====
-- The division loop computes the quotient and the remainder of 32-bit words.
use native.Mathlib.Decide.{dec_lt}
use native.Mathlib.Nat.{
  pow-suc, add-mul-div_left, add-mul-mod_self_left, mod-eq_of_lt, div-eq_of_lt,
}
use pciebench_nfp.Common.{
  ℕ, zero, suc, ◌+◌, ◌-◌, ◌*◌, ◌/◌, ◌%◌, ◌^◌, ◌≤◌, ◌<◌, ◌≡◌, refl, arith, ap, ◌∙◌, ◌==◌,
  if◌then◌else◌,
}
use pciebench_nfp.Common.Bits.{or_fields, two-pow-add}
use pciebench_nfp.Runtime.Division.{Halves, div_round, div_loop, div_mod_32, mod_u32, div_u32}

-- After some rounds: `p` counts the values of the dividend bits still in `lo`, `c` those of the
-- quotient bits already there.
record IsDividing (x y p c : ℕ) (s : Halves) : Type 0 where
  quotient : ℕ
  rest : ℕ
  whole : (quotient * y + s.hi) * p + rest ≡ x
  held : s.lo ≡ rest * c + quotient
  rest_fits : rest < p
  quotient_fits : quotient < c
  reduced : s.hi < y
  hi_fits : s.hi < c

-- One round in plain arithmetic: `b` is the bit that moves from `lo` to `hi`.
round_below :
    (y b w : ℕ) (s : Halves)
    → b < 2
    → w < 2 ^ 31
    → s.lo ≡ b * 2 ^ 31 + w
    → s.hi < 2 ^ 31
    → s.hi * 2 + b < y
    → div_round y s ≡ record { hi = s.hi * 2 + b; lo = w * 2 }
unfolding div_round
round_below y b w s bit fits e h below = ground (arith, or_fields 1 s.hi 1)

round_above :
    (y b w : ℕ) (s : Halves)
    → b < 2
    → w < 2 ^ 31
    → s.lo ≡ b * 2 ^ 31 + w
    → s.hi < 2 ^ 31
    → y ≤ s.hi * 2 + b
    → div_round y s ≡ record { hi = s.hi * 2 + b - y; lo = w * 2 + 1 }
unfolding div_round
round_above y b w s bit fits e h above = ground (arith, or_fields 1 s.hi 1, or_fields 1 w 1)

-- A round moves one dividend bit `b` out, and one quotient bit in.
module _ (x y p c b t q : ℕ) (s : Halves) (word : p * c ≡ 2 ^ 31) (bit : b < 2) (t_fits : t < p)
    (q_fits : q < c) (whole : (q * y + s.hi) * (2 * p) + (b * p + t) ≡ x)
    (held : s.lo ≡ b * 2 ^ 31 + (t * c + q)) (reduced : s.hi < y) (hi_fits : s.hi < c) where
  c_le : c ≤ 2 ^ 31
  c_le = grind arith

  low_fits : t * c + q < 2 ^ 31
  low_fits = grind arith

  cancel : y ≤ s.hi * 2 + b → s.hi * 2 + b - y + y ≡ s.hi * 2 + b
  cancel h = omega arith

  round-IsDividing : IsDividing x y p (2 * c) (div_round y s)
  round-IsDividing = elim (dec_lt (s.hi * 2 + b) y) [
    | yes below ↦
        rw (round_below y b (t * c + q) s bit low_fits held (omega (arith, c_le)) below) (record {
          quotient = 2 * q;
          rest = t;
          whole = omega arith;
          held = omega arith;
          rest_fits = t_fits;
          quotient_fits = omega arith;
          reduced = below;
          hi_fits = omega arith;
        })
    | no above ↦
        rw (round_above y b (t * c + q) s bit low_fits held (omega (arith, c_le)) (omega arith))
          (record {
            quotient = 2 * q + 1;
            rest = t;
            whole = omega (arith, ap (λ (h : ℕ). h * p) (cancel (omega arith)));
            held = omega arith;
            rest_fits = t_fits;
            quotient_fits = omega arith;
            reduced = omega arith;
            hi_fits = omega arith;
          })
  ]

div_round-IsDividing :
    (x y p c : ℕ) (s : Halves)
    → p * c ≡ 2 ^ 31
    → IsDividing x y (2 * p) c s
    → IsDividing x y p (2 * c) (div_round y s)
div_round-IsDividing x y p c s word d = elim (dec_lt d.rest p) [
  | yes low ↦
      round-IsDividing x y p c 0 d.rest d.quotient s word (omega arith) low d.quotient_fits
        (omega (arith, d.whole)) (omega (arith, d.held)) d.reduced d.hi_fits
  | no high ↦
      round-IsDividing x y p c 1 (d.rest - p) d.quotient s word (omega arith)
        (omega (arith, d.rest_fits)) d.quotient_fits (omega (arith, d.whole))
        (omega (arith, d.held, ap (λ (r : ℕ). r * c) (split high))) d.reduced d.hi_fits
]
  where
    split : ¬ (d.rest < p) → d.rest - p + p ≡ d.rest
    split h = omega arith

double : (n : ℕ) → 2 ^ suc n ≡ 2 * 2 ^ n
double n = omega (arith, pow-suc 2 n)

loop-IsDividing :
    (n m x y : ℕ) (s : Halves)
    → n + m ≡ 32
    → IsDividing x y (2 ^ n) (2 ^ m) s
    → IsDividing x y 1 (2 ^ 32) (div_loop n y s)
unfolding div_loop
loop-IsDividing zero m x y s e d = let full : m ≡ 32 = omega arith in rw full at d
loop-IsDividing (suc n) m x y s e d =
    loop-IsDividing n (suc m) x y (div_round y s) (omega arith) next
  where
    word : 2 ^ n * 2 ^ m ≡ 2 ^ 31
    word = two-pow-add n m ∙ ap (λ t. 2 ^ t) {y = 31} (omega arith)

    next : IsDividing x y (2 ^ n) (2 ^ suc m) (div_round y s)
    next = rw (double m) (div_round-IsDividing x y (2 ^ n) (2 ^ m) s word (rw (double n) at d))

done : (x y : ℕ) (s : Halves) → IsDividing x y 1 (2 ^ 32) s → (s.lo ≡ x / y) × (s.hi ≡ x % y)
done x y s d = (omega (arith, d.held, d.rest_fits, quotient_lem), omega (arith, remainder_lem))
  where
    split : s.hi + y * d.quotient ≡ x
    split = omega (arith, d.whole, d.rest_fits)

    quotient_lem : x / y ≡ d.quotient
    quotient_lem =
        rw
          (
            ← split,
            add-mul-div_left s.hi d.quotient {y = y} (omega (arith, d.reduced)),
            div-eq_of_lt d.reduced,
          )
          (omega arith)

    remainder_lem : x % y ≡ s.hi
    remainder_lem = rw (← split, add-mul-mod_self_left, mod-eq_of_lt d.reduced) refl

run-IsDividing :
    (x y : ℕ)
    → x < 2 ^ 32
    → 0 < y
    → y < 2 ^ 32
    → IsDividing x y 1 (2 ^ 32) (div_loop 32 y (record { hi = 0; lo = x }))
run-IsDividing x y h pos hy = loop-IsDividing 32 0 x y _ (omega arith) (record {
  quotient = 0;
  rest = x;
  whole = omega arith;
  held = omega arith;
  rest_fits = h;
  quotient_fits = omega arith;
  reduced = pos;
  hi_fits = omega arith;
})

-- For 32-bit words the routine returns the quotient if `mod` is zero and the remainder if not; by
-- a zero divisor it returns all ones either way.
pub div_mod_32_lem :
    (x y mod' : ℕ)
    → x < 2 ^ 32
    → y < 2 ^ 32
    → div_mod_32 x y mod' ≡ (if y == 0 then 2 ^ 32 - 1 else if mod' == 0 then x / y else x % y)
unfolding div_mod_32
div_mod_32_lem x zero mod' hx hy = refl
div_mod_32_lem x (suc y) mod' hx hy =
    ground (arith, done x (suc y) _ (run-IsDividing x (suc y) hx (omega arith) hy))

pub mod_u32_lem : (x y : ℕ) → x < 2 ^ 32 → y < 2 ^ 32 → 0 < y → mod_u32 x y ≡ x % y
unfolding mod_u32
mod_u32_lem x zero hx hy pos = elim pos [ ]
mod_u32_lem x (suc y) hx hy pos = ground (arith, div_mod_32_lem x (suc y) 1 hx hy)

pub div_u32_lem : (x y : ℕ) → x < 2 ^ 32 → y < 2 ^ 32 → 0 < y → div_u32 x y ≡ x / y
unfolding div_u32
div_u32_lem x zero hx hy pos = elim pos [ ]
div_u32_lem x (suc y) hx hy pos = ground (arith, div_mod_32_lem x (suc y) 0 hx hy)

pub mod_u32-zero : (x : ℕ) → mod_u32 x 0 ≡ 2 ^ 32 - 1
unfolding mod_u32 div_mod_32
mod_u32-zero x = refl
