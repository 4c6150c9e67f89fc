-- ===== src/Common/Bits.antt =====
-- Laws of `&` with a mask of ones and of `|` on fields that do not overlap. The native operations
-- stand for a recursion on binary digits with fuel; the first lemmas take the fuel away.
use Prim.Native.Nat.{
  ℕ, zero, suc, ◌+◌, ◌-◌, ◌*◌, ◌/◌, ◌%◌, ◌^◌, ◌≤◌, ◌<◌, min, max, digits, bit_and, bit_or,
  bit_and-bitwise, bit_or-bitwise,
}
use mathlib.Core.Path.{◌≡◌, refl, sym, ap, ◌∙◌}
use native.Mathlib.Nat.{
  pow-suc, one-le-pow, mod-lt, mod-eq_of_lt, add-mul-mod_self_left, div-add-mod, div-div-eq-div-mul,
}
use native.Mathlib.Omega.{arith}

module _ (z : ℕ → ℕ) (f : ℕ → ℕ → ℕ) where
  digits-suc : (n a b : ℕ) → a ≤ n → digits z f (suc n) a b ≡ digits z f n a b
  digits-suc zero zero b h = refl
  digits-suc zero (suc a) b h = absurd (omega arith)
  digits-suc (suc n) zero b h = refl
  digits-suc (suc n) (suc a) b h = rw (digits-suc n (suc a / 2) (b / 2) (omega arith))

  digits_surplus : (s a b : ℕ) → digits z f (s + a) a b ≡ digits z f a a b
  digits_surplus zero a b = ap (λ n. digits z f n a b) (omega arith)
  digits_surplus (suc s) a b =
      ap (λ n. digits z f n a b) {y = suc (s + a)} (omega arith)
      ∙ digits-suc (s + a) a b (omega arith)
      ∙ digits_surplus s a b

  digits_halve :
      (a b : ℕ) → digits z f a (suc a / 2) (b / 2) ≡ digits z f (suc a / 2) (suc a / 2) (b / 2)
  digits_halve a b =
      ap (λ n. digits z f n (suc a / 2) (b / 2)) (omega arith)
      ∙ digits_surplus (a - suc a / 2) (suc a / 2) (b / 2)

-- One binary digit of each operation.
and_digit : (a b : ℕ) → bit_and a b ≡ bit_and (a / 2) (b / 2) * 2 + min (a % 2) (b % 2)
and_digit zero b = simp bit_and-bitwise (omega arith)
and_digit (suc a) b = simp bit_and-bitwise (omega (arith, digits_halve (λ y. 0) min a b))

or_digit : (a b : ℕ) → bit_or a b ≡ bit_or (a / 2) (b / 2) * 2 + max (a % 2) (b % 2)
or_digit zero b = simp bit_or-bitwise (omega arith)
or_digit (suc a) b = simp bit_or-bitwise (omega (arith, digits_halve (λ y. y) max a b))

-- A number below `2 ^ k` has no digit left after `k` halvings, so these recur on `k`.
and_none : (k a : ℕ) → a < 2 ^ k → bit_and a 0 ≡ 0
and_none zero zero h = refl
and_none zero (suc a) h = absurd (omega arith)
and_none (suc k) a h = omega (arith, and_digit a 0, and_none k (a / 2) (omega (arith, pow-suc 2 k)))

or_none : (k a : ℕ) → a < 2 ^ k → bit_or a 0 ≡ a
or_none zero zero h = refl
or_none zero (suc a) h = absurd (omega arith)
or_none (suc k) a h = omega (arith, or_digit a 0, or_none k (a / 2) (omega (arith, pow-suc 2 k)))

lt_two-pow : (a : ℕ) → a < 2 ^ a
lt_two-pow zero = omega arith
lt_two-pow (suc a) = omega (arith, lt_two-pow a, pow-suc 2 a)

pub bit_and-zero : (a : ℕ) → bit_and a 0 ≡ 0
bit_and-zero a = and_none a a (lt_two-pow a)

pub bit_or-zero : (a : ℕ) → bit_or a 0 ≡ a
bit_or-zero a = or_none a a (lt_two-pow a)

pub two-pow-add : (n m : ℕ) → 2 ^ n * 2 ^ m ≡ 2 ^ (n + m)
two-pow-add zero m = omega (arith, ap (λ (t : ℕ). 2 ^ t) zero_left)
  where
    zero_left : 0 + m ≡ m
    zero_left = omega arith
two-pow-add (suc n) m = omega (
  arith,
  two-pow-add n m,
  pow-suc 2 (n + m),
  ap (λ (t : ℕ). t * 2 ^ m) (pow-suc 2 n),
  ap (λ (t : ℕ). 2 ^ t) up,
)
  where
    up : suc n + m ≡ suc (n + m)
    up = omega arith

shift_digit : (q k : ℕ) → q * 2 ^ suc k ≡ 2 * (q * 2 ^ k)
shift_digit q k = omega (arith, ap (λ (t : ℕ). q * t) (pow-suc 2 k))

-- `(q << k) | r` joins two fields, if `r` fits in `k` bits.
pub or_fields : (k q r : ℕ) → r < 2 ^ k → bit_or (q * 2 ^ k) r ≡ q * 2 ^ k + r
or_fields zero q r h = ground (arith, bit_or-zero q)
or_fields (suc k) q r h = omega (
  arith,
  or_digit (q * 2 ^ suc k) r,
  shift_digit q k,
  ap (λ (t : ℕ). bit_or t (r / 2)) half,
  or_fields k q (r / 2) (omega (arith, pow-suc 2 k)),
)
  where
    half : q * 2 ^ suc k / 2 ≡ q * 2 ^ k
    half = omega (arith, shift_digit q k)

mod_halve : (k a : ℕ) → a % 2 ^ suc k ≡ a / 2 % 2 ^ k * 2 + a % 2
mod_halve k a =
    ap (λ t. t % 2 ^ suc k) {y = low + 2 ^ suc k * (a / 2 / 2 ^ k)} split
    ∙ add-mul-mod_self_left low (2 ^ suc k) (a / 2 / 2 ^ k)
    ∙ mod-eq_of_lt (omega (arith, pow-suc 2 k, mod-lt (a / 2) (one-le-pow k 2 (omega arith))))
  where
    low : ℕ
    low = a / 2 % 2 ^ k * 2 + a % 2

    split : a ≡ low + 2 ^ suc k * (a / 2 / 2 ^ k)
    split =
        omega
          (arith, div-add-mod (a / 2) (2 ^ k), ap (λ (t : ℕ). t * (a / 2 / 2 ^ k)) (pow-suc 2 k))

-- The same with the low field first.
pub or_fields_right : (k q r : ℕ) → r < 2 ^ k → bit_or r (q * 2 ^ k) ≡ q * 2 ^ k + r
or_fields_right zero q zero h = simp bit_or-bitwise (omega arith)
or_fields_right zero q (suc r) h = absurd (omega arith)
or_fields_right (suc k) q r h = omega (
  arith,
  or_digit r (q * 2 ^ suc k),
  shift_digit q k,
  ap (λ (t : ℕ). bit_or (r / 2) t) half,
  or_fields_right k q (r / 2) (omega (arith, pow-suc 2 k)),
)
  where
    half : q * 2 ^ suc k / 2 ≡ q * 2 ^ k
    half = omega (arith, shift_digit q k)

-- `x & ((1 << k) - 1)` keeps `k` low bits.
pub and_low : (k a : ℕ) → bit_and a (2 ^ k - 1) ≡ a % 2 ^ k
and_low zero a = omega (arith, bit_and-zero a)
and_low (suc k) a = omega (
  arith,
  and_digit a (2 ^ suc k - 1),
  ap (λ (t : ℕ). bit_and (a / 2) t) half,
  and_low k (a / 2),
  mod_halve k a,
  one-le-pow k 2 (omega arith),
)
  where
    half : (2 ^ suc k - 1) / 2 ≡ 2 ^ k - 1
    half = omega (arith, pow-suc 2 k)

-- `x & (m << k)` sees only the digits from the `k`-th on.
pub and_high : (k a m : ℕ) → bit_and a (m * 2 ^ k) ≡ bit_and (a / 2 ^ k) m * 2 ^ k
and_high zero a m = ground arith
and_high (suc k) a m = omega (
  arith,
  and_digit a (m * 2 ^ suc k),
  shift_digit m k,
  shift_digit (bit_and (a / 2 ^ suc k) m) k,
  ap (λ (t : ℕ). bit_and (a / 2) t) half,
  and_high k (a / 2) m,
  ap (λ (t : ℕ). bit_and t m * 2 ^ k) quarter,
)
  where
    half : m * 2 ^ suc k / 2 ≡ m * 2 ^ k
    half = omega (arith, shift_digit m k)

    quarter : a / 2 / 2 ^ k ≡ a / 2 ^ suc k
    quarter = div-div-eq-div-mul a 2 (2 ^ k) ∙ ap (λ t. a / t) (omega (arith, pow-suc 2 k))

whole_multiple : (k x : ℕ) → x % 2 ^ k ≡ 0 → x ≡ x / 2 ^ k * 2 ^ k
whole_multiple k x h = omega (arith, div-add-mod x (2 ^ k))

-- The same where the high field is given as a multiple of `2 ^ k`.
pub or_disjoint : (k x r : ℕ) → x % 2 ^ k ≡ 0 → r < 2 ^ k → bit_or x r ≡ x + r
or_disjoint k x r multiple below =
    ap (λ t. bit_or t r) (whole_multiple k x multiple)
    ∙ or_fields k (x / 2 ^ k) r below
    ∙ ap (λ t. t + r) (sym (whole_multiple k x multiple))

pub or_disjoint_right : (k r x : ℕ) → x % 2 ^ k ≡ 0 → r < 2 ^ k → bit_or r x ≡ r + x
or_disjoint_right k r x multiple below =
    ap (λ t. bit_or r t) (whole_multiple k x multiple)
    ∙ or_fields_right k (x / 2 ^ k) r below
    ∙ omega (arith, whole_multiple k x multiple)
