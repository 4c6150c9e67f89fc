-- ===== src/Runtime/Unaligned/Store.antt =====
-- The parts of `ua_set_64_dram`, and what it should do.
use pciebench_nfp.Common.{ℕ, ◌+◌, ◌-◌, ◌*◌, ◌/◌, ◌%◌, ◌^◌, ◌<◌, ◌≡◌, ap, ◌∙◌, bit_and, bit_or}
use pciebench_nfp.Common.Bits.{and_low, and_high, or_fields, or_disjoint_right}
use native.Mathlib.Nat.{mod-eq_of_lt}
use pciebench_nfp.Runtime.Unaligned.{FourLong}

-- A word with its low `s` bits replaced by `x`; `m` is a mask of the `r` bits above.
pub replace_low :
    (s r v x m : ℕ)
    → m ≡ 2 ^ r - 1
    → v / 2 ^ s < 2 ^ r
    → x < 2 ^ s
    → bit_or (bit_and v (m * 2 ^ s)) x ≡ v / 2 ^ s * 2 ^ s + x
replace_low s r v x m mask fits low =
    ap (λ (t : ℕ). bit_or t x)
      (and_high s v m
        ∙ ap (λ (t : ℕ). bit_and (v / 2 ^ s) t * 2 ^ s) mask
        ∙ ap (λ (t : ℕ). t * 2 ^ s) (and_low r (v / 2 ^ s) ∙ mod-eq_of_lt fits))
    ∙ or_fields s (v / 2 ^ s) x low

-- A word with all but its low `s` bits replaced by `x`.
pub replace_high :
    (s v x : ℕ)
    → x % 2 ^ s ≡ 0
    → v % 2 ^ s < 2 ^ s
    → bit_or (bit_and v (2 ^ s - 1)) x ≡ v % 2 ^ s + x
replace_high s v x multiple low =
    ap (λ (t : ℕ). bit_or t x) (and_low s v) ∙ or_disjoint_right s (v % 2 ^ s) x multiple low

abbrev pub AreWords : FourLong → Type 0
AreWords v = (v.a < 2 ^ 32) × (v.b < 2 ^ 32) × (v.c < 2 ^ 32) × (v.d < 2 ^ 32)

-- The 128 bits as one number, by the byte order.
abbrev pub little : FourLong → ℕ
little v = v.a + v.b * 2 ^ 32 + v.c * 2 ^ 64 + v.d * 2 ^ 96

abbrev pub big : FourLong → ℕ
big v = v.a * 2 ^ 96 + v.b * 2 ^ 64 + v.c * 2 ^ 32 + v.d

-- `x` with 64 bits replaced, of which the lowest is bit `n`.
abbrev pub replaced : ℕ → ℕ → ℕ → ℕ
replaced n val x = x / 2 ^ (n + 64) * 2 ^ (n + 64) + val * 2 ^ n + x % 2 ^ n
