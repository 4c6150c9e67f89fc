-- ===== src/Runtime/Unaligned/Big.antt =====
-- `ua_set_64_dram` on a big-endian machine, for each of the eight offsets.
use pciebench_nfp.Common.{ℕ, zero, suc, ◌+◌, ◌-◌, ◌*◌, ◌/◌, ◌%◌, ◌^◌, ◌<◌, ◌≡◌, refl, arith, u32}
use mathlib.Core.Path.{subst}
use pciebench_nfp.Common.Bits.{and_low}
use pciebench_nfp.Runtime.Unaligned.{FourLong, shift_of, set_64_big}
use pciebench_nfp.Runtime.Unaligned.Store.{replace_low, replace_high, AreWords, big, replaced}

module _ (dbl_shr : ℕ → ℕ → ℕ → ℕ)
    (shifts : (hi lo s : ℕ) → s < 32 → dbl_shr hi lo s ≡ (hi * 2 ^ 32 + lo) / 2 ^ s % 2 ^ 32)
    (val : ℕ) (v : FourLong) (words : AreWords v) (word : val < 2 ^ 64) where
  Stores : ℕ → Type 0
  Stores shift = big (set_64_big dbl_shr shift val v) ≡ replaced (64 - shift) val (big v)

  at : (k : ℕ) → k < 8 → Stores (k * 8)
  unfolding set_64_big Stores
  at zero h = ground arith
  at (suc zero) h = ground (
    arith,
    shifts (u32 (val / 2 ^ 32)) (u32 val) 8,
    replace_high 24 v.c (u32 (u32 val * 2 ^ 24)) (omega arith) (omega arith),
    replace_low 24 8 v.a (u32 (val / 2 ^ 32) / 2 ^ 8) (2 ^ 8 - 1) refl (omega arith) (omega arith),
  )
  at (suc (suc zero)) h = ground (
    arith,
    shifts (u32 (val / 2 ^ 32)) (u32 val) 16,
    replace_high 16 v.c (u32 (u32 val * 2 ^ 16)) (omega arith) (omega arith),
    replace_low 16 16 v.a (u32 (val / 2 ^ 32) / 2 ^ 16) (2 ^ 16 - 1) refl (omega arith)
        (omega arith),
  )
  at (suc (suc (suc zero))) h = ground (
    arith,
    shifts (u32 (val / 2 ^ 32)) (u32 val) 24,
    replace_high 8 v.c (u32 (u32 val * 2 ^ 8)) (omega arith) (omega arith),
    replace_low 8 24 v.a (u32 (val / 2 ^ 32) / 2 ^ 24) (2 ^ 24 - 1) refl (omega arith)
        (omega arith),
  )
  at (suc (suc (suc (suc zero)))) h = ground arith
  at (suc (suc (suc (suc (suc zero))))) h = ground (
    arith,
    shifts (u32 (val / 2 ^ 32)) (u32 val) 8,
    replace_high 24 v.d (u32 (u32 val * 2 ^ 24)) (omega arith) (omega arith),
    replace_low 24 8 v.b (u32 (val / 2 ^ 32) / 2 ^ 8) (2 ^ 8 - 1) refl (omega arith) (omega arith),
  )
  at (suc (suc (suc (suc (suc (suc zero)))))) h = ground (
    arith,
    shifts (u32 (val / 2 ^ 32)) (u32 val) 16,
    replace_high 16 v.d (u32 (u32 val * 2 ^ 16)) (omega arith) (omega arith),
    replace_low 16 16 v.b (u32 (val / 2 ^ 32) / 2 ^ 16) (2 ^ 16 - 1) refl (omega arith)
        (omega arith),
  )
  at (suc (suc (suc (suc (suc (suc (suc zero))))))) h = ground (
    arith,
    shifts (u32 (val / 2 ^ 32)) (u32 val) 24,
    replace_high 8 v.d (u32 (u32 val * 2 ^ 8)) (omega arith) (omega arith),
    replace_low 8 24 v.b (u32 (val / 2 ^ 32) / 2 ^ 24) (2 ^ 24 - 1) refl (omega arith)
        (omega arith),
  )
  at (suc (suc (suc (suc (suc (suc (suc (suc k)))))))) h = absurd (omega arith)

  -- At any address `p`, `ua_set_64_dram` replaces the 64 bits from byte `p & 7` of the unit on by the
  -- value, and no others, on a big-endian machine.
  pub set_64_big-Stores :
      (p : ℕ) → big (set_64_big dbl_shr (shift_of p) val v) ≡ replaced (64 - shift_of p) val (big v)
  unfolding Stores
  set_64_big-Stores p =
      let byte : p % 8 * 8 ≡ shift_of p = omega (arith, and_low 3 p) in
      subst Stores byte (at (p % 8) (omega arith))
