-- ===== src/Runtime/Division.antt =====
-- me/libnfcc.c: the shift-and-subtract division that the ME compiler calls for `/` and `%`.
pub mod Laws
use pciebench_nfp.Common.{ℕ, zero, suc, ◌-◌, ◌^◌, ◌<<<◌, u32, bit_or, ltb, leb, ◌==◌, if◌then◌else◌}

-- The locals `hi` and `lo` of `_div_mod_32`; `lo` is an `int`, kept as its bit pattern.
pub record Halves : Type 0 where
  pub hi : ℕ
  pub lo : ℕ

-- One round of the loop. `lo < 0` tests bit 31 of the pattern.
pub div_round : ℕ → Halves → Halves
div_round y s =
    let shifted = u32 (s.hi <<< 1) in
    let hi = if leb (2 ^ 31) s.lo then bit_or shifted 1 else shifted in
    let lo = u32 (s.lo <<< 1) in
    if leb y hi then record { hi = hi - y; lo = bit_or lo 1 } else record { hi = hi; lo = lo }

-- `for (i = 0; i < 32; i++)`, by the rounds left.
pub div_loop : ℕ → ℕ → Halves → Halves
div_loop zero y s = s
div_loop (suc n) y s = div_loop n y (div_round y s)

unfoldable pub div_mod_32 : ℕ → ℕ → ℕ → ℕ
unfolding div_loop div_round
div_mod_32 x y mod' =
    if y == 0
    then 0xffffffff
    else let s = div_loop 32 y (record { hi = 0; lo = x }) in if mod' == 0 then s.lo else s.hi

-- `_mod_u32` and `_div_u32`, on bit patterns.
unfoldable pub mod_u32 : ℕ → ℕ → ℕ
mod_u32 x y = div_mod_32 x y 1

unfoldable pub div_u32 : ℕ → ℕ → ℕ
div_u32 x y = div_mod_32 x y 0
