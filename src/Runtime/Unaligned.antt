-- ===== src/Runtime/Unaligned.antt =====
-- me/libnfcc.c, `ua_set_64_dram`: a store of 64 bits at any byte of the DRAM of the NFP-3200, which the
-- hardware accesses in aligned units. `shift` is eight times the offset of the byte in its unit; the
-- four words `v` are read from the aligned address and written back there. `dbl_shr` and `dbl_shl` are
-- the compiler's shifts of two registers as one. Left out: the branch for hardware that permits
-- unaligned stores.
pub mod Store
pub mod Little
pub mod Big
use pciebench_nfp.Common.{
  ℕ, ◌+◌, ◌-◌, ◌*◌, ◌/◌, ◌%◌, ◌^◌, ◌<<<◌, ◌>>>◌, u32, bit_and, bit_or, ltb, ◌==◌, if◌then◌else◌,
}

pub record FourLong : Type 0 where
  pub a : ℕ
  pub b : ℕ
  pub c : ℕ
  pub d : ℕ

-- `shift = ((int)p & 7) << 3`
abbrev pub shift_of : ℕ → ℕ
shift_of p = bit_and p 7 <<< 3

-- With `__BIGENDIAN`.
unfoldable pub set_64_big : (ℕ → ℕ → ℕ → ℕ) → ℕ → ℕ → FourLong → FourLong
set_64_big dbl_shr shift val v =
    let a = u32 (val >>> 32) in
    let b = u32 val in
    if shift == 0
    then record v { a = a; b = b }
    else if shift == 32
    then record v { c = b; b = a }
    else if ltb shift 32
    then record v {
      c = bit_or (bit_and v.c (0xffffffff >>> shift)) (u32 (b <<< (32 - shift)));
      b = dbl_shr a b shift;
      a = bit_or (bit_and v.a (u32 (0xffffffff <<< (32 - shift)))) (a >>> shift);
    }
    else record v {
      d = bit_or (bit_and v.d (0xffffffff >>> (shift - 32))) (u32 (b <<< (64 - shift)));
      c = dbl_shr a b (shift - 32);
      b = bit_or (bit_and v.b (u32 (0xffffffff <<< (64 - shift)))) (a >>> (shift - 32));
    }

-- Without.
unfoldable pub set_64_little : (ℕ → ℕ → ℕ → ℕ) → ℕ → ℕ → FourLong → FourLong
set_64_little dbl_shl shift val v =
    let a = u32 val in
    let b = u32 (val >>> 32) in
    if shift == 0
    then record v { a = a; b = b }
    else if shift == 32
    then record v { c = b; b = a }
    else if ltb shift 32
    then record v {
      c = bit_or (bit_and v.c (u32 (0xffffffff <<< shift))) (b >>> (32 - shift));
      b = dbl_shl b a shift;
      a = bit_or (bit_and v.a (0xffffffff >>> (32 - shift))) (u32 (a <<< shift));
    }
    else record v {
      d = bit_or (bit_and v.d (u32 (0xffffffff <<< (shift - 32)))) (b >>> (64 - shift));
      c = dbl_shl b a (shift - 32);
      b = bit_or (bit_and v.b (0xffffffff >>> (64 - shift))) (u32 (a <<< (shift - 32)));
    }
