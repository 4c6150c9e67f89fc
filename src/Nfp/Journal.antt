-- ===== src/Nfp/Journal.antt =====
-- The journals of the NFP-3200: `mem_journal_setup` of me/libnfp.c, with the macro `__log2` of
-- me/compat.h.
pub mod Laws
pub mod Fast
use pciebench_nfp.Common.{
  ℕ, zero, suc, ◌+◌, ◌-◌, ◌*◌, ◌/◌, ◌%◌, ◌^◌, ◌<<<◌, ◌>>>◌, u32, sub32, bit_and, bit_or, Bool, leb,
  if◌then◌else◌,
}

-- The last `n` tests of `__log2`, where `ge a b` is `a >= b`; -1 as a bit pattern in the end.
pub log2_tests : (ℕ → ℕ → Bool) → ℕ → ℕ → ℕ
log2_tests ge zero val = 2 ^ 32 - 1
log2_tests ge (suc n) val = let rest = log2_tests ge n val in if ge val (1 <<< n) then n else rest

-- `__log2` on an `unsigned int`, and on an `int`, where `1 << 31` is the least `int`.
unfoldable pub log2_unsigned : ℕ → ℕ
unfolding log2_tests
log2_unsigned = log2_tests (λ a b. leb b a) 32

unfoldable pub log2_int : ℕ → ℕ
unfolding log2_tests
log2_int = log2_tests (λ a b. leb (u32 (b + 2 ^ 31)) (u32 (a + 2 ^ 31))) 32

-- `NFP_MEMRING_T2_RING_SIZE` and its siblings.
abbrev pub ring_size : ℕ → ℕ
ring_size x = bit_and x 0xf <<< 28

abbrev pub head_ptr : ℕ → ℕ
head_ptr x = bit_and x 0xffffff <<< 2

abbrev pub tail_ptr : ℕ → ℕ
tail_ptr x = bit_and x 0x3fffffff <<< 2

abbrev pub ring_type : ℕ → ℕ
ring_type x = bit_and x 0x3

abbrev pub q_page : ℕ → ℕ
q_page x = bit_and x 0x3 <<< 24

abbrev pub q_loc : ℕ → ℕ
q_loc x = bit_and x 0x3 <<< 30

abbrev pub q_count : ℕ → ℕ
q_count x = bit_and x 0xffffff

-- `desc`
pub record RingDesc : Type 0 where
  pub desc0 : ℕ
  pub desc1 : ℕ
  pub desc2 : ℕ
  pub desc3 : ℕ

unfoldable pub mem_journal_setup : ℕ → ℕ → RingDesc
mem_journal_setup base size =
    let entries = size / 4 in
    record {
      desc0 = bit_or (ring_size (sub32 (log2_unsigned entries) 9)) (head_ptr (u32 base >>> 2));
      desc1 = bit_or (tail_ptr (u32 base >>> 2)) (ring_type 2);
      desc2 = bit_or (bit_or (q_loc 0) (q_page (base >>> 32))) (q_count 0);
      desc3 = 0;
    }
