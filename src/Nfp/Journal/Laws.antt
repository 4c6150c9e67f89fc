-- ===== src/Nfp/Journal/Laws.antt =====
-- What `__log2` computes, and what the descriptor of a journal holds.
use pciebench_nfp.Common.{
  ℕ, zero, suc, ◌+◌, ◌*◌, ◌/◌, ◌%◌, ◌^◌, ◌≤◌, ◌<◌, ◌≡◌, ◌<<<◌, refl, arith, u32, sub32, bit_and,
  true, leb, leb→le, Bool-cases, inl, inr,
}
use pciebench_nfp.Common.Bits.{and_low, or_disjoint, or_disjoint_right, bit_or-zero}
use native.Mathlib.Nat.{pow-le-pow_right}
use mathlib.Core.Path.{sym, subst}
use native.Mathlib.Decide.{dec_lt}
use pciebench_nfp.Nfp.Journal.{log2_tests, log2_unsigned, log2_int, RingDesc, mem_journal_setup}

log2_tests_bounds :
    (n val : ℕ)
    → 0 < val
    → val < 2 ^ n
    → (2 ^ log2_tests (λ a b. leb b a) n val ≤ val)
      × (val < 2 ^ suc (log2_tests (λ a b. leb b a) n val))
unfolding log2_tests
log2_tests_bounds zero val pos below = absurd (omega arith)
log2_tests_bounds (suc n) val pos below = elim (Bool-cases (leb (1 <<< n) val)) [
  | inl enough ↦ rw enough (omega (arith, leb→le (1 <<< n) val enough), below)
  | inr short ↦ rw short (log2_tests_bounds n val pos (ground (arith, short)))
]

-- On an `unsigned int` that is not 0, `__log2` is the binary logarithm, rounded down.
pub log2_unsigned_lem :
    (val : ℕ)
    → 0 < val
    → val < 2 ^ 32
    → (2 ^ log2_unsigned val ≤ val) × (val < 2 ^ suc (log2_unsigned val))
unfolding log2_unsigned
log2_unsigned_lem val pos below = log2_tests_bounds 32 val pos below

-- On an `int` the first test of `__log2` always succeeds, since `1 << 31` is the least `int`.
pub log2_int_lem : (val : ℕ) → log2_int val ≡ 31
unfolding log2_int log2_tests
log2_int_lem val = let least : leb 0 (u32 (val + 2 ^ 31)) ≡ true = ground arith in rw least refl

log2_range :
    (val : ℕ) → 2 ^ 9 ≤ val → val < 2 ^ 25 → (9 ≤ log2_unsigned val) × (log2_unsigned val ≤ 24)
log2_range val low high =
    let (under, over) = log2_unsigned_lem val (omega arith) (omega arith) in
    elim (dec_lt (log2_unsigned val) 9) [
      | yes less ↦ absurd (omega (arith, over, pow-le-pow_right {n = 2} (omega arith) less))
      | no enough ↦ elim (dec_lt 24 (log2_unsigned val)) [
        | yes more ↦ absurd (omega (arith, under, pow-le-pow_right {n = 2} (omega arith) more))
        | no most ↦ omega (arith, enough, most)
      ]
    ]

-- The fields of a descriptor: the order of the ring, its head, its tail with the page, and its type.
pub record Ring : Type 0 where
  pub order : ℕ
  pub head : ℕ
  pub tail : ℕ
  pub kind : ℕ

abbrev pub ring : RingDesc → Ring
ring d = record {
  order = d.desc0 / 2 ^ 28 + 9;
  head = d.desc0 % 2 ^ 28;
  tail = d.desc2 / 2 ^ 24 % 2 ^ 2 * 2 ^ 32 + d.desc1 / 2 ^ 2 * 2 ^ 2;
  kind = d.desc1 % 2 ^ 2;
}

abbrev pub IsJournal : ℕ → ℕ → Ring → Type 0
IsJournal base n r =
    (2 ^ r.order ≤ n)
    × (n < 2 ^ suc r.order)
    × (r.tail ≡ base)
    × (r.head ≡ base % 2 ^ 26)
    × (r.kind ≡ 2)

module _ (base n : ℕ) (aligned : base % 4 ≡ 0) (fits : base < 2 ^ 34) (low : 2 ^ 9 ≤ n)
    (high : n < 2 ^ 25) where
  ring_lem :
      ring (mem_journal_setup base (4 * n))
      ≡ record { order = log2_unsigned n; head = base % 2 ^ 26; tail = base; kind = 2 }
  unfolding mem_journal_setup
  ring_lem =
      let whole : 4 * n / 4 ≡ n = omega arith in
      rw whole (
        ground (
          arith,
          log2_range n low high,
          and_low 4 (sub32 (log2_unsigned n) 9),
          and_low 24 (u32 base / 4),
          and_low 30 (u32 base / 4),
          and_low 2 (base / 2 ^ 32),
          bit_or-zero (bit_and (base / 2 ^ 32) 3 * 2 ^ 24),
          or_disjoint_right 24 0 (bit_and (base / 2 ^ 32) 3 * 2 ^ 24),
          or_disjoint 28 (bit_and (sub32 (log2_unsigned n) 9) 0xf * 2 ^ 28)
              (bit_and (u32 base / 4) 0xffffff * 4),
          or_disjoint 2 (bit_and (u32 base / 4) 0x3fffffff * 4) 2,
        ))

  -- For a journal of `n` entries, `2 ^ 9` to `2 ^ 25 - 1`, at an address of whole words below `2 ^ 34`:
  -- the descriptor is of type 2 and names a ring that starts at the address, its head given by the low
  -- 26 bits, with as many entries as the greatest power of two up to `n`.
  pub mem_journal_setup-IsJournal : IsJournal base n (ring (mem_journal_setup base (4 * n)))
  mem_journal_setup-IsJournal =
      let (under, over) = log2_unsigned_lem n (omega arith) (omega arith) in
      subst (IsJournal base n) (sym ring_lem) (under, over, refl, refl, refl)
