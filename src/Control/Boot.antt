-- ===== src/Control/Boot.antt =====
-- me/pciebench_main.c, `main` before its loop: context 0 seeds the random numbers, fills the card's
-- buffer and sets up the journals, and the other contexts become workers. Where the linker has put the
-- journals is an argument.
use native.Mathlib.Decide.{dec_lt}
use pciebench_nfp.Common.{
  ℕ, zero, suc, ◌+◌, ◌*◌, ◌/◌, ◌%◌, ◌^◌, ◌<◌, ◌≡◌, refl, arith, ap, ◌∙◌, ◌<<<◌, u64, bit_or, Bool,
  true, false, ◌==◌, if◌then◌else◌, some, List, [], ◌∷◌, get_elem?, length,
}
use pciebench_nfp.Nfp.{Chip, nfp3200, nfp6000}
use pciebench_nfp.Nfp.Journal.{RingDesc, mem_journal_setup}

-- `NFP_BUF_SZ` of me/pciebench.h, and `PCIEBENCH_JOURNAL_SZ`, which `PCIEBENCH_DBG_JOURNAL_SZ` equals.
abbrev pub nfp_buf_sz : ℕ
nfp_buf_sz = 8 * 1024

abbrev pub journal_sz : ℕ
journal_sz = 16 * 1024 * 1024

-- The word at index `i`: `i << 16` is an `int` that does not overflow, since `i` is below 1024.
unfoldable pub buf_word : ℕ → ℕ
buf_word i = bit_or (bit_or 0x0000_beef_0000_b00f (u64 (i <<< 48))) (i <<< 16)

-- The loop that fills the buffer, from index `i` on with `n` words left.
pub fill_buf : ℕ → ℕ → List ℕ
fill_buf zero i = []
fill_buf (suc n) i = buf_word i ∷ fill_buf n (i + 1)

-- `MEM_JOURNAL_CONFIGURE`, which does nothing on the NFP-6000.
pub journal_configure : Chip → ℕ → ℕ → List RingDesc
journal_configure nfp3200 base entries = mem_journal_setup base (entries * 4) ∷ []
journal_configure nfp6000 base entries = []

pub record Ready : Type 0 where
  pub ctx_enables : ℕ
  pub pseudo_random_number : ℕ
  pub nfp_buf : List ℕ
  pub test_journal : List RingDesc
  pub debug_journal : List RingDesc

-- Whether a context goes on to the loop, or runs `dma_bw_worker`.
pub data Role : Type 0 where
  controls : Ready → Role
  works : Role

-- `main` of context `ctx`, from what `local_csr_ctx_enables` holds and where the journals lie.
pub boot : Chip → ℕ → ℕ → ℕ → ℕ → Role
boot c ctx enables test_base debug_base =
    if ctx == 0
    then controls (record {
      ctx_enables = bit_or enables (1 <<< 30);
      pseudo_random_number = 0xdead_beef;
      nfp_buf = fill_buf (nfp_buf_sz / 8) 0;
      test_journal = journal_configure c test_base journal_sz;
      debug_journal = journal_configure c debug_base journal_sz;
    })
    else works

-- The word at index `i` of the buffer: the index, 0xbeef, the index, 0xb00f.
abbrev fields : ℕ → ℕ
fields i = i * 2 ^ 48 + 0xbeef * 2 ^ 32 + i * 2 ^ 16 + 0xb00f

-- The words below `n` have these fields.
agree : ℕ → Bool
agree zero = true
agree (suc n) = if buf_word n == fields n then agree n else false

agree_1024 : agree 1024 ≡ true
unfolding agree buf_word
agree_1024 = refl

agree-fields : (n : ℕ) → agree n ≡ true → (i : ℕ) → i < n → buf_word i ≡ fields i
unfolding agree
agree-fields zero all i below = absurd (omega arith)
agree-fields (suc n) all i below = elim (dec_lt i n) [
  | yes lower ↦ agree-fields n (ground (arith, all)) i lower
  | no top ↦ let last : i ≡ n = omega arith in rw last (ground (arith, all))
]

get_elem?-fill_buf : (n i j : ℕ) → j < n → get_elem? (fill_buf n i) j ≡ some (buf_word (i + j))
unfolding fill_buf
get_elem?-fill_buf zero i j h = absurd (omega arith)
get_elem?-fill_buf (suc n) i zero h = ap (λ (k : ℕ). some (buf_word k)) (omega arith)
get_elem?-fill_buf (suc n) i (suc j) h =
    get_elem?-fill_buf n (i + 1) j (omega arith) ∙ ap (λ (k : ℕ). some (buf_word k)) (omega arith)

length-fill_buf : (n i : ℕ) → length (fill_buf n i) ≡ n
unfolding fill_buf
length-fill_buf zero i = refl
length-fill_buf (suc n) i = omega (arith, length-fill_buf n (i + 1))

-- Context 0 goes on to the loop with a buffer of 1024 words, and each word tells its index twice, in
-- its upper 16 bits and in bits 16 to 31, between the marks 0xbeef and 0xb00f.
pub boot_pattern :
    (c : Chip) (enables test_base debug_base : ℕ)
    → (r : Ready) × (boot c 0 enables test_base debug_base ≡ controls r)
      × (length r.nfp_buf ≡ 1024)
      × ((i : ℕ)
          → i < 1024
          → (w : ℕ) × (get_elem? r.nfp_buf i ≡ some w)
            × (w / 2 ^ 48 ≡ i)
            × (w / 2 ^ 32 % 2 ^ 16 ≡ 0xbeef)
            × (w / 2 ^ 16 % 2 ^ 16 ≡ i)
            × (w % 2 ^ 16 ≡ 0xb00f))
unfolding boot
boot_pattern c enables test_base debug_base = (
  _,
  refl,
  length-fill_buf 1024 0,
  λ i below. (
    fields i,
    get_elem?-fill_buf 1024 0 i below ∙ ap some (at i below),
    omega arith,
    omega arith,
    omega arith,
    omega arith,
  ),
)
  where
    at : (i : ℕ) → i < 1024 → buf_word (0 + i) ≡ fields i
    at i below = ap buf_word (omega arith) ∙ agree-fields 1024 agree_1024 i below
