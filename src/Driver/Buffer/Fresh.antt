-- ===== src/Driver/Buffer/Fresh.antt =====
-- The loop of `npb_init` that fills each chunk with a pattern, and what user space then reads.
use pciebench_nfp.Common.{
  ℕ, zero, suc, ◌+◌, ◌*◌, ◌/◌, ◌%◌, ◌^◌, ◌≤◌, ◌<◌, ◌≡◌, refl, sym, ap, ◌∙◌, arith, u32, ◌==◌,
  Bool-cases, inl, inr, if◌then◌else◌,
}
use pciebench_nfp.Driver.Buffer.{
  Bytes, Copy, Memory, update, max_mem, chunk_sz, chunks, npb_buf_read,
}
use pciebench_nfp.Driver.Buffer.Flat.{flat, IsCopy, Fails}
use pciebench_nfp.Driver.Buffer.Whole.{ReadsAll, npb_buf_read-ReadsAll}

-- Byte `i` of a 32-bit word on a little-endian host, and `tmp[j] = w`.
abbrev byte_of : ℕ → ℕ → ℕ
byte_of w i = w / 2 ^ (8 * i) % 2 ^ 8

store_word : Bytes → ℕ → ℕ → Bytes
store_word b j w k = if k / 4 == j then byte_of w (k % 4) else b k

fill_word : ℕ → ℕ
fill_word j = u32 (0xc0de0000 + j)

-- The inner loop from `j` on, with `n` words left.
fill_words : ℕ → ℕ → Bytes → Bytes
fill_words zero j tmp = tmp
fill_words (suc n) j tmp = fill_words n (j + 1) (store_word tmp j (fill_word j))

-- The same for the chunks from `i` on.
fill_chunks : ℕ → ℕ → (ℕ → Bytes) → ℕ → Bytes
fill_chunks zero i buf = buf
fill_chunks (suc n) i buf =
    fill_chunks n (i + 1) (update buf i (fill_words (chunk_sz / 4) 0 (buf i)))

fill_words_before : (n j : ℕ) (tmp : Bytes) (k : ℕ) → k / 4 < j → fill_words n j tmp k ≡ tmp k
unfolding fill_words store_word
fill_words_before zero j tmp k h = refl
fill_words_before (suc n) j tmp k h = fill_words_before n (j + 1) _ k (omega arith) ∙ ground arith

fill_words_lem :
    (n j : ℕ) (tmp : Bytes) (k : ℕ)
    → j ≤ k / 4
    → k / 4 < j + n
    → fill_words n j tmp k ≡ byte_of (fill_word (k / 4)) (k % 4)
unfolding fill_words store_word
fill_words_lem zero j tmp k above below = absurd (omega arith)
fill_words_lem (suc n) j tmp k above below = elim (Bool-cases (k / 4 == j)) [
  | inl now ↦
      let same : k / 4 ≡ j = ground (arith, now) in
      fill_words_before n (j + 1) _ k (omega (arith, same))
      ∙ rw now (ap (λ (i : ℕ). byte_of (fill_word i) (k % 4)) (sym same))
  | inr later ↦ fill_words_lem n (j + 1) _ k (ground (arith, later)) (omega arith)
]

fill_chunks_before :
    (n i : ℕ) (buf : ℕ → Bytes) (c o : ℕ) → c < i → fill_chunks n i buf c o ≡ buf c o
unfolding fill_chunks
fill_chunks_before zero i buf c o h = refl
fill_chunks_before (suc n) i buf c o h =
    fill_chunks_before n (i + 1) _ c o (omega arith) ∙ ground arith

fill_chunks_lem :
    (n i : ℕ) (buf : ℕ → Bytes) (c o : ℕ)
    → i ≤ c
    → c < i + n
    → o < chunk_sz
    → fill_chunks n i buf c o ≡ byte_of (fill_word (o / 4)) (o % 4)
unfolding fill_chunks
fill_chunks_lem zero i buf c o above below inside = absurd (omega arith)
fill_chunks_lem (suc n) i buf c o above below inside = elim (Bool-cases (c == i)) [
  | inl now ↦
      let same : c ≡ i = ground (arith, now) in
      fill_chunks_before n (i + 1) _ c o (omega (arith, same))
      ∙ rw now (fill_words_lem (chunk_sz / 4) 0 (buf i) o (omega arith) (omega arith))
  | inr later ↦ fill_chunks_lem n (i + 1) _ c o (ground (arith, later)) (omega arith) inside
]

-- `npb->buf` after the loop of `npb_init`, from pages with any contents.
pub fresh : (ℕ → Bytes) → Bytes → Memory
fresh pages user = record { buf = fill_chunks chunks 0 pages; user = user }

-- Byte `a` of the file: each word of a chunk tells its index.
abbrev pub pattern_byte : ℕ → ℕ
pattern_byte a = byte_of (0xc0de0000 + a % chunk_sz / 4) (a % 4)

pattern_at :
    (pages : ℕ → Bytes) (user : Bytes) (a : ℕ)
    → a < max_mem
    → flat (fresh pages user).buf a ≡ pattern_byte a
unfolding fresh fill_word
pattern_at pages user a h =
    let low : a % chunk_sz % 4 ≡ a % 4 = omega arith in
    let exact : u32 (0xc0de0000 + a % chunk_sz / 4) ≡ 0xc0de0000 + a % chunk_sz / 4 = omega arith in
    fill_chunks_lem chunks 0 pages (a / chunk_sz) (a % chunk_sz) (omega arith) (omega arith)
      (omega arith)
    ∙ ap (byte_of (u32 (0xc0de0000 + a % chunk_sz / 4))) low
    ∙ ap (λ (w : ℕ). byte_of w (a % 4)) exact

-- With copies that never fail, a read of the file that the module has just made, at any offset and for
-- a count below `2 ^ 63`, gives the bytes of the fill pattern as far as the file goes, whatever the pages
-- held before.
pub fresh-ReadsAll :
    (copy_from_user copy_to_user : Copy)
    → IsCopy copy_to_user
    → ¬ (Fails copy_to_user)
    → (pages : ℕ → Bytes) (user : Bytes) (count offp : ℕ) → count < 2 ^ 63
    → ReadsAll pattern_byte count offp
        (npb_buf_read copy_from_user copy_to_user (fresh pages user) count offp)
fresh-ReadsAll copy_from_user copy_to_user law sound pages user count offp small =
    npb_buf_read-ReadsAll copy_from_user copy_to_user law sound pattern_byte count offp
      (fresh pages user) small (λ k h. pattern_at pages user (offp + k) (omega arith))
