-- ===== src/Driver/Buffer/Read.antt =====
-- `npb_buf_read` against a flat file.
use native.Mathlib.Decide.{dec_lt}
use pciebench_nfp.Common.{
  ℕ, zero, suc, ◌+◌, ◌-◌, ◌/◌, ◌%◌, ◌≤◌, ◌<◌, ◌≡◌, ◌⊎◌, inl, inr, refl, sym, ap, ◌∙◌, arith, true,
  false, ◌==◌, Bool-cases,
}
use pciebench_nfp.Driver.Buffer.{
  Bytes, Memory, Copy, Ending, moved, bad_address, wild, no_end, chunk_sz, max_mem, piece, buf_loop,
}
use pciebench_nfp.Driver.Buffer.Loop.{piece_bounds, move_piece, buf_loop_done, buf_loop_round}
use pciebench_nfp.Driver.Buffer.Flat.{flat, IsCopy, Fails, flat_in_chunk}

module _ (copy : Copy) (offp count : ℕ) where
  -- The user's bytes from `pos` to `count` come from the file, or on a fault any of them may have
  -- changed; all else is as before.
  abbrev pub IsRead : ℕ → Memory → Memory × Ending → Type 0
  IsRead pos m (m', moved p) =
      (p ≡ count)
      × (m'.buf ≡ m.buf)
      × ((k : ℕ) → pos ≤ k → k < count → m'.user k ≡ flat m.buf (offp + k))
      × ((k : ℕ) → (k < pos) ⊎ (count ≤ k) → m'.user k ≡ m.user k)
  IsRead pos m (m', bad_address) =
      (m'.buf ≡ m.buf) × ((k : ℕ) → (k < pos) ⊎ (count ≤ k) → m'.user k ≡ m.user k) × Fails copy
  IsRead pos m (m', _) = ⊥

module _ {copy_to_user : Copy} (law : IsCopy copy_to_user) where
  -- One round: `len` bytes of a chunk, then the rest.
  module _ (offp count pos len : ℕ) (m : Memory) (fits : pos + len ≤ count)
      (in_chunk : (offp + pos) % chunk_sz + len ≤ chunk_sz) where
    abbrev copy : Bytes × ℕ
    copy = copy_to_user m.user pos (m.buf ((offp + pos) / chunk_sz)) ((offp + pos) % chunk_sz) len

    copied_here : (k : ℕ) → copy.1 ≡ 0 → pos ≤ k → k < pos + len → copy.0 k ≡ flat m.buf (offp + k)
    copied_here k clean above below =
        law.copied m.user pos _ _ len k clean above below
        ∙ sym (flat_in_chunk m.buf (offp + pos) (k - pos) (omega arith))
        ∙ ap (flat m.buf) (omega arith)

    IsRead-step :
        (r : Memory × Ending)
        → copy.1 ≡ 0
        → IsRead copy_to_user offp count (pos + len) (record m { user = copy.0 }) r
        → IsRead copy_to_user offp count pos m r
    IsRead-step (m', moved p) clean (e, same, inside, outside) = (
      e,
      same,
      λ k above below. elim (dec_lt k (pos + len)) [
        | yes here ↦ outside k (inl here) ∙ copied_here k clean above here
        | no later ↦ inside k (omega arith) below
      ],
      λ k out. outside k (omega arith) ∙ law.kept m.user pos _ _ len k (omega arith),
    )
    IsRead-step (m', bad_address) clean (same, outside, failing) = (
      same,
      λ k out. outside k (omega arith) ∙ law.kept m.user pos _ _ len k (omega arith),
      failing,
    )
    IsRead-step (m', wild) clean h = h
    IsRead-step (m', no_end) clean h = h

module _ (copy_from_user copy_to_user : Copy) (law : IsCopy copy_to_user) (offp count : ℕ)
    (in_file : offp + count ≤ max_mem) where
  module _ (pos : ℕ) (m : Memory) (more : pos < count) where
    abbrev moved_piece : Memory × ℕ
    moved_piece = move_piece copy_from_user copy_to_user false offp count pos m

    abbrev rest : ℕ → Memory × Ending
    rest fuel =
        buf_loop copy_from_user copy_to_user fuel false offp count (pos + piece offp count pos)
          moved_piece.0

    IsRead-round :
        (r : Memory × Ending)
        → (moved_piece.1 == 0) ≡ true
        → IsRead copy_to_user offp count (pos + piece offp count pos) moved_piece.0 r
        → IsRead copy_to_user offp count pos m r
    unfolding move_piece
    IsRead-round r clean =
        let (some_moved, fits, in_chunk) = piece_bounds offp count pos more in
        IsRead-step law offp count pos (piece offp count pos) m fits in_chunk r (ground arith)

    IsRead-failed :
        (moved_piece.1 == 0) ≡ false
        → IsRead copy_to_user offp count pos m (moved_piece.0, bad_address)
    unfolding move_piece
    IsRead-failed failed = (
      refl,
      λ k out.
          law.kept m.user pos _ _ (piece offp count pos) k
            (omega (arith, piece_bounds offp count pos more)),
      (
        m.user,
        pos,
        m.buf ((offp + pos) / chunk_sz),
        (offp + pos) % chunk_sz,
        piece offp count pos,
        ground arith,
      ),
    )

  -- The loop ends within a round for each byte left and one, and reads what is left.
  pub buf_loop-IsRead :
      (fuel pos : ℕ) (m : Memory)
      → pos ≤ count
      → count - pos < fuel
      → IsRead copy_to_user offp count pos m
          (buf_loop copy_from_user copy_to_user fuel false offp count pos m)
  buf_loop-IsRead zero pos m h enough = elim enough [ ]
  buf_loop-IsRead (suc fuel) pos m h enough = elim (dec_lt pos count) [
    | yes more ↦
        let (some_moved, fits, in_chunk) = piece_bounds offp count pos more in
        rw (buf_loop_round copy_from_user copy_to_user false offp count fuel pos m in_file more)
          (elim (Bool-cases
            ((move_piece copy_from_user copy_to_user false offp count pos m).1 == 0)) [
              | inl clean ↦ rw clean (
                  IsRead-round pos m more (rest pos m more fuel) clean
                    (buf_loop-IsRead fuel (pos + piece offp count pos) _ fits (omega arith)))
              | inr failed ↦ rw failed (IsRead-failed pos m more failed)
            ])
    | no end ↦
        rw (buf_loop_done copy_from_user copy_to_user false offp count fuel pos m (omega arith))
          (omega arith, refl, λ k above below. absurd (omega arith), λ k out. refl)
  ]
