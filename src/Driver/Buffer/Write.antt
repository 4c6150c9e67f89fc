-- ===== src/Driver/Buffer/Write.antt =====
-- `npb_buf_write` against a flat file.
use native.Mathlib.Decide.{dec_lt}
use pciebench_nfp.Common.{
  ℕ, zero, suc, ◌+◌, ◌-◌, ◌/◌, ◌%◌, ◌≤◌, ◌<◌, ◌≡◌, ◌⊎◌, inl, inr, refl, sym, ap, ◌∙◌, arith, true,
  false, ◌==◌, Bool-cases,
}
use pciebench_nfp.Driver.Buffer.{
  Bytes, Memory, Copy, Ending, moved, bad_address, wild, no_end, chunk_sz, max_mem, piece, update,
  buf_loop,
}
use pciebench_nfp.Driver.Buffer.Loop.{piece_bounds, move_piece, buf_loop_done, buf_loop_round}
use pciebench_nfp.Driver.Buffer.Flat.{flat, IsCopy, Fails}

module _ (copy : Copy) (offp count : ℕ) where
  -- The file from `offp + pos` to `offp + count` holds the user's bytes, or on a fault any of them
  -- may have changed; all else is as before.
  abbrev pub IsWritten : ℕ → Memory → Memory × Ending → Type 0
  IsWritten pos m (m', moved p) =
      (p ≡ count)
      × (m'.user ≡ m.user)
      × ((a : ℕ) → offp + pos ≤ a → a < offp + count → flat m'.buf a ≡ m.user (a - offp))
      × ((a : ℕ) → (a < offp + pos) ⊎ (offp + count ≤ a) → flat m'.buf a ≡ flat m.buf a)
  IsWritten pos m (m', bad_address) =
      (m'.user ≡ m.user)
      × ((a : ℕ) → (a < offp + pos) ⊎ (offp + count ≤ a) → flat m'.buf a ≡ flat m.buf a)
      × Fails copy
  IsWritten pos m (m', _) = ⊥

module _ {copy_from_user : Copy} (law : IsCopy copy_from_user) where
  -- One round: `len` bytes of a chunk, then the rest.
  module _ (offp count pos len : ℕ) (m : Memory) (fits : pos + len ≤ count)
      (in_chunk : (offp + pos) % chunk_sz + len ≤ chunk_sz) where
    abbrev idx : ℕ
    idx = (offp + pos) / chunk_sz

    abbrev off : ℕ
    off = (offp + pos) % chunk_sz

    abbrev copy : Bytes × ℕ
    copy = copy_from_user (m.buf idx) off m.user pos len

    copied_here :
        (a : ℕ)
        → copy.1 ≡ 0
        → offp + pos ≤ a
        → a < offp + pos + len
        → flat (update m.buf idx copy.0) a ≡ m.user (a - offp)
    copied_here a clean above below =
        let here : (a / chunk_sz == idx) ≡ true = ground arith in
        rw here (
          law.copied (m.buf idx) off m.user pos len (a % chunk_sz) clean (omega arith) (omega arith)
          ∙ ap m.user (omega arith))

    kept_elsewhere :
        (a : ℕ)
        → (a < offp + pos) ⊎ (offp + pos + len ≤ a)
        → flat (update m.buf idx copy.0) a ≡ flat m.buf a
    kept_elsewhere a out = elim (Bool-cases (a / chunk_sz == idx)) [
      | inl here ↦
          let same : a / chunk_sz ≡ idx = ground arith in
          rw here (
            law.kept (m.buf idx) off m.user pos len (a % chunk_sz) (omega arith)
            ∙ ap (λ i. m.buf i (a % chunk_sz)) (sym same))
      | inr elsewhere ↦ rw elsewhere refl
    ]

    IsWritten-step :
        (r : Memory × Ending)
        → copy.1 ≡ 0
        → IsWritten copy_from_user offp count
            (pos + len)
            (record m { buf = update m.buf idx copy.0 })
            r
        → IsWritten copy_from_user offp count pos m r
    IsWritten-step (m', moved p) clean (e, same, inside, outside) = (
      e,
      same,
      λ a above below. elim (dec_lt a (offp + pos + len)) [
        | yes here ↦ outside a (omega arith) ∙ copied_here a clean above here
        | no later ↦ inside a (omega arith) below
      ],
      λ a out. outside a (omega arith) ∙ kept_elsewhere a (omega arith),
    )
    IsWritten-step (m', bad_address) clean (same, outside, failing) =
        (same, λ a out. outside a (omega arith) ∙ kept_elsewhere a (omega arith), failing)
    IsWritten-step (m', wild) clean h = h
    IsWritten-step (m', no_end) clean h = h

module _ (copy_from_user copy_to_user : Copy) (law : IsCopy copy_from_user) (offp count : ℕ)
    (in_file : offp + count ≤ max_mem) where
  module _ (pos : ℕ) (m : Memory) (more : pos < count) where
    abbrev moved_piece : Memory × ℕ
    moved_piece = move_piece copy_from_user copy_to_user true offp count pos m

    abbrev rest : ℕ → Memory × Ending
    rest fuel =
        buf_loop copy_from_user copy_to_user fuel true offp count (pos + piece offp count pos)
          moved_piece.0

    IsWritten-round :
        (r : Memory × Ending)
        → (moved_piece.1 == 0) ≡ true
        → IsWritten copy_from_user offp count (pos + piece offp count pos) moved_piece.0 r
        → IsWritten copy_from_user offp count pos m r
    unfolding move_piece
    IsWritten-round r clean =
        let (some_moved, fits, in_chunk) = piece_bounds offp count pos more in
        IsWritten-step law offp count pos (piece offp count pos) m fits in_chunk r (ground arith)

    IsWritten-failed :
        (moved_piece.1 == 0) ≡ false
        → IsWritten copy_from_user offp count pos m (moved_piece.0, bad_address)
    unfolding move_piece
    IsWritten-failed failed =
        let (some_moved, fits, in_chunk) = piece_bounds offp count pos more in
        (
          refl,
          λ a out.
              kept_elsewhere law offp count pos (piece offp count pos) m fits in_chunk a
                (omega arith),
          (
            m.buf ((offp + pos) / chunk_sz),
            (offp + pos) % chunk_sz,
            m.user,
            pos,
            piece offp count pos,
            ground arith,
          ),
        )

  -- The loop ends within a round for each byte left and one, and writes what is left.
  pub buf_loop-IsWritten :
      (fuel pos : ℕ) (m : Memory)
      → pos ≤ count
      → count - pos < fuel
      → IsWritten copy_from_user offp count pos m
          (buf_loop copy_from_user copy_to_user fuel true offp count pos m)
  buf_loop-IsWritten zero pos m h enough = elim enough [ ]
  buf_loop-IsWritten (suc fuel) pos m h enough = elim (dec_lt pos count) [
    | yes more ↦
        let (some_moved, fits, in_chunk) = piece_bounds offp count pos more in
        rw (buf_loop_round copy_from_user copy_to_user true offp count fuel pos m in_file more)
          (elim (Bool-cases
            ((move_piece copy_from_user copy_to_user true offp count pos m).1 == 0)) [
              | inl clean ↦ rw clean (
                  IsWritten-round pos m more (rest pos m more fuel) clean
                    (buf_loop-IsWritten fuel (pos + piece offp count pos) _ fits (omega arith)))
              | inr failed ↦ rw failed (IsWritten-failed pos m more failed)
            ])
    | no end ↦
        rw (buf_loop_done copy_from_user copy_to_user true offp count fuel pos m (omega arith))
          (omega arith, refl, λ a above below. absurd (omega arith), λ a out. refl)
  ]
