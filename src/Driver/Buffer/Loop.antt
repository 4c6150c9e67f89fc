-- ===== src/Driver/Buffer/Loop.antt =====
-- The rounds of `npb_buf_op`'s loop: each moves something, and stays in one chunk of the buffer.
use pciebench_nfp.Common.{ℕ, suc, ◌+◌, ◌/◌, ◌%◌, ◌≤◌, ◌<◌, ◌≡◌, arith, Bool, ◌==◌, if◌then◌else◌}
use pciebench_nfp.Driver.Buffer.{
  Memory, Copy, moved, bad_address, chunk_sz, max_mem, piece, transfer, buf_loop,
}

pub piece_bounds :
    (offp count pos : ℕ)
    → pos < count
    → (0 < piece offp count pos)
      × (pos + piece offp count pos ≤ count)
      × ((offp + pos) % chunk_sz + piece offp count pos ≤ chunk_sz)
unfolding piece
piece_bounds offp count pos h = ground arith

module _ (copy_from_user copy_to_user : Copy) (write : Bool) (offp count : ℕ) where
  unfoldable pub move_piece : ℕ → Memory → Memory × ℕ
  unfolding transfer
  move_piece pos m =
      transfer copy_from_user copy_to_user write m ((offp + pos) / chunk_sz)
        ((offp + pos) % chunk_sz) pos (piece offp count pos)

  pub buf_loop_done :
      (fuel pos : ℕ) (m : Memory)
      → count ≤ pos
      → buf_loop copy_from_user copy_to_user (suc fuel) write offp count pos m ≡ (m, moved pos)
  unfolding buf_loop
  buf_loop_done fuel pos m h = ground arith

  -- No access of a round is outside the buffer.
  pub buf_loop_round :
      (fuel pos : ℕ) (m : Memory)
      → offp + count ≤ max_mem
      → pos < count
      → buf_loop copy_from_user copy_to_user (suc fuel) write offp count pos m ≡ (
          if (move_piece pos m).1 == 0
          then buf_loop copy_from_user copy_to_user fuel write offp count
              (pos + piece offp count pos)
              (move_piece pos m).0
          else ((move_piece pos m).0, bad_address))
  unfolding buf_loop move_piece
  buf_loop_round fuel pos m in_file h = ground (arith, piece_bounds offp count pos h)
