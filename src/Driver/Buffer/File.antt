-- ===== src/Driver/Buffer/File.antt =====
-- `npb_buf_read` and `npb_buf_write` as operations on one flat file of `max_mem` bytes.
use native.Mathlib.Decide.{dec_lt}
use pciebench_nfp.Common.{
  ℕ, ◌+◌, ◌-◌, ◌^◌, ◌≤◌, ◌<◌, min, ◌≡◌, ◌⊎◌, refl, ap, arith, u64, Bool, true, false, ltb,
  if◌then◌else◌,
}
use pciebench_nfp.Driver.Buffer.{
  Memory, Copy, Ending, moved, bad_address, wild, no_end, Result, bytes, efault, broken, max_mem,
  buf_loop, npb_buf_op, npb_buf_read, npb_buf_write, finish,
}
use pciebench_nfp.Driver.Buffer.Flat.{flat, IsCopy, Fails}
use pciebench_nfp.Driver.Buffer.Read.{IsRead, buf_loop-IsRead}
use pciebench_nfp.Driver.Buffer.Write.{IsWritten, buf_loop-IsWritten}

-- What a call at `offp` for `count` bytes may move: nothing past the end of the file.
abbrev pub amount : ℕ → ℕ → ℕ
amount count offp = min count (max_mem - offp)

-- What `npb_buf_read` promises of the memory, the new offset and the value that it returns.
abbrev pub ReadsFile : Copy → ℕ → ℕ → Memory → Memory × ℕ × Result → Type 0
ReadsFile copy count offp m (m', offp', bytes n) =
    (n ≡ amount count offp)
    × (offp' ≡ offp + n)
    × (m'.buf ≡ m.buf)
    × ((k : ℕ) → k < n → m'.user k ≡ flat m.buf (offp + k))
    × ((k : ℕ) → n ≤ k → m'.user k ≡ m.user k)
ReadsFile copy count offp m (m', offp', efault) =
    (offp' ≡ offp)
    × (m'.buf ≡ m.buf)
    × ((k : ℕ) → amount count offp ≤ k → m'.user k ≡ m.user k)
    × Fails copy
ReadsFile copy count offp m (m', offp', broken) = ⊥

-- What `npb_buf_write` promises.
abbrev pub WritesFile : Copy → ℕ → ℕ → Memory → Memory × ℕ × Result → Type 0
WritesFile copy count offp m (m', offp', bytes n) =
    (n ≡ amount count offp)
    × (offp' ≡ offp + n)
    × (m'.user ≡ m.user)
    × ((a : ℕ) → offp ≤ a → a < offp + n → flat m'.buf a ≡ m.user (a - offp))
    × ((a : ℕ) → (a < offp) ⊎ (offp + n ≤ a) → flat m'.buf a ≡ flat m.buf a)
WritesFile copy count offp m (m', offp', efault) =
    (offp' ≡ offp)
    × (m'.user ≡ m.user)
    × ((a : ℕ) → (a < offp) ⊎ (offp + amount count offp ≤ a) → flat m'.buf a ≡ flat m.buf a)
    × Fails copy
WritesFile copy count offp m (m', offp', broken) = ⊥

module _ (copy_from_user copy_to_user : Copy) where
  finish-ReadsFile :
      (count n offp : ℕ) (m : Memory) (r : Memory × Ending)
      → n ≡ amount count offp
      → IsRead copy_to_user offp n 0 m r
      → ReadsFile copy_to_user count offp m (finish copy_from_user copy_to_user offp r)
  unfolding finish
  finish-ReadsFile count n offp m (m', moved p) e (all_, same, inside, outside) = (
    omega arith,
    refl,
    same,
    λ k h. inside k (omega arith) (omega arith),
    λ k h. outside k (omega arith),
  )
  finish-ReadsFile count n offp m (m', bad_address) e (same, outside, failing) =
      (refl, same, λ k h. outside k (omega arith), failing)
  finish-ReadsFile count n offp m (m', wild) e h = h
  finish-ReadsFile count n offp m (m', no_end) e h = h

  finish-WritesFile :
      (count n offp : ℕ) (m : Memory) (r : Memory × Ending)
      → n ≡ amount count offp
      → IsWritten copy_from_user offp n 0 m r
      → WritesFile copy_from_user count offp m (finish copy_from_user copy_to_user offp r)
  unfolding finish
  finish-WritesFile count n offp m (m', moved p) e (all_, same, inside, outside) = (
    omega arith,
    refl,
    same,
    λ a h k. inside a (omega arith) (omega arith),
    λ a h. outside a (omega arith),
  )
  finish-WritesFile count n offp m (m', bad_address) e (same, outside, failing) =
      (refl, same, λ a h. outside a (omega arith), failing)
  finish-WritesFile count n offp m (m', wild) e h = h
  finish-WritesFile count n offp m (m', no_end) e h = h

  module _ (write : Bool) (count offp : ℕ) (m : Memory) where
    nothing_to_move :
        amount count offp ≡ 0
        → npb_buf_op copy_from_user copy_to_user write m count offp ≡ (m, offp, bytes 0)
    unfolding npb_buf_op
    nothing_to_move none_left = ground arith

    some_to_move :
        count < 2 ^ 63
        → 0 < amount count offp
        → npb_buf_op copy_from_user copy_to_user write m count offp
          ≡ finish copy_from_user copy_to_user offp (
              buf_loop copy_from_user copy_to_user
                (amount count offp + 1)
                write
                offp
                (amount count offp)
                0
                m)
    unfolding npb_buf_op
    some_to_move small some_left = ground (
      arith,
      ap
          (λ (n : ℕ).
            finish copy_from_user copy_to_user offp
              (buf_loop copy_from_user copy_to_user (n + 1) write offp n 0 m))
          clamp,
    )
      where
        clamp :
            (if ltb max_mem (u64 (offp + count)) then max_mem - offp else count) ≡ amount count offp
        clamp = ground arith

  -- For any offset and a count below `2 ^ 63`, `npb_buf_read` returns: either it moves as many bytes
  -- of the flat file as were asked for and are there, and advances the offset by them; or a copy
  -- failed, and it leaves the offset and all bytes outside of the range alone.
  pub npb_buf_read-ReadsFile :
      (count offp : ℕ) (m : Memory)
      → IsCopy copy_to_user
      → count < 2 ^ 63
      → ReadsFile copy_to_user count offp m (npb_buf_read copy_from_user copy_to_user m count offp)
  unfolding npb_buf_read
  npb_buf_read-ReadsFile count offp m law small = elim (dec_lt 0 (amount count offp)) [
    | yes some_left ↦ rw (some_to_move false count offp m small some_left) (
        finish-ReadsFile count (amount count offp) offp m _ refl (
          buf_loop-IsRead copy_from_user copy_to_user law offp (amount count offp) (omega arith)
            (amount count offp + 1) 0 m (omega arith) (omega arith)))
    | no none_left ↦
        rw (nothing_to_move false count offp m (omega arith))
          (omega arith, omega arith, refl, λ k h. elim h [ ], λ k h. refl)
  ]

  -- For any offset and a count below `2 ^ 63`, `npb_buf_write` returns: either the flat file holds the
  -- user's bytes in the range that was asked for and is there, and is as before elsewhere; or a copy
  -- failed.
  pub npb_buf_write-WritesFile :
      (count offp : ℕ) (m : Memory)
      → IsCopy copy_from_user
      → count < 2 ^ 63
      → WritesFile copy_from_user count offp m
          (npb_buf_write copy_from_user copy_to_user m count offp)
  unfolding npb_buf_write
  npb_buf_write-WritesFile count offp m law small = elim (dec_lt 0 (amount count offp)) [
    | yes some_left ↦ rw (some_to_move true count offp m small some_left) (
        finish-WritesFile count (amount count offp) offp m _ refl (
          buf_loop-IsWritten copy_from_user copy_to_user law offp (amount count offp) (omega arith)
            (amount count offp + 1) 0 m (omega arith) (omega arith)))
    | no none_left ↦
        rw (nothing_to_move true count offp m (omega arith))
          (omega arith, omega arith, refl, λ a h k. absurd (omega arith), λ a h. refl)
  ]
