-- ===== src/Driver/Buffer.antt =====
-- kernel/nfp_pciebench_main.c: reads and writes of the host buffer through procfs. The buffer is
-- 16 chunks of 4 MB, which user space sees as one file of 64 MB.
pub mod Flat
pub mod Loop
pub mod Read
pub mod Write
pub mod File
pub mod Whole
pub mod Fresh
use pciebench_nfp.Common.{
  ℕ, zero, suc, ◌+◌, ◌-◌, ◌*◌, ◌/◌, ◌%◌, u64, Bool, true, false, ltb, leb, ◌==◌, if◌then◌else◌,
  ◌&&◌,
}

-- `NFP_PCIEBENCH_MAX_MEM`, `NFP_PCIEBENCH_CHUNK_SZ`, `NFP_PCIEBENCH_CHUNKS`
abbrev pub max_mem : ℕ
max_mem = 64 * 1024 * 1024

abbrev pub chunk_sz : ℕ
chunk_sz = 4 * 1024 * 1024

abbrev pub chunks : ℕ
chunks = max_mem / chunk_sz

-- Bytes by position.
abbrev pub Bytes : Type 0
Bytes = ℕ → ℕ

-- `npb->buf`, a chunk's bytes by its index, and the bytes at the user's pointer `buf`.
pub record Memory : Type 0 where
  pub buf : ℕ → Bytes
  pub user : Bytes

-- `copy_from_user` and `copy_to_user` as functions of the destination with a position in it, the
-- source with a position in it, and a length: the new destination, and the bytes left uncopied.
abbrev pub Copy : Type 0
Copy = Bytes → ℕ → Bytes → ℕ → ℕ → Bytes × ℕ

abbrev pub update : (ℕ → Bytes) → ℕ → Bytes → ℕ → Bytes
update f i b j = if j == i then b else f j

-- How the loop of `npb_buf_op` ends: with `pos` bytes moved, by `goto err_out`, by an access
-- outside `npb->buf` or outside a chunk, or not within the fuel.
pub data Ending : Type 0 where
  moved : ℕ → Ending
  bad_address wild no_end : Ending

-- The value returned: a number of bytes, or `-EFAULT`; `broken` for what C leaves undefined.
pub data Result : Type 0 where
  bytes : ℕ → Result
  efault : Result
  broken : Result

-- How much of the bytes left, `count - pos`, lies in the chunk of position `offp + pos`.
pub piece : ℕ → ℕ → ℕ → ℕ
piece offp count pos =
    let chunk_off = (offp + pos) % chunk_sz in
    if ltb chunk_sz (chunk_off + (count - pos)) then chunk_sz - chunk_off else count - pos

module _ (copy_from_user copy_to_user : Copy) where
  pub transfer : Bool → Memory → ℕ → ℕ → ℕ → ℕ → Memory × ℕ
  transfer true m idx off pos len =
      let (b, err) = copy_from_user (m.buf idx) off m.user pos len in
      (record m { buf = update m.buf idx b }, err)
  transfer false m idx off pos len =
      let (b, err) = copy_to_user m.user pos (m.buf idx) off len in (record m { user = b }, err)

  -- The `for` loop from `pos` on. The numbers are below `2 ^ 27`, so `int` holds them.
  pub buf_loop : ℕ → Bool → ℕ → ℕ → ℕ → Memory → Memory × Ending
  buf_loop zero write offp count pos m = (m, no_end)
  buf_loop (suc fuel) write offp count pos m =
      let chunk_idx = (offp + pos) / chunk_sz in
      let chunk_off = (offp + pos) % chunk_sz in
      let len = piece offp count pos in
      let (m', err) = transfer write m chunk_idx chunk_off pos len in
      let rest = buf_loop fuel write offp count (pos + len) m' in
      let next = if err == 0 then rest else (m', bad_address) in
      if ltb pos count
      then if ltb chunk_idx chunks && leb (chunk_off + len) chunk_sz then next else (m, wild)
      else (m, moved pos)

  -- The new memory, the new `*offp` and the value returned.
  pub finish : ℕ → Memory × Ending → Memory × ℕ × Result
  finish offp (m, moved pos) = (m, offp + pos, bytes pos)
  finish offp (m, bad_address) = (m, offp, efault)
  finish offp (m, wild) = (m, offp, broken)
  finish offp (m, no_end) = (m, offp, broken)

  unfoldable pub npb_buf_op : Bool → Memory → ℕ → ℕ → Memory × ℕ × Result
  npb_buf_op write m count offp =
      let count' = if ltb max_mem (u64 (offp + count)) then max_mem - offp else count in
      if count == 0
      then (m, offp, bytes 0)
      else if leb max_mem offp
      then (m, offp, bytes 0)
      else finish offp (buf_loop (count' + 1) write offp count' 0 m)

  unfoldable pub npb_buf_read : Memory → ℕ → ℕ → Memory × ℕ × Result
  npb_buf_read = npb_buf_op false

  unfoldable pub npb_buf_write : Memory → ℕ → ℕ → Memory × ℕ × Result
  npb_buf_write = npb_buf_op true
