-- ===== src/Helper/Cache.antt =====
-- user/nfp-pciebench-helper.c: `thrash_cache` and `warm_cache`. `warm_cache` writes to the file that
-- the kernel module serves by `npb_buf_write`.
pub mod Warmed
use pciebench_nfp.Common.{
  ℕ, zero, suc, ◌+◌, ◌-◌, ◌*◌, ◌/◌, ◌%◌, ◌^◌, u32, u64, ltb, if◌then◌else◌, List, [], ◌∷◌,
}
use pciebench_nfp.Driver.Buffer.{Memory, Copy, npb_buf_write}

-- `ARRAY_SIZE(large_array)`
abbrev pub array_size : ℕ
array_size = 8 * 1024 * 1024

-- The stores of `thrash_cache` from round `i` on, with `n` rounds left: index and value. `rand i` is
-- the `i`-th random number, an `int` that is not negative.
pub thrash_from : (ℕ → ℕ) → ℕ → ℕ → List (ℕ × ℕ)
thrash_from rand zero i = []
thrash_from rand (suc n) i = (rand i % array_size, u64 (i * rand i)) ∷ thrash_from rand n (i + 1)

pub thrash_cache : (ℕ → ℕ) → List (ℕ × ℕ)
thrash_cache rand = thrash_from rand (4 * array_size) 0

-- A byte of `page`, on a little-endian machine.
abbrev pub page : ℕ → ℕ
page k = 0xf00d0001 / 2 ^ (8 * (k % 4)) % 2 ^ 8

-- How often the loop over the pages runs: `/` rounds to 0, also for a negative `win_sz`.
pub num_pages : ℕ → ℕ
num_pages win_sz =
    if ltb win_sz (2 ^ 31) then (win_sz - 1) / 4096 + 1 else 1 - (2 ^ 32 - win_sz + 1) / 4096

module _ (copy_from_user copy_to_user : Copy) where
  -- The inner loop, with `n` pages left, at the offset `off` of the file.
  pub write_pages : ℕ → ℕ → Memory → Memory
  write_pages zero off m = m
  write_pages (suc n) off m =
      let (m', off', r) = npb_buf_write copy_from_user copy_to_user m 4096 off in
      write_pages n off' m'

  -- The outer loop, with `n` rounds left.
  pub passes : ℕ → ℕ → Memory → Memory
  passes zero pages m = m
  passes (suc n) pages m = passes n pages (write_pages pages 0 m)

  pub warm_cache : ℕ → Memory → Memory
  warm_cache win_sz m = passes 4 (num_pages win_sz) (record m { user = page })
