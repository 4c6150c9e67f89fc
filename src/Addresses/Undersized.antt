-- ===== src/Addresses/Undersized.antt =====
-- A window that passes the tests' checks but is smaller than one unit.
use native.Mathlib.Nat.{div-eq_of_lt}
use pciebench_nfp.Common.{
  ℕ, suc, ◌+◌, ◌-◌, ◌/◌, ◌^◌, ◌≤◌, ◌<◌, ◌≡◌, arith, List, fault, length, get_elem?-none,
}
use pciebench_nfp.Runtime.Division.Laws.{div_u32_lem, mod_u32-zero}
use pciebench_nfp.Addresses.{
  Window, Cursor, addr_array_sz, unit_sz, units_in_win, linear, candidate, pick, table_entry, fill,
  dma_addr_init,
}
use pciebench_nfp.Addresses.Linear.{unit_sz_lem, avail_lem}

module _ (w : Window) (in_page : w.trans_sz + w.h_off ≤ 4096) (not_empty : 0 < w.trans_sz)
    (undersized : w.win_sz < unit_sz w) where
  unit_bounds : (w.trans_sz + w.h_off ≤ unit_sz w) × (unit_sz w ≤ 4096)
  unit_bounds = omega (arith, unit_sz_lem w in_page)

  no_unit : units_in_win w ≡ 0
  unfolding units_in_win
  no_unit =
      rw
        (div_u32_lem w.win_sz (unit_sz w) (omega (arith, unit_bounds)) (omega (arith, unit_bounds))
          (omega arith))
        (div-eq_of_lt undersized)

  -- The remainder by zero is all ones, so the linear address wraps to just below `2 ^ 32`.
  linear_wraps : (t : ℕ) → linear w t + unit_sz w ≡ 2 ^ 32 + w.h_off
  unfolding linear
  linear_wraps t = rw (no_unit, mod_u32-zero t) (omega (arith, unit_bounds))

  first_entry_faults :
      (rand : ℕ → ℕ) (chunks : List ℕ) (fuel n idx : ℕ) (s : Cursor)
      → length chunks ≡ 16
      → fill rand chunks w (suc fuel) (suc n) idx s ≡ fault
  unfolding fill pick table_entry
  first_entry_faults rand chunks fuel n idx s count = ground (
    arith,
    unit_bounds,
    linear_wraps (candidate rand w idx s),
    avail_lem (linear w (candidate rand w idx s)),
    get_elem?-none chunks (linear w (candidate rand w idx s) / 2 ^ 22),
  )

  -- Where a transaction passes the tests' checks but the window holds no whole unit of a multiple
  -- of 64 bytes, `dma_addr_init` reads `chunk_dma_addrs` outside its 16 elements.
  pub undersized-faults :
      (rand : ℕ → ℕ) (chunks : List ℕ) (fuel : ℕ)
      → length chunks ≡ 16
      → dma_addr_init rand chunks w (suc fuel) ≡ fault
  unfolding dma_addr_init
  undersized-faults rand chunks fuel count =
      first_entry_faults rand chunks fuel (addr_array_sz - 1) 0 (record { add = 0; reads = 0 })
        count
