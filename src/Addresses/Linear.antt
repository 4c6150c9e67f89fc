-- ===== src/Addresses/Linear.antt =====
-- The linear addresses of `dma_addr_init` in plain arithmetic, for arguments that were checked.
use native.Mathlib.Nat.{mod-lt, div-add-mod'}
use pciebench_nfp.Common.{ℕ, ◌+◌, ◌-◌, ◌*◌, ◌/◌, ◌%◌, ◌^◌, ◌≤◌, ◌<◌, ◌≡◌, ap, arith, u32}
use pciebench_nfp.Common.Bits.{and_low, and_high}
use pciebench_nfp.Runtime.Division.Laws.{mod_u32_lem, div_u32_lem}
use pciebench_nfp.Addresses.{Window, max_mem, roundup64, unit_sz, units_in_win, linear, avail}

-- What the tests check of their arguments, together with what they leave to the host: a
-- transaction is not empty, and a whole unit fits in the window.
pub record IsAccepted (w : Window) : Type 0 where
  pub in_page : w.trans_sz + w.h_off ≤ 4096
  pub not_empty : 0 < w.trans_sz
  pub unit_fits : unit_sz w ≤ w.win_sz
  pub in_memory : w.win_sz ≤ max_mem

-- `roundup64` rounds up to a multiple of 64.
pub roundup64_lem : (a : ℕ) → a + 64 ≤ 2 ^ 32 → roundup64 a ≡ (a + 63) / 64 * 64
unfolding roundup64
roundup64_lem a h =
    omega (arith, and_high 6 (u32 (a + 63)) (2 ^ 26 - 1), and_low 26 (u32 (a + 63) / 64))

pub unit_sz_lem :
    (w : Window) → w.trans_sz + w.h_off ≤ 4096 → unit_sz w ≡ (w.trans_sz + w.h_off + 63) / 64 * 64
unfolding unit_sz
unit_sz_lem w h = omega (arith, roundup64_lem (u32 (w.trans_sz + w.h_off)) (omega arith))

pub avail_lem : (lin : ℕ) → avail lin ≡ 4096 - lin % 4096
unfolding avail
avail_lem lin = omega (arith, and_low 12 lin)

module _ {w : Window} (ok : IsAccepted w) where
  open ok use {in_page, not_empty, unit_fits, in_memory}

  pub unit_bounds : (0 < unit_sz w) × (w.trans_sz + w.h_off ≤ unit_sz w) × (unit_sz w ≤ 4096)
  unit_bounds = omega (arith, unit_sz_lem w in_page)

  pub units_lem : units_in_win w ≡ w.win_sz / unit_sz w
  unfolding units_in_win
  units_lem =
      div_u32_lem w.win_sz (unit_sz w) (omega arith) (omega (arith, unit_bounds)) (unit_bounds.0)

  pub units_bounds :
      (0 < units_in_win w) × (units_in_win w * unit_sz w ≤ w.win_sz) × (units_in_win w ≤ w.win_sz)
  units_bounds = grind (
    arith,
    units_lem,
    unit_bounds,
    div-add-mod' w.win_sz (unit_sz w),
    mod-lt w.win_sz unit_bounds.0,
  )

  -- Any unit lies in the window with its transaction.
  pub unit_in_window :
      (k : ℕ) → k < units_in_win w → k * unit_sz w + w.h_off + w.trans_sz ≤ w.win_sz
  unit_in_window k h = grind (arith, unit_bounds, units_bounds)

  pub linear_lem : (t : ℕ) → t < 2 ^ 32 → linear w t ≡ t % units_in_win w * unit_sz w + w.h_off
  unfolding linear
  linear_lem t h =
      rw (mod_u32_lem t (units_in_win w) h (omega (arith, units_bounds)) units_bounds.0)
        (omega (arith, unit_in_window (t % units_in_win w) (mod-lt t units_bounds.0)))

  -- A unit whose size divides the page size does not straddle pages.
  pub aligned_page :
      (k : ℕ) → 4096 % unit_sz w ≡ 0 → (k * unit_sz w + w.h_off) % 4096 + w.trans_sz ≤ 4096
  aligned_page k aligned = omega (arith, place, in_unit, below)
    where
      m : ℕ
      m = 4096 / unit_sz w

      whole : m * unit_sz w ≡ 4096
      whole = omega (arith, div-add-mod' 4096 (unit_sz w))

      below : (k % m + 1) * unit_sz w ≤ 4096
      below = grind (arith, whole, mod-lt k {m = m} (grind (arith, whole)))

      in_unit : w.trans_sz + w.h_off ≤ unit_sz w
      in_unit = unit_bounds.1

      place : k * unit_sz w ≡ k % m * unit_sz w + 4096 * (k / m)
      place = omega (
        arith,
        ap (λ (t : ℕ). t * unit_sz w) (div-add-mod' k m),
        ap (λ (t : ℕ). t * (k / m)) whole,
      )
