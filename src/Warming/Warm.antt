-- ===== src/Warming/Warm.antt =====
-- `host_warm_cache` goes twice through the lines of its window.
use pciebench_nfp.Common.{
  ℕ, zero, suc, ◌+◌, ◌*◌, ◌/◌, ◌%◌, ◌^◌, ◌≤◌, ◌<◌, ◌≡◌, refl, ap, sym, ◌∙◌, arith, u32, false, List,
  [], ◌∷◌, ◌++◌,
}
use native.Mathlib.Nat.{mod-eq_of_lt, add-mod_right}
use pciebench_nfp.Nfp.{Chip}
use pciebench_nfp.Addresses.{max_mem}
use pciebench_nfp.Addresses.Table.{IsMapped}
use pciebench_nfp.Warming.{word, host_warm_cache}
use pciebench_nfp.Warming.Sweep.{IsAligned, Sweeps, host_address, place, sweep}
use pciebench_nfp.Warming.Steered.{write_region-Sweeps}

-- The first `k` lines of the window, written from transaction `first` on, the last one first.
abbrev pub pass : List ℕ → ℕ → ℕ → List (ℕ × ℕ)
pass chunks first zero = []
pass chunks first (suc k) =
    (host_address chunks (k * 64), word 0xcafe0000 (first + k)) ∷ pass chunks first k

module _ (rand : ℕ → ℕ) (win_sz : ℕ) (pos : 0 < win_sz) where
  pub place_in_order : (t : ℕ) → t < 2 ^ 26 → place rand win_sz false t ≡ t * 64 % win_sz
  place_in_order zero h = sym (mod-eq_of_lt pos)
  place_in_order (suc t) h =
      let exact : u32 (u32 (t + 1) * 64) ≡ suc t * 64 = omega arith in
      ap (λ (a : ℕ). a % win_sz) exact

module _ (rand : ℕ → ℕ) (chunks : List ℕ) (win_sz : ℕ) (pos : 0 < win_sz) (small : win_sz ≤ max_mem)
    (whole : win_sz % 64 ≡ 0) where
  -- Line `k` is written in both passes.
  place_first : (k : ℕ) → k < win_sz / 64 → place rand win_sz false k ≡ k * 64
  place_first k h = place_in_order rand win_sz pos k (omega arith) ∙ mod-eq_of_lt (omega arith)

  place_second : (k : ℕ) → k < win_sz / 64 → place rand win_sz false (win_sz / 64 + k) ≡ k * 64
  place_second k h =
      let around : (win_sz / 64 + k) * 64 ≡ k * 64 + win_sz = omega arith in
      place_in_order rand win_sz pos (win_sz / 64 + k) (omega arith)
      ∙ ap (λ (a : ℕ). a % win_sz) around
      ∙ add-mod_right (k * 64) win_sz
      ∙ mod-eq_of_lt (omega arith)

  sweep_first :
      (k : ℕ) → k ≤ win_sz / 64 → sweep rand chunks win_sz 0xcafe0000 false k ≡ pass chunks 0 k
  sweep_first zero h = refl
  sweep_first (suc k) h =
      let same : 0 + k ≡ k = omega arith in
      rw (place_first k h, same, sweep_first k (omega arith)) refl

  sweep_second :
      (k : ℕ)
      → k ≤ win_sz / 64
      → sweep rand chunks win_sz 0xcafe0000 false (win_sz / 64 + k)
        ≡ pass chunks (win_sz / 64) k ++ pass chunks 0 (win_sz / 64)
  sweep_second zero h =
      let all : win_sz / 64 + 0 ≡ win_sz / 64 = omega arith in
      rw all (sweep_first (win_sz / 64) (omega arith))
  sweep_second (suc k) h =
      let up : win_sz / 64 + suc k ≡ suc (win_sz / 64 + k) = omega arith in
      rw (up, place_second k h, sweep_second k (omega arith)) refl

  -- For chunks that are mapped and aligned, and a window of whole lines that fits in memory,
  -- whatever the BAR held before: `host_warm_cache` ends, and its writes go through the BAR to
  -- where the lines of the window are mapped, in order and twice.
  pub host_warm_cache-Sweeps :
      (c : Chip) (start : ℕ)
      → IsMapped chunks
      → IsAligned chunks
      → Sweeps c start
          (host_warm_cache rand chunks win_sz)
          (pass chunks (win_sz / 64) (win_sz / 64) ++ pass chunks 0 (win_sz / 64))
  unfolding host_warm_cache
  host_warm_cache-Sweeps c start mapped aligned =
      let (ops, ended, swept) =
        write_region-Sweeps c start rand chunks win_sz 0xcafe0000 false mapped aligned pos small in
      let twice : 2 * (win_sz / 64) ≡ win_sz / 64 + win_sz / 64 = omega arith in
      (
        ops,
        ended,
        swept
            ∙ ap (sweep rand chunks win_sz 0xcafe0000 false) twice
            ∙ sweep_second (win_sz / 64) (omega arith),
      )
