-- ===== src/Warming/Ragged.antt =====
-- `host_warm_cache` on a window that does not end with a whole line.
use pciebench_nfp.Common.{
  ℕ, zero, suc, ◌+◌, ◌-◌, ◌*◌, ◌/◌, ◌%◌, ◌≤◌, ◌<◌, ◌≡◌, ◌≢◌, ap, ◌∙◌, arith, false, List, some,
  get_elem?, get_elem?_of_lt, Outcome, done, Bool, Bool-cases, ◌==◌, inl, inr,
}
use native.Mathlib.Nat.{mod-eq_of_lt, add-mod_right}
use pciebench_nfp.Nfp.{Chip}
use pciebench_nfp.Addresses.{max_mem, chunk_sz}
use pciebench_nfp.Addresses.Table.{IsMapped}
use pciebench_nfp.Warming.{HostOp, word, host_warm_cache}
use pciebench_nfp.Warming.Sweep.{IsAligned, written, host_address, get_or_of_found, place, sweep}
use pciebench_nfp.Warming.Steered.{write_region-Sweeps}
use pciebench_nfp.Warming.Warm.{place_in_order}

-- A routine ends, and one of its 64-byte writes goes through the BAR to an address in a chunk of the
-- host's from which it runs over its end.
abbrev pub Overruns : Chip → ℕ → List ℕ → Outcome (List HostOp) → Type 0
Overruns c start chunks routine =
    (ops : List HostOp) × (k : ℕ) × (a : ℕ) × (w : ℕ) × (i : ℕ) × (base : ℕ) × (routine ≡ done ops)
    × (get_elem? (written c start ops) k ≡ some (a, w))
    × (get_elem? chunks i ≡ some base)
    × (base ≤ a)
    × (a < base + chunk_sz)
    × (base + chunk_sz < a + 64)

sweep_has :
    (rand : ℕ → ℕ) (chunks : List ℕ) (win_sz pattern : ℕ) (use_rand : Bool) (n t : ℕ)
    → t < n
    → (k : ℕ) × (get_elem? (sweep rand chunks win_sz pattern use_rand n) k
        ≡ some (host_address chunks (place rand win_sz use_rand t), word pattern t))
sweep_has rand chunks win_sz pattern use_rand zero t h = elim h [ ]
sweep_has rand chunks win_sz pattern use_rand (suc n) t h = elim (Bool-cases (t == n)) [
  | inl last ↦
      let same : n ≡ t = ground (arith, last) in
      (
        0,
        ap (λ (m : ℕ). some (host_address chunks (place rand win_sz use_rand m), word pattern m))
            same,
      )
  | inr earlier ↦
      let (k, found) =
        sweep_has rand chunks win_sz pattern use_rand n t (ground (arith, earlier)) in
      (suc k, found)
]

module _ (rand : ℕ → ℕ) (chunks : List ℕ) (win_sz : ℕ) where
  -- The line of the second pass that begins in chunk 0 and not at a multiple of 64.
  crossing : ℕ
  crossing = (win_sz + chunk_sz) / 64

  place_crossing :
      win_sz % 64 ≢ 0
      → chunk_sz + 64 ≤ win_sz
      → win_sz ≤ max_mem
      → place rand win_sz false crossing ≡ chunk_sz - win_sz % 64
  unfolding crossing
  place_crossing ragged large small =
      let around : (win_sz + chunk_sz) / 64 * 64 ≡ chunk_sz - win_sz % 64 + win_sz = omega arith in
      place_in_order rand win_sz (omega arith) ((win_sz + chunk_sz) / 64) (omega arith)
      ∙ ap (λ (a : ℕ). a % win_sz) around
      ∙ add-mod_right (chunk_sz - win_sz % 64) win_sz
      ∙ mod-eq_of_lt (omega arith)

  -- For chunks that are mapped and aligned, and a window that fits in memory, does not end with a
  -- whole line, and is larger than a chunk by a line or more, whatever the BAR held before:
  -- `host_warm_cache` ends, and one of its writes runs over the end of a chunk.
  pub host_warm_cache-Overruns :
      (c : Chip) (start : ℕ)
      → IsMapped chunks
      → IsAligned chunks
      → win_sz % 64 ≢ 0
      → chunk_sz + 64 ≤ win_sz
      → win_sz ≤ max_mem
      → Overruns c start chunks (host_warm_cache rand chunks win_sz)
  unfolding host_warm_cache crossing
  host_warm_cache-Overruns c start mapped aligned ragged large small =
      let (ops, ended, swept) =
        write_region-Sweeps c start rand chunks win_sz 0xcafe0000 false mapped aligned (omega arith)
          small in
      let (k, found) =
        sweep_has rand chunks win_sz 0xcafe0000 false (2 * (win_sz / 64)) ((win_sz + chunk_sz) / 64)
          (omega arith) in
      let (base, chunk) = get_elem?_of_lt chunks 0 (omega (arith, mapped.count)) in
      let at = place_crossing ragged large small in
      let first : (chunk_sz - win_sz % 64) / chunk_sz ≡ 0 = omega arith in
      let begins : host_address chunks (chunk_sz - win_sz % 64)
          ≡ base + (chunk_sz - win_sz % 64) % chunk_sz =
        rw first (
          ap (λ b. b + (chunk_sz - win_sz % 64) % chunk_sz)
            (get_or_of_found chunks 0 base chunk)) in
      let a = base + (chunk_sz - win_sz % 64) % chunk_sz in
      (
        ops,
        k,
        a,
        word 0xcafe0000 ((win_sz + chunk_sz) / 64),
        0,
        base,
        ended,
        ap (λ l. get_elem? l k) swept
            ∙ found
            ∙ ap (λ (x : ℕ). some (x, word 0xcafe0000 ((win_sz + chunk_sz) / 64)))
                (ap (host_address chunks) at ∙ begins),
        chunk,
        omega arith,
        omega arith,
        omega arith,
      )
