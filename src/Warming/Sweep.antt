-- ===== src/Warming/Sweep.antt =====
-- `write_region` against a list of the lines that it should write.
use pciebench_nfp.Common.{
  ℕ, zero, suc, ◌+◌, ◌*◌, ◌/◌, ◌%◌, ◌^◌, ◌≤◌, ◌<◌, ◌≡◌, refl, arith, u32, Bool, true, if◌then◌else◌,
  some, List, [], ◌∷◌, get_elem?, get_or, done, Outcome,
}
use pciebench_nfp.Common.Bits.{and_low}
use pciebench_nfp.Nfp.{Chip, nfp3200, nfp6000}
use pciebench_nfp.Nfp.C2p.{bar_address, pcie_c2p_barcfg}
use pciebench_nfp.Nfp.C2p.RoundTrip.{reached, reached_lem}
use pciebench_nfp.Addresses.{chunk_sz}
use pciebench_nfp.Warming.{HostOp, barcfg, pcie_write, word}

-- The host's chunks begin at multiples of their size.
abbrev pub IsAligned : List ℕ → Type 0
IsAligned chunks = (i base : ℕ) → get_elem? chunks i ≡ some base → base % chunk_sz ≡ 0

-- What the BAR holds after some operations, the last one first, if it held `start` before them.
abbrev pub bar : Chip → ℕ → List HostOp → ℕ
bar c start [] = start
bar c start (barcfg hi lo ∷ ops) = pcie_c2p_barcfg c true hi lo 0
bar c start (pcie_write hi lo w ∷ ops) = bar c start ops

-- Where each write goes in the host's memory, through the BAR as it stands at that time, and its word.
abbrev pub written : Chip → ℕ → List HostOp → List (ℕ × ℕ)
written c start [] = []
written c start (barcfg hi lo ∷ ops) = written c start ops
written c start (pcie_write hi lo w ∷ ops) =
    (reached c (bar c start ops) hi lo 64, w) ∷ written c start ops

-- A routine ends, and its writes go to these addresses with these words, the last one first.
abbrev pub Sweeps : Chip → ℕ → Outcome (List HostOp) → List (ℕ × ℕ) → Type 0
Sweeps c start routine writes =
    (ops : List HostOp) × (routine ≡ done ops) × (written c start ops ≡ writes)

-- Where a linear address is in host memory.
abbrev pub host_address : List ℕ → ℕ → ℕ
host_address chunks lin = get_or chunks (lin / chunk_sz) 0 + lin % chunk_sz

pub get_or_of_found : (xs : List ℕ) (i base : ℕ) → get_elem? xs i ≡ some base → get_or xs i 0 ≡ base
get_or_of_found [] i base h = cc
get_or_of_found (x ∷ xs) zero base h = cc
get_or_of_found (x ∷ xs) (suc i) base h = get_or_of_found xs i base h

-- The BAR's value is the same all over a chunk.
pub chunk_bar : Chip → ℕ → ℕ
chunk_bar nfp3200 base = base / 2 ^ 29 % 2 ^ 19
chunk_bar nfp6000 base = base / 2 ^ 35 % 2 ^ 21

pub bar_in_chunk :
    (c : Chip) (hi lo base off : ℕ)
    → base % chunk_sz ≡ 0
    → off < chunk_sz
    → lo < 2 ^ 32
    → hi * 2 ^ 32 + lo ≡ base + off
    → pcie_c2p_barcfg c true hi lo 0 ≡ chunk_bar c base
unfolding pcie_c2p_barcfg bar_address chunk_bar
bar_in_chunk nfp3200 hi lo base off aligned in_chunk low at =
    ground (arith, and_low 19 (u32 ((hi * 2 ^ 32 + lo) / 2 ^ 29)))
bar_in_chunk nfp6000 hi lo base off aligned in_chunk low at =
    ground (arith, and_low 21 (hi / 2 ^ 3))

-- A write through it goes where it should, all over the chunk.
pub reached_in_chunk :
    (c : Chip) (hi lo base off size : ℕ)
    → base % chunk_sz ≡ 0
    → off < chunk_sz
    → lo < 2 ^ 32
    → hi * 2 ^ 32 + lo ≡ base + off
    → base + chunk_sz ≤ 2 ^ 40
    → 4 ≤ size
    → size ≤ 128
    → reached c (chunk_bar c base) hi lo size ≡ hi * 2 ^ 32 + lo
reached_in_chunk nfp3200 hi lo base off size aligned in_chunk low at fits s t =
    rw (← bar_in_chunk nfp3200 hi lo base off aligned in_chunk low at)
      (reached_lem nfp3200 hi lo size hi lo low low (omega arith) (omega arith) refl s t)
reached_in_chunk nfp6000 hi lo base off size aligned in_chunk low at fits s t =
    rw (← bar_in_chunk nfp6000 hi lo base off aligned in_chunk low at)
      (reached_lem nfp6000 hi lo size hi lo low low (omega arith) (omega arith) refl s t)

module _ (rand : ℕ → ℕ) (win_sz : ℕ) (use_rand : Bool) where
  -- The linear address of write `t`.
  abbrev pub place : ℕ → ℕ
  place zero = 0
  place (suc t) = u32 ((if use_rand then rand t else u32 (t + 1)) * 64) % win_sz

module _ (rand : ℕ → ℕ) (chunks : List ℕ) (win_sz pattern : ℕ) (use_rand : Bool) where
  -- The first writes that should be made, the last one first.
  abbrev pub sweep : ℕ → List (ℕ × ℕ)
  sweep zero = []
  sweep (suc t) = (host_address chunks (place rand win_sz use_rand t), word pattern t) ∷ sweep t
