-- ===== src/Latency/Confined.antt =====
-- The memory of the host that the tests read and write.
use pciebench_nfp.Common.{
  ℕ, zero, suc, ◌/◌, ◌%◌, ◌≡◌, ap, sym, ◌∙◌, arith, Option, Bool, true, false, Bool-cases, inl, inr,
  List, [], ◌∷◌, ◌++◌,
}
use mathlib.Core.Path.{subst}
use mathlib.Core.Option.{some-injective}
use pciebench_nfp.Nfp.{Chip}
use pciebench_nfp.Nfp.C2p.RoundTrip.{reached}
use pciebench_nfp.Addresses.{Window, Address, chunk_sz}
use pciebench_nfp.Addresses.Choice.{IsSlot}
use pciebench_nfp.Addresses.Linear.{IsAccepted, unit_bounds}
use pciebench_nfp.Addresses.Table.{IsMapped, IsAt}
use pciebench_nfp.Warming.{host_trash_cache, host_warm_cache}
use pciebench_nfp.Warming.Sweep.{IsAligned}
use pciebench_nfp.Warming.Inside.{
  IsInside, StaysInside, host_trash_cache-StaysInside, host_warm_cache-StaysInside,
}
use pciebench_nfp.Latency.{
  TestParams, Op, trash_cache, warm_cache, from_pci, to_pci, barcfg, pcie_read, pcie_write, Bus,
  has_flag, window, prepare,
}
use pciebench_nfp.Latency.Rounds.{used, trace}
use pciebench_nfp.Latency.Bars.{linear_address, bar, GoesTo, IsSteered, transfers, cmd_issue}
use pciebench_nfp.Latency.Runs.{dma_issue}

-- The routines that thrash and warm the cache stay inside the chunks, for any random numbers and whatever
-- the BAR holds before.
abbrev ThrashesInside : Chip → List ℕ → Type 0
ThrashesInside c chunks =
    (start : ℕ) (rand : ℕ → ℕ) → StaysInside c start chunks (host_trash_cache rand chunks)

abbrev WarmsInside : Chip → List ℕ → ℕ → Type 0
WarmsInside c chunks n =
    (start : ℕ) (rand : ℕ → ℕ) → StaysInside c start chunks (host_warm_cache rand chunks n)

-- A transfer through a BAR that holds `held` goes to one chunk.
abbrev pub LandsInside : Chip → List ℕ → Option ℕ → Address → ℕ → Type 0
LandsInside c chunks held a n = (x : ℕ) × GoesTo c held a n x × IsInside chunks x n

-- Each access of the host's memory is inside one chunk: that of a DMA by its descriptor, that of a
-- command by where it goes through the BAR.
abbrev pub IsConfined : Chip → List ℕ → List Op → Type 0
IsConfined c chunks [] = Unit {0}
IsConfined c chunks (trash_cache ∷ ops) = ThrashesInside c chunks × IsConfined c chunks ops
IsConfined c chunks (warm_cache n ∷ ops) = WarmsInside c chunks n × IsConfined c chunks ops
IsConfined c chunks (barcfg a ∷ ops) = IsConfined c chunks ops
IsConfined c chunks (from_pci a n ∷ ops) =
    IsInside chunks (linear_address a) n × IsConfined c chunks ops
IsConfined c chunks (to_pci a n ∷ ops) =
    IsInside chunks (linear_address a) n × IsConfined c chunks ops
IsConfined c chunks (pcie_read a n ∷ ops) =
    LandsInside c chunks (bar c ops) a n × IsConfined c chunks ops
IsConfined c chunks (pcie_write a n w ∷ ops) =
    LandsInside c chunks (bar c ops) a n × IsConfined c chunks ops

-- The same by the addresses that the commands ask for.
abbrev pub IsRequested : Chip → List ℕ → List Op → Type 0
IsRequested c chunks [] = Unit {0}
IsRequested c chunks (trash_cache ∷ ops) = ThrashesInside c chunks × IsRequested c chunks ops
IsRequested c chunks (warm_cache n ∷ ops) = WarmsInside c chunks n × IsRequested c chunks ops
IsRequested c chunks (barcfg a ∷ ops) = IsRequested c chunks ops
IsRequested c chunks (from_pci a n ∷ ops) =
    IsInside chunks (linear_address a) n × IsRequested c chunks ops
IsRequested c chunks (to_pci a n ∷ ops) =
    IsInside chunks (linear_address a) n × IsRequested c chunks ops
IsRequested c chunks (pcie_read a n ∷ ops) =
    IsInside chunks (linear_address a) n × IsRequested c chunks ops
IsRequested c chunks (pcie_write a n w ∷ ops) =
    IsInside chunks (linear_address a) n × IsRequested c chunks ops

-- A transfer goes to one address only.
goes_once :
    (c : Chip) (held : Option ℕ) (a : Address) (n x y : ℕ)
    → GoesTo c held a n x
    → GoesTo c held a n y
    → x ≡ y
goes_once c held a n x y (v, p, e) (w, q, f) =
    let same : v ≡ w = some-injective v w (sym p ∙ q) in
    sym e ∙ ap (λ (u : ℕ). reached c u a.addr_hi a.addr_lo n) same ∙ f

module _ (c : Chip) (chunks : List ℕ) where
  asked-IsInside :
      (held : Option ℕ) (a : Address) (n : ℕ)
      → GoesTo c held a n (linear_address a)
      → LandsInside c chunks held a n
      → IsInside chunks (linear_address a) n
  asked-IsInside held a n right (x, goes, inside) =
      subst (λ y. IsInside chunks y n) (goes_once c held a n x (linear_address a) goes right) inside

  pub requested :
      (ops : List Op) → IsSteered c ops → IsConfined c chunks ops → IsRequested c chunks ops
  requested [] s h = h
  requested (trash_cache ∷ ops) s (h, rest) = (h, requested ops s rest)
  requested (warm_cache n ∷ ops) s (h, rest) = (h, requested ops s rest)
  requested (barcfg a ∷ ops) s h = requested ops s h
  requested (from_pci a n ∷ ops) s (h, rest) = (h, requested ops s rest)
  requested (to_pci a n ∷ ops) s (h, rest) = (h, requested ops s rest)
  requested (pcie_read a n ∷ ops) (right, s) (h, rest) =
      (asked-IsInside (bar c ops) a n right h, requested ops s rest)
  requested (pcie_write a n w ∷ ops) (right, s) (h, rest) =
      (asked-IsInside (bar c ops) a n right h, requested ops s rest)

  pub confined :
      (ops : List Op) → IsSteered c ops → IsRequested c chunks ops → IsConfined c chunks ops
  confined [] s h = h
  confined (trash_cache ∷ ops) s (h, rest) = (h, confined ops s rest)
  confined (warm_cache n ∷ ops) s (h, rest) = (h, confined ops s rest)
  confined (barcfg a ∷ ops) s h = confined ops s h
  confined (from_pci a n ∷ ops) s (h, rest) = (h, confined ops s rest)
  confined (to_pci a n ∷ ops) s (h, rest) = (h, confined ops s rest)
  confined (pcie_read a n ∷ ops) (right, s) (h, rest) =
      ((linear_address a, right, h), confined ops s rest)
  confined (pcie_write a n w ∷ ops) (right, s) (h, rest) =
      ((linear_address a, right, h), confined ops s rest)

module _ (c : Chip) (chunks : List ℕ) where
  -- A transaction on a slot of the window.
  slot-IsInside :
      (w : Window) (lin : ℕ) (a : Address)
      → IsSlot w lin
      → IsAt chunks lin a
      → IsInside chunks (linear_address a) w.trans_sz
  slot-IsInside w lin a slot at = (
    lin / chunk_sz,
    at.base,
    at.chunk,
    omega (arith, at.address),
    omega (arith, at.address, slot.in_page),
  )

  pub transfers-IsRequested :
      (ops : List Op) → IsRequested c chunks ops → IsRequested c chunks (transfers ops)
  transfers-IsRequested [] h = h
  transfers-IsRequested (trash_cache ∷ ops) (h, rest) = (h, transfers-IsRequested ops rest)
  transfers-IsRequested (warm_cache n ∷ ops) (h, rest) = (h, transfers-IsRequested ops rest)
  transfers-IsRequested (barcfg a ∷ ops) h = transfers-IsRequested ops h
  transfers-IsRequested (from_pci a n ∷ ops) (h, rest) = (h, transfers-IsRequested ops rest)
  transfers-IsRequested (to_pci a n ∷ ops) (h, rest) = (h, transfers-IsRequested ops rest)
  transfers-IsRequested (pcie_read a n ∷ ops) (h, rest) = (h, transfers-IsRequested ops rest)
  transfers-IsRequested (pcie_write a n w ∷ ops) (h, rest) = (h, transfers-IsRequested ops rest)

  pub of_transfers :
      (ops : List Op) → IsRequested c chunks (transfers ops) → IsRequested c chunks ops
  of_transfers [] h = h
  of_transfers (trash_cache ∷ ops) (h, rest) = (h, of_transfers ops rest)
  of_transfers (warm_cache n ∷ ops) (h, rest) = (h, of_transfers ops rest)
  of_transfers (barcfg a ∷ ops) h = of_transfers ops h
  of_transfers (from_pci a n ∷ ops) (h, rest) = (h, of_transfers ops rest)
  of_transfers (to_pci a n ∷ ops) (h, rest) = (h, of_transfers ops rest)
  of_transfers (pcie_read a n ∷ ops) (h, rest) = (h, of_transfers ops rest)
  of_transfers (pcie_write a n w ∷ ops) (h, rest) = (h, of_transfers ops rest)

  module _ (p : TestParams) (entry : ℕ → Address)
      (slots : (idx : ℕ) → (lin : ℕ) × IsSlot (window p) lin × IsAt chunks lin (entry idx)) where
    pub entry-IsInside : (idx : ℕ) → IsInside chunks (linear_address (entry idx)) p.p1
    entry-IsInside idx =
        let (lin, slot, at) = slots idx in slot-IsInside (window p) lin (entry idx) slot at

    used-IsInside : (t : ℕ) → IsInside chunks (linear_address (used entry t)) p.p1
    used-IsInside zero = entry-IsInside 0
    used-IsInside (suc t) = entry-IsInside t

    pub dma_trace-IsConfined :
        (reads : Bool) (t : ℕ) (ops : List Op)
        → IsConfined c chunks ops
        → IsConfined c chunks (trace entry (dma_issue reads p.p1) t ++ ops)
    dma_trace-IsConfined reads zero ops h = h
    dma_trace-IsConfined true (suc t) ops h = (used-IsInside t, dma_trace-IsConfined true t ops h)
    dma_trace-IsConfined false (suc t) ops h =
        (used-IsInside t, (used-IsInside t, dma_trace-IsConfined false t ops h))

    pub cmd_trace-IsRequested :
        (reads : Bool) (t : ℕ) (ops : List Op)
        → IsRequested c chunks ops
        → IsRequested c chunks (trace entry (cmd_issue reads p.p1) t ++ ops)
    cmd_trace-IsRequested reads zero ops h = h
    cmd_trace-IsRequested true (suc t) ops h = (used-IsInside t, cmd_trace-IsRequested true t ops h)
    cmd_trace-IsRequested false (suc t) ops h =
        (used-IsInside t, (used-IsInside t, cmd_trace-IsRequested false t ops h))

  module _ (mapped : IsMapped chunks) (aligned : IsAligned chunks) (p : TestParams)
      (ok : IsAccepted (window p)) (whole : p.p2 % 64 ≡ 0) where
    thrash_first : (b : Bus) → IsConfined c chunks b.ops → IsConfined c chunks (trash_cache ∷ b.ops)
    thrash_first b h =
        ((λ start rand. host_trash_cache-StaysInside c start rand chunks mapped aligned), h)

    warm_first :
        (ops : List Op) → IsConfined c chunks ops → IsConfined c chunks (warm_cache p.p2 ∷ ops)
    warm_first ops h = (
      (λ start rand.
          host_warm_cache-StaysInside c start rand chunks mapped aligned p.p2
            (omega (arith, unit_bounds ok, ok.unit_fits)) ok.in_memory whole),
      h,
    )

    -- Thrashing and warming stay inside the chunks too.
    pub prepare-IsConfined :
        (b : Bus) → IsConfined c chunks b.ops → IsConfined c chunks (prepare p b).ops
    unfolding prepare
    prepare-IsConfined b h = elim (Bool-cases (has_flag p.p0 2)) [
      | inl thrash ↦ elim (Bool-cases (has_flag p.p0 1)) [
        | inl warm ↦ rw (thrash, warm) (warm_first (trash_cache ∷ b.ops) (thrash_first b h))
        | inr cold ↦ rw (thrash, cold) (thrash_first b h)
      ]
      | inr keep ↦ elim (Bool-cases (has_flag p.p0 1)) [
        | inl warm ↦ rw (keep, warm) (warm_first b.ops h)
        | inr cold ↦ rw (keep, cold) h
      ]
    ]
