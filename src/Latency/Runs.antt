-- ===== src/Latency/Runs.antt =====
-- Whole runs of `dma_lat` and `cmd_lat` over the table of addresses.
use mathlib.Core.Path.{subst}
use pciebench_nfp.Common.{
  ℕ, zero, suc, ◌+◌, ◌^◌, ◌≤◌, ◌<◌, ◌≡◌, refl, ap, ◌∙◌, arith, Bool, true, false, some, List, [],
  ◌∷◌, ◌++◌, length, done, Outcome, Bool-cases, inl, inr,
}
use pciebench_nfp.Nfp.{Chip}
use pciebench_nfp.Addresses.{Address}
use pciebench_nfp.Addresses.Linear.{IsAccepted, unit_bounds}
use pciebench_nfp.Addresses.Choice.{IsSlot}
use pciebench_nfp.Addresses.Table.{IsMapped, IsAt}
use pciebench_nfp.Addresses.Tabled.{IsOrdered, IsTabled, ordered-IsTabled}
use pciebench_nfp.Warming.Sweep.{IsAligned}
use pciebench_nfp.Latency.{
  TestParams, TestResult, Op, from_pci, to_pci, barcfg, Bus, success, Ran, max_trans, refused,
  window, prepare, dma_len, dma_ops, cmd_ops, has_flag, report, dma_lat, cmd_lat, lat_cmd_rd,
  lat_cmd_wrrd, lat_dma_rd, lat_dma_wrrd,
}
use pciebench_nfp.Latency.Descriptor.{IsSendable, dma_len_lem, pcie_addr_lem}
use pciebench_nfp.Latency.Rounds.{used, visited, trace, IsJournalled, dma_rounds_lem}
use pciebench_nfp.Latency.Bars.{IsSteered, transfers, cmd_issue, cmd_rounds_lem}

-- Checked arguments are not refused.
pub accepted : (p : TestParams) → IsAccepted (window p) → refused p ≡ false
unfolding refused
accepted p ok = ground (arith, ok.in_page, unit_bounds ok, ok.unit_fits)

pub prepare_same :
    (p : TestParams) (s : Bus)
    → ((prepare p s).test_journal ≡ s.test_journal)
      × ((prepare p s).debug_journal ≡ s.debug_journal)
unfolding prepare
prepare_same p s = ground arith

pub prepare-IsSteered :
    (c : Chip) (p : TestParams) (s : Bus) → IsSteered c s.ops → IsSteered c (prepare p s).ops
unfolding prepare
prepare-IsSteered c p s h = elim (Bool-cases (has_flag p.p0 2)) [
  | inl thrash ↦ elim (Bool-cases (has_flag p.p0 1)) [
    | inl warm ↦ rw (thrash, warm) h
    | inr cold ↦ rw (thrash, cold) h
  ]
  | inr keep ↦ elim (Bool-cases (has_flag p.p0 1)) [
    | inl warm ↦ rw (keep, warm) h
    | inr cold ↦ rw (keep, cold) h
  ]
]

-- The two tests of `dma_lat` and what a transaction of each does, the last operation first.
abbrev pub dma_test : Bool → ℕ
dma_test true = lat_dma_rd
dma_test false = lat_dma_wrrd

abbrev pub dma_issue : Bool → ℕ → ℕ → Address → List Op
dma_issue true len t a = from_pci a len ∷ []
dma_issue false len t a = from_pci a len ∷ to_pci a len ∷ []

dma_known :
    (c : Chip) (reads : Bool) (len t : ℕ) (a : Address)
    → a.addr_hi < 2 ^ 8
    → dma_ops c (dma_test reads) len a ≡ some (dma_issue reads (dma_len c len) t a)
unfolding dma_ops
dma_known c true len t a fits = rw (pcie_addr_lem a fits) refl
dma_known c false len t a fits = rw (pcie_addr_lem a fits) refl

abbrev pub cmd_test : Bool → ℕ
cmd_test true = lat_cmd_rd
cmd_test false = lat_cmd_wrrd

cmd_known :
    (reads : Bool) (len t : ℕ) (a : Address)
    → 4 ≤ len
    → len ≤ 64
    → cmd_ops (cmd_test reads) t len a ≡ done (some (cmd_issue reads len t a))
unfolding cmd_ops
cmd_known true len t a low high = ground arith
cmd_known false len t a low high = ground arith

-- What a run of a test promises: success, with `r0` the number of transactions; the bus journals of
-- so many transactions on the table's entries.
pub record IsRun (chunks : List ℕ) (p : TestParams) (s : Bus) (run : Ran) (entry : ℕ → Address)
    : Type 0 where
  pub ret : run.ret ≡ success
  pub result : (old : TestResult) → (run.result old).r0 ≡ max_trans p.p0
  pub slots : (idx : ℕ) → (lin : ℕ) × IsSlot (window p) lin × IsAt chunks lin (entry idx)
  pub latencies : length run.bus.test_journal ≡ length s.test_journal + max_trans p.p0
  pub addresses : run.bus.debug_journal ≡ visited entry (max_trans p.p0) ++ s.debug_journal

-- A run of `dma_lat` or of `cmd_lat` with all its operations.
abbrev pub DmaRuns : List ℕ → TestParams → ℕ → Bool → Bus → Outcome Ran → Type 0
DmaRuns chunks p len reads s outcome =
    (run : Ran) × (entry : ℕ → Address) × (outcome ≡ done run)
    × IsRun chunks p s run entry
    × (run.bus.ops ≡ trace entry (dma_issue reads len) (max_trans p.p0) ++ (prepare p s).ops)

abbrev pub CmdRuns : Chip → List ℕ → TestParams → Bool → Bus → Outcome Ran → Type 0
CmdRuns c chunks p reads s outcome =
    (run : Ran) × (entry : ℕ → Address) × (outcome ≡ done run)
    × IsRun chunks p s run entry
    × (transfers run.bus.ops
        ≡ trace entry (cmd_issue reads p.p1) (max_trans p.p0) ++ transfers (prepare p s).ops)
    × IsSteered c run.bus.ops

module _ (ts_lo ts_hi rand : ℕ → ℕ) (chunks : List ℕ) (fuel : ℕ) (p : TestParams)
    (ok : IsAccepted (window p)) (mapped : IsMapped chunks) (word : (n : ℕ) → rand n < 2 ^ 32)
    (ordered : IsOrdered rand (window p) fuel) where
  table : IsTabled rand chunks (window p) fuel
  table = ordered-IsTabled rand chunks (window p) fuel ok mapped word ordered

  -- The bus when the loop of a test begins.
  began : Bus → Bus
  began s = record (prepare p s) { stamps = s.stamps + 2 }

  start-IsJournalled : (s : Bus) → IsJournalled table.entry (began s) 0 (began s)
  start-IsJournalled s = record { latencies = omega arith; addresses = refl; stamped = omega arith }

  report-IsRun :
      (s s' : Bus)
      → IsJournalled table.entry (began s) (0 + max_trans p.p0) s'
      → IsRun chunks p s (report ts_lo ts_hi s.stamps (max_trans p.p0) (true, s')) table.entry
  unfolding report began
  report-IsRun s s' j =
      let (same_latencies, same_addresses) = prepare_same p s in
      let all : 0 + max_trans p.p0 ≡ max_trans p.p0 = omega arith in
      record {
        ret = refl;
        result = λ old. refl;
        slots = table.slots;
        latencies = j.latencies ∙ omega (arith, ap length same_latencies);
        addresses =
            j.addresses
            ∙ ap (λ k. visited table.entry k ++ (prepare p s).debug_journal) all
            ∙ ap (λ l. visited table.entry (max_trans p.p0) ++ l) same_addresses;
      }

  used_fits : (t : ℕ) → (used table.entry t).addr_hi < 2 ^ 8
  used_fits zero = (table.slots 0).2.hi_fits
  used_fits (suc t) = (table.slots t).2.hi_fits

  -- A run whose transfers have the length that the descriptor holds.
  pub dma_lat-Runs :
      (c : Chip) (reads : Bool) (s : Bus)
      → DmaRuns chunks p
          (dma_len c p.p1)
          reads
          s
          (dma_lat ts_lo ts_hi rand chunks fuel c p (dma_test reads) s)
  unfolding dma_lat began report
  dma_lat-Runs c reads s =
      let all : 0 + max_trans p.p0 ≡ max_trans p.p0 = omega arith in
      let (s', ended, j, o) =
        dma_rounds_lem ts_lo ts_hi table.addrs (dma_test reads) p.p1 table.entry table.found
          (dma_issue reads (dma_len c p.p1)) c
          (λ t. dma_known c reads p.p1 t (used table.entry t) (used_fits t)) (began s)
          (max_trans p.p0) 0 (began s) (start-IsJournalled s) refl in
      (
        report ts_lo ts_hi s.stamps (max_trans p.p0) (true, s'),
        table.entry,
        rw (accepted p ok, table.returns, table.found 0, ended) refl,
        report-IsRun s s' j,
        o
            ∙ ap (λ k. trace table.entry (dma_issue reads (dma_len c p.p1)) k ++ (prepare p s).ops)
                all,
      )

  pub dma_lat-IsRun :
      (c : Chip) (reads : Bool) (s : Bus)
      → IsSendable c p.p1
      → DmaRuns chunks p p.p1 reads s (dma_lat ts_lo ts_hi rand chunks fuel c p (dma_test reads) s)
  dma_lat-IsRun c reads s fits =
      subst
        (λ len.
          DmaRuns chunks p len reads s
            (dma_lat ts_lo ts_hi rand chunks fuel c p (dma_test reads) s))
        (dma_len_lem c p.p1 fits (omega (arith, ok.in_page))) (dma_lat-Runs c reads s)

  pub cmd_lat-IsRun :
      (c : Chip) (reads : Bool) (s : Bus)
      → IsAligned chunks
      → IsSteered c s.ops
      → 4 ≤ p.p1
      → p.p1 ≤ 64
      → CmdRuns c chunks p reads s (cmd_lat ts_lo ts_hi rand chunks fuel p (cmd_test reads) s)
  unfolding cmd_lat began report
  cmd_lat-IsRun c reads s aligned steered low high =
      let all : 0 + max_trans p.p0 ≡ max_trans p.p0 = omega arith in
      let s0 : Bus = record (began s) { ops = barcfg (table.entry 0) ∷ (prepare p s).ops } in
      let (s', ended, r) =
        cmd_rounds_lem c ts_lo ts_hi table.addrs chunks (cmd_test reads) p.p1 table.entry aligned
          table.found (λ i. ((table.slots i).0, (table.slots i).2)) reads
          (λ t a. cmd_known reads p.p1 t a low high) low high s0 (max_trans p.p0) 0 s0
          (record {
            journalled = record {
              latencies = omega arith;
              addresses = refl;
              stamped = omega arith;
            };
            done_so_far = refl;
            programmed = refl;
            steered = prepare-IsSteered c p s steered;
          }) in
      (
        report ts_lo ts_hi s.stamps (max_trans p.p0) (true, s'),
        table.entry,
        rw (accepted p ok, table.returns, table.found 0, ended) refl,
        report-IsRun s s' (record {
          latencies = r.journalled.latencies;
          addresses = r.journalled.addresses;
          stamped = r.journalled.stamped;
        }),
        r.done_so_far
            ∙ ap (λ k. trace table.entry (cmd_issue reads p.p1) k ++ transfers (prepare p s).ops)
                all,
        r.steered,
      )
