-- ===== src/Latency/Bars.antt =====
-- The BAR in `cmd_lat`: each read or write of host memory goes through it to the address asked for.
use mathlib.Core.Path.{subst}
use mathlib.Core.Option.{some-injective}
use mathlib.Core.List.{append_assoc}
use pciebench_nfp.Common.{
  ℕ, zero, suc, ◌+◌, ◌*◌, ◌^◌, ◌%◌, ◌≤◌, ◌<◌, ◌≡◌, refl, ap, sym, ◌∙◌, arith, Bool, true, false,
  Option, none, some, List, [], ◌∷◌, ◌++◌, done, ◌==◌, if◌then◌else◌, Bool-cases, inl, inr,
  get_elem?,
}
use pciebench_nfp.Nfp.{Chip, nfp3200, nfp6000}
use pciebench_nfp.Nfp.C2p.{pcie_c2p_barcfg}
use pciebench_nfp.Nfp.C2p.RoundTrip.{reached, reached_lem}
use pciebench_nfp.Addresses.{Address, dma_addr_from_idx}
use pciebench_nfp.Addresses.Table.{IsAt}
use pciebench_nfp.Warming.Sweep.{IsAligned, chunk_bar, bar_in_chunk}
use pciebench_nfp.Latency.{
  Op, trash_cache, warm_cache, from_pci, to_pci, barcfg, pcie_read, pcie_write, Bus, cmd_ops,
  cmd_rounds, timed, pattern,
}
use pciebench_nfp.Latency.Rounds.{used, trace, IsJournalled, timed-IsJournalled}

-- What `pcie_c2p_barcfg` writes for an address.
abbrev pub bar_value : Chip → Address → ℕ
bar_value c a = pcie_c2p_barcfg c true a.addr_hi a.addr_lo 0

-- What the BAR holds after some operations; thrashing and warming the cache leave it unknown.
abbrev pub bar : Chip → List Op → Option ℕ
bar c [] = none
bar c (trash_cache ∷ ops) = none
bar c (warm_cache n ∷ ops) = none
bar c (barcfg a ∷ ops) = some (bar_value c a)
bar c (from_pci a n ∷ ops) = bar c ops
bar c (to_pci a n ∷ ops) = bar c ops
bar c (pcie_read a n ∷ ops) = bar c ops
bar c (pcie_write a n w ∷ ops) = bar c ops

abbrev pub linear_address : Address → ℕ
linear_address a = a.addr_hi * 2 ^ 32 + a.addr_lo

-- A transfer of `n` bytes through a BAR that holds `held` goes to the address `x`.
abbrev pub GoesTo : Chip → Option ℕ → Address → ℕ → ℕ → Type 0
GoesTo c held a n x = (v : ℕ) × (held ≡ some v) × (reached c v a.addr_hi a.addr_lo n ≡ x)

-- Each transfer goes through the BAR, as it stands at that time, to the address that was asked for.
abbrev pub IsSteered : Chip → List Op → Type 0
IsSteered c [] = Unit {0}
IsSteered c (pcie_read a n ∷ ops) = GoesTo c (bar c ops) a n (linear_address a) × IsSteered c ops
IsSteered c (pcie_write a n w ∷ ops) = GoesTo c (bar c ops) a n (linear_address a) × IsSteered c ops
IsSteered c (trash_cache ∷ ops) = IsSteered c ops
IsSteered c (warm_cache n ∷ ops) = IsSteered c ops
IsSteered c (barcfg a ∷ ops) = IsSteered c ops
IsSteered c (from_pci a n ∷ ops) = IsSteered c ops
IsSteered c (to_pci a n ∷ ops) = IsSteered c ops

-- The operations but for those on the BAR.
abbrev pub transfers : List Op → List Op
transfers [] = []
transfers (barcfg a ∷ ops) = transfers ops
transfers (trash_cache ∷ ops) = trash_cache ∷ transfers ops
transfers (warm_cache n ∷ ops) = warm_cache n ∷ transfers ops
transfers (from_pci a n ∷ ops) = from_pci a n ∷ transfers ops
transfers (to_pci a n ∷ ops) = to_pci a n ∷ transfers ops
transfers (pcie_read a n ∷ ops) = pcie_read a n ∷ transfers ops
transfers (pcie_write a n w ∷ ops) = pcie_write a n w ∷ transfers ops

-- What transaction `t` of a command test does, the last operation first.
abbrev pub cmd_issue : Bool → ℕ → ℕ → Address → List Op
cmd_issue true len t a = pcie_read a len ∷ []
cmd_issue false len t a = pcie_read a len ∷ pcie_write a len (pattern t len) ∷ []

-- A transfer through the BAR that was programmed for its address.
own_bar :
    (c : Chip) (a : Address) (n : ℕ)
    → a.addr_lo < 2 ^ 32
    → a.addr_hi < 2 ^ 8
    → 4 ≤ n
    → n ≤ 128
    → reached c (bar_value c a) a.addr_hi a.addr_lo n ≡ linear_address a
own_bar nfp3200 a n low fits s t =
    reached_lem nfp3200 a.addr_hi a.addr_lo n a.addr_hi a.addr_lo low low (omega arith)
      (omega arith) refl s t
own_bar nfp6000 a n low fits s t =
    reached_lem nfp6000 a.addr_hi a.addr_lo n a.addr_hi a.addr_lo low low (omega arith)
      (omega arith) refl s t

-- Two addresses in one chunk ask for the same value.
same_chunk :
    (c : Chip) (chunks : List ℕ) (a b : Address)
    → IsAligned chunks
    → (lin : ℕ) × IsAt chunks lin a
    → (lin : ℕ) × IsAt chunks lin b
    → a.chunk_idx ≡ b.chunk_idx
    → bar_value c a ≡ bar_value c b
same_chunk c chunks a b aligned (l, p) (m, q) same =
    let one : p.base ≡ q.base =
      some-injective _ _
        (sym p.chunk ∙ ap (get_elem? chunks) (sym p.index ∙ same ∙ q.index) ∙ q.chunk) in
    bar_in_chunk c a.addr_hi a.addr_lo p.base (l % 2 ^ 22) (aligned _ p.base p.chunk) (omega arith)
      p.lo_fits p.address
    ∙ ap (chunk_bar c) one
    ∙ sym (
        bar_in_chunk c b.addr_hi b.addr_lo q.base (m % 2 ^ 22) (aligned _ q.base q.chunk)
          (omega arith) q.lo_fits q.address)

module _ (c : Chip) (ts_lo ts_hi : ℕ → ℕ) (addrs chunks : List ℕ) (test len : ℕ)
    (entry : ℕ → Address) (aligned : IsAligned chunks)
    (found : (idx : ℕ) → dma_addr_from_idx addrs idx ≡ done (entry idx))
    (served : (idx : ℕ) → (lin : ℕ) × IsAt chunks lin (entry idx)) (reads : Bool)
    (known : (t : ℕ) (a : Address) → cmd_ops test t len a ≡ done (some (cmd_issue reads len t a)))
    (low : 4 ≤ len) (high : len ≤ 64) where
  -- Before transaction `t` of a run that began in `s0`.
  pub record IsReady (s0 : Bus) (t : ℕ) (s : Bus) : Type 0 where
    pub journalled : IsJournalled entry s0 t s
    pub done_so_far : transfers s.ops ≡ trace entry (cmd_issue reads len) t ++ transfers s0.ops
    pub programmed : bar c s.ops ≡ some (bar_value c (used entry t))
    pub steered : IsSteered c s.ops

  abbrev IsIssued : Bool → ℕ → List Op → Type 0
  IsIssued b t ops =
      (transfers (cmd_issue b len t (used entry t) ++ ops)
        ≡ cmd_issue b len t (used entry t) ++ transfers ops)
      × (bar c (cmd_issue b len t (used entry t) ++ ops) ≡ bar c ops)
      × IsSteered c (cmd_issue b len t (used entry t) ++ ops)

  used_served : (t : ℕ) → (lin : ℕ) × IsAt chunks lin (used entry t)
  used_served zero = served 0
  used_served (suc t) = served t

  goes :
      (t : ℕ) (ops : List Op)
      → bar c ops ≡ some (bar_value c (used entry t))
      → GoesTo c (bar c ops) (used entry t) len (linear_address (used entry t))
  goes t ops p =
      let (lin, at) = used_served t in
      (
        bar_value c (used entry t),
        p,
        own_bar c (used entry t) len at.lo_fits at.hi_fits low (omega arith),
      )

  -- The operations of a transaction find the BAR right, and leave it alone.
  issued :
      (b : Bool) (t : ℕ) (ops : List Op)
      → bar c ops ≡ some (bar_value c (used entry t))
      → IsSteered c ops
      → IsIssued b t ops
  issued true t ops p q = (refl, refl, (goes t ops p, q))
  issued false t ops p q = (refl, refl, (goes t ops p, (goes t ops p, q)))

  -- The bus after transaction `t`.
  after : ℕ → Bus → Bus
  after t s =
      let s1 = timed ts_lo ts_hi (cmd_issue reads len t (used entry t)) (used entry t) s in
      if (entry t).chunk_idx == (used entry t).chunk_idx
      then s1
      else record s1 { ops = barcfg (entry t) ∷ s1.ops }

  cmd_round :
      (n t : ℕ) (s : Bus)
      → cmd_rounds ts_lo ts_hi addrs test len (suc n) t (used entry t).chunk_idx (used entry t) s
        ≡ cmd_rounds ts_lo ts_hi addrs test len n (suc t) (entry t).chunk_idx (entry t) (after t s)
  unfolding cmd_rounds after
  cmd_round n t s = ground (arith, known t (used entry t), found t)

  after-IsReady : (s0 : Bus) (t : ℕ) (s : Bus) → IsReady s0 t s → IsReady s0 (suc t) (after t s)
  unfolding after timed
  after-IsReady s0 t s r =
      let (moved, held, right) = issued reads t s.ops r.programmed r.steered in
      let ops : List Op = cmd_issue reads len t (used entry t) in
      let j = timed-IsJournalled ts_lo ts_hi entry s0 t s ops r.journalled in
      let so_far : transfers (ops ++ s.ops)
          ≡ trace entry (cmd_issue reads len) (suc t) ++ transfers s0.ops =
        moved
        ∙ ap (λ l. ops ++ l) r.done_so_far
        ∙ sym (append_assoc ops (trace entry (cmd_issue reads len) t) (transfers s0.ops)) in
      elim (Bool-cases ((entry t).chunk_idx == (used entry t).chunk_idx)) [
        | inl same ↦ rw same (record {
          journalled = j;
          done_so_far = so_far;
          programmed =
              held
              ∙ r.programmed
              ∙ ap (λ (v : ℕ). some v)
                  (same_chunk c chunks (used entry t) (entry t) aligned (used_served t) (served t)
                    (ground (arith, same)));
          steered = right;
        })
        | inr other ↦ rw other (record {
          journalled = record {
            latencies = j.latencies;
            addresses = j.addresses;
            stamped = j.stamped;
          };
          done_so_far = so_far;
          programmed = refl;
          steered = right;
        })
      ]

  pub cmd_rounds_lem :
      (s0 : Bus) (n t : ℕ) (s : Bus)
      → IsReady s0 t s
      → (s' : Bus) × (cmd_rounds ts_lo ts_hi addrs test len n t
            (used entry t).chunk_idx
            (used entry t)
            s
          ≡ done (true, s'))
        × IsReady s0 (t + n) s'
  unfolding cmd_rounds
  cmd_rounds_lem s0 zero t s r =
      let end : t ≡ t + 0 = omega arith in (s, refl, subst (λ k. IsReady s0 k s) end r)
  cmd_rounds_lem s0 (suc n) t s r =
      let (s', ended, r') = cmd_rounds_lem s0 n (suc t) (after t s) (after-IsReady s0 t s r) in
      let total : suc t + n ≡ t + suc n = omega arith in
      (s', cmd_round n t s ∙ ended, subst (λ k. IsReady s0 k s') total r')
