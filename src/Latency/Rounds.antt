-- ===== src/Latency/Rounds.antt =====
-- The loops of the latency tests, over a table that has an address for every index.
use mathlib.Core.Path.{subst}
use mathlib.Core.List.{append_assoc}
use pciebench_nfp.Common.{
  ℕ, zero, suc, ◌+◌, ◌*◌, ◌≡◌, refl, ap, sym, ◌∙◌, arith, true, some, List, [], ◌∷◌, ◌++◌, length,
  done,
}
use pciebench_nfp.Nfp.{Chip}
use pciebench_nfp.Addresses.{Address, dma_addr_from_idx}
use pciebench_nfp.Latency.{Op, Bus, dma_ops, dma_rounds, timed}

-- The address of transaction `t`: the first entry serves transactions 0 and 1, and so on.
abbrev pub used : (ℕ → Address) → ℕ → Address
used entry zero = entry 0
used entry (suc t) = entry t

-- What `t` transactions leave in the debug journal, the last entry first.
abbrev pub visited : (ℕ → Address) → ℕ → List ℕ
visited entry zero = []
visited entry (suc t) = (used entry t).addr_lo ∷ (used entry t).addr_hi ∷ visited entry t

-- What `t` transactions do, the last operation first.
abbrev pub trace : (ℕ → Address) → (ℕ → Address → List Op) → ℕ → List Op
trace entry issue zero = []
trace entry issue (suc t) = issue t (used entry t) ++ trace entry issue t

-- The journals and time stamps after `t` transactions that began in `s0`.
pub record IsJournalled (entry : ℕ → Address) (s0 : Bus) (t : ℕ) (s : Bus) : Type 0 where
  pub latencies : length s.test_journal ≡ length s0.test_journal + t
  pub addresses : s.debug_journal ≡ visited entry t ++ s0.debug_journal
  pub stamped : s.stamps ≡ s0.stamps + 2 * t

pub timed-IsJournalled :
    (ts_lo ts_hi : ℕ → ℕ) (entry : ℕ → Address) (s0 : Bus) (t : ℕ) (s : Bus) (ops : List Op)
    → IsJournalled entry s0 t s
    → IsJournalled entry s0 (suc t) (timed ts_lo ts_hi ops (used entry t) s)
unfolding timed
timed-IsJournalled ts_lo ts_hi entry s0 t s ops j = record {
  latencies = omega (arith, j.latencies);
  addresses = ap (λ (l : List ℕ). (used entry t).addr_lo ∷ (used entry t).addr_hi ∷ l) j.addresses;
  stamped = omega (arith, j.stamped);
}

module _ (ts_lo ts_hi : ℕ → ℕ) (addrs : List ℕ) (test len : ℕ) (entry : ℕ → Address)
    (found : (idx : ℕ) → dma_addr_from_idx addrs idx ≡ done (entry idx))
    (issue : ℕ → Address → List Op) (c : Chip)
    (known : (t : ℕ) → dma_ops c test len (used entry t) ≡ some (issue t (used entry t))) where
  dma_round :
      (n t : ℕ) (s : Bus)
      → dma_rounds ts_lo ts_hi addrs test len c (suc n) t (used entry t) s
        ≡ dma_rounds ts_lo ts_hi addrs test len c n
            (suc t)
            (used entry (suc t))
            (timed ts_lo ts_hi (issue t (used entry t)) (used entry t) s)
  unfolding dma_rounds
  dma_round n t s = ground (arith, known t, found t)

  pub dma_rounds_lem :
      (s0 : Bus) (n t : ℕ) (s : Bus)
      → IsJournalled entry s0 t s
      → s.ops ≡ trace entry issue t ++ s0.ops
      → (s' : Bus) × (dma_rounds ts_lo ts_hi addrs test len c n t (used entry t) s
          ≡ done (true, s'))
        × IsJournalled entry s0 (t + n) s'
        × (s'.ops ≡ trace entry issue (t + n) ++ s0.ops)
  unfolding dma_rounds timed
  dma_rounds_lem s0 zero t s j o =
      let end : t ≡ t + 0 = omega arith in
      (
        s,
        refl,
        subst (λ k. IsJournalled entry s0 k s) end j,
        o ∙ ap (λ k. trace entry issue k ++ s0.ops) end,
      )
  dma_rounds_lem s0 (suc n) t s j o =
      let s1 : Bus = timed ts_lo ts_hi (issue t (used entry t)) (used entry t) s in
      let o1 : s1.ops ≡ trace entry issue (suc t) ++ s0.ops =
        ap (λ l. issue t (used entry t) ++ l) o
        ∙ sym (append_assoc (issue t (used entry t)) (trace entry issue t) s0.ops) in
      let (s2, ended, j2, o2) =
        dma_rounds_lem s0 n (suc t) s1 (timed-IsJournalled ts_lo ts_hi entry s0 t s _ j) o1 in
      let total : suc t + n ≡ t + suc n = omega arith in
      (
        s2,
        dma_round n t s ∙ ended,
        subst (λ k. IsJournalled entry s0 k s2) total j2,
        o2 ∙ ap (λ k. trace entry issue k ++ s0.ops) total,
      )
