-- ===== src/Bandwidth/Master/Returns.antt =====
-- What `dma_bw` returns, however its workers interleave.
use mathlib.Core.Path.{subst}
use pciebench_nfp.Bandwidth.{Dma, TestSub, reads}
use pciebench_nfp.Bandwidth.Invariant.{tally}
use pciebench_nfp.Bandwidth.Outcome.{no_duplicates}
use pciebench_nfp.Bandwidth.Cluster.{Regs, SetUp, Issue, Cluster, Run}
use pciebench_nfp.Bandwidth.Cluster.Refine.{IsAsked, AllAsked, dmas, Run-Refines}
use pciebench_nfp.Bandwidth.Master.{
  bw_trans, host_op, host_ops, dma_bw_begin, dma_bw_end, DmaBw, refuses, ends,
}
use pciebench_nfp.Bandwidth.Master.Finish.{enqueued}
use pciebench_nfp.Common.{
  ℕ, ◌+◌, ◌-◌, ◌^◌, ◌≤◌, ◌<◌, ◌≡◌, refl, ap, sym, ◌∙◌, arith, inl, inr, Bool, if◌then◌else◌, Option,
  none, some, List, [], ◌∷◌, ◌++◌, length, Outcome, done, done-injective,
}
use pciebench_nfp.Nfp.{Chip}
use pciebench_nfp.Addresses.{Address, dma_addr_from_idx}
use pciebench_nfp.Addresses.Linear.{IsAccepted}
use pciebench_nfp.Addresses.Choice.{IsSlot}
use pciebench_nfp.Addresses.Table.{IsMapped, IsAt}
use pciebench_nfp.Addresses.Tabled.{IsOrdered, IsTabled, ordered-IsTabled}
use pciebench_nfp.Latency.{
  TestParams, TestResult, Op, from_pci, to_pci, Bus, success, Ran, window, prepare, report, dma_len,
}
use pciebench_nfp.Latency.Descriptor.{IsSendable, dma_len_lem, pcie_addr_lem}
use pciebench_nfp.Latency.Runs.{accepted, prepare_same}

-- The transfer numbered `t` of test `test`.
abbrev pub transfer : (ℕ → Address) → ℕ → ℕ → ℕ → Op
transfer entry test len t = if reads test t then from_pci (entry t) len else to_pci (entry t) len

abbrev pub all_transfers : (ℕ → Address) → ℕ → ℕ → List Dma → List Op
all_transfers entry test len [] = []
all_transfers entry test len (d ∷ log) =
    transfer entry test len d.index ∷ all_transfers entry test len log

-- As long as `test_ctrl` is the host's, every DMA has the direction of its number.
asked_direction :
    (test : ℕ) (p : TestParams) (addrs : List ℕ) (ctrl signals : ℕ) (d : Issue)
    → ctrl ≡ test
    → IsAsked test p addrs ctrl signals d
    → d.dma.read ≡ reads test d.dma.index
unfolding reads
asked_direction test p addrs ctrl signals d same asked = elim (asked.direction) [
  | inl right ↦ right
  | inr (zero_no, write, over, signalled) ↦
      let none_asked : test ≡ 0 = omega (arith, same, over) in write ∙ rw (none_asked, zero_no) refl
]

module _ (chip : Chip) (addrs : List ℕ) (entry : ℕ → Address)
    (found : (idx : ℕ) → dma_addr_from_idx addrs idx ≡ done (entry idx))
    (fits : (idx : ℕ) → (entry idx).addr_hi < 2 ^ 8) (test : ℕ) (p : TestParams) (ctrl signals : ℕ)
    (same : ctrl ≡ test) where
  host_op-IsAsked :
      (d : Issue)
      → IsAsked test p addrs ctrl signals d
      → host_op chip d ≡ done (transfer entry test (dma_len chip p.p1) d.dma.index)
  unfolding host_op
  host_op-IsAsked d asked =
      rw
        (
          asked.address,
          found d.dma.index,
          asked_direction test p addrs ctrl signals d same asked,
          asked.set_up,
          pcie_addr_lem (entry d.dma.index) (fits d.dma.index),
        )
        refl

  pub host_ops-AllAsked :
      (log : List Issue)
      → AllAsked test p addrs ctrl signals log
      → host_ops chip log ≡ done (all_transfers entry test (dma_len chip p.p1) (dmas test log))
  unfolding host_ops
  host_ops-AllAsked [] asked = refl
  host_ops-AllAsked (d ∷ log) (asked, rest) =
      rw (host_op-IsAsked d asked, host_ops-AllAsked log rest) refl

-- What a bandwidth test with `n` workers promises: success, with `r0` the number of transactions; the
-- bus journals nothing, and gains the transfers of a log of DMAs, each of `len` bytes.
pub record IsBwRun (chunks : List ℕ) (p : TestParams) (len test n : ℕ) (s : Bus) (ran : Ran)
    : Type 0 where
  pub entry : ℕ → Address
  pub log : List Dma
  pub ret : ran.ret ≡ success
  pub result : (old : TestResult) → (ran.result old).r0 ≡ bw_trans p.p0
  pub slots : (idx : ℕ) → (lin : ℕ) × IsSlot (window p) lin × IsAt chunks lin (entry idx)
  pub ops : ran.bus.ops ≡ all_transfers entry test len log ++ (prepare p s).ops
  pub once : (t : ℕ) → 0 < t → tally t log ≤ 1
  pub within : (t : ℕ) → bw_trans p.p0 < t → tally t log ≡ 0
  pub enough : bw_trans p.p0 + 1 + tally 0 log ≤ length log + n
  pub silent : (ran.bus.test_journal ≡ s.test_journal) × (ran.bus.debug_journal ≡ s.debug_journal)

not_both :
    (x : Outcome (Option (List ℕ × Bus))) (a : List ℕ × Bus) → x ≡ done none → x ≡ done (some a) → ⊥
not_both x a h k = cc

same_begin :
    (x : Outcome (Option (List ℕ × Bus))) (a c : List ℕ) (b d : Bus)
    → x ≡ done (some (a, b))
    → x ≡ done (some (c, d))
    → (a ≡ c) × (b ≡ d)
same_begin x a c b d h k = (cc, cc)

pub bw_trans_pos : (flags : ℕ) → 0 < bw_trans flags
unfolding bw_trans
bw_trans_pos flags = ground arith

module _ (chip : Chip) (ts_lo ts_hi rand : ℕ → ℕ) (chunks : List ℕ) (fuel : ℕ) (p : TestParams)
    (ok : IsAccepted (window p)) (mapped : IsMapped chunks) (word : (n : ℕ) → rand n < 2 ^ 32)
    (ordered : IsOrdered rand (window p) fuel) where
  pub table : IsTabled rand chunks (window p) fuel
  table = ordered-IsTabled rand chunks (window p) fuel ok mapped word ordered

  pub dma_bw_begin_lem :
      (s : Bus)
      → dma_bw_begin rand chunks fuel p s
        ≡ done (some (table.addrs, record (prepare p s) { stamps = s.stamps + 2 }))
  unfolding dma_bw_begin
  dma_bw_begin_lem s = rw (accepted p ok, table.returns) refl

  module _ (cls_test_sub : TestSub) (next : ℕ → Bool) (n : ℕ) (old : ℕ → Regs) (stale : ℕ → SetUp)
      (law : (v k : ℕ) → cls_test_sub v k ≡ (v, v - k)) where
    ended :
        (test : ℕ) (s : Bus) (c : Cluster) (ops : List Op) (ran : Ran)
        → Run cls_test_sub next p table.addrs n test (bw_trans p.p0) old stale c
        → c.signals ≡ 1
        → c.test_ctrl ≡ test
        → host_ops chip c.log ≡ done ops
        → ran ≡ dma_bw_end ts_lo ts_hi p s (record (prepare p s) { stamps = s.stamps + 2 }) ops
        → IsBwRun chunks p (dma_len chip p.p1) test n s ran
    unfolding dma_bw_end report
    ended test s c ops ran run signal current moved e =
        let (reached, asked) = Run-Refines law (bw_trans_pos p.p0) run in
        let (_, once, within) = no_duplicates law (bw_trans_pos p.p0) reached in
        let (enough, _) = enqueued law (bw_trans_pos p.p0) reached signal in
        let same : all_transfers table.entry test (dma_len chip p.p1) (dmas test c.log) ≡ ops =
          done-injective _ _ (
            sym (
              host_ops-AllAsked chip table.addrs table.entry table.found
                (λ i. (table.slots i).2.hi_fits) test p c.test_ctrl c.signals current c.log asked)
            ∙ moved) in
        subst (λ r. IsBwRun chunks p (dma_len chip p.p1) test n s r) (sym e)
          (record {
            entry = table.entry;
            log = dmas test c.log;
            ret = refl;
            result = λ old. refl;
            slots = table.slots;
            ops = ap (λ l. l ++ (prepare p s).ops) (sym same);
            once = once;
            within = within;
            enough = enough;
            silent = prepare_same p s;
          })

    pub dma_bw-Runs :
        (test : ℕ) (s : Bus) (ran : Ran)
        → DmaBw chip ts_lo ts_hi rand fuel cls_test_sub next n old stale chunks p test s ran
        → IsBwRun chunks p (dma_len chip p.p1) test n s ran
    dma_bw-Runs test s ran (refuses began e) = absurd (not_both _ _ began (dma_bw_begin_lem s))
    dma_bw-Runs test s ran (ends addrs begun c ops began run signal current moved e) =
        let (same_addrs, same_bus) = same_begin _ _ _ _ _ began (dma_bw_begin_lem s) in
        ended test s c ops ran
          (subst (λ l. Run cls_test_sub next p l n test (bw_trans p.p0) old stale c) same_addrs run)
          signal current moved (e ∙ ap (λ b. dma_bw_end ts_lo ts_hi p s b ops) same_bus)

    -- With checked arguments, mapped chunks, an order with enough fuel for it, and a length that
    -- the descriptor can hold, on either chip: however `dma_bw` ends, with `n` workers in any
    -- interleaving, it returns success and the number of transactions; the host sees, after what
    -- prepares the cache, transfers of slots of the window only, in the direction that their
    -- numbers ask for; no number from 1 on comes twice, none is beyond the number of transactions,
    -- and fewer than `n` of them are missing. The journals are as before.
    pub dma_bw-IsBwRun :
        (test : ℕ) (s : Bus) (ran : Ran)
        → IsSendable chip p.p1
        → DmaBw chip ts_lo ts_hi rand fuel cls_test_sub next n old stale chunks p test s ran
        → IsBwRun chunks p p.p1 test n s ran
    dma_bw-IsBwRun test s ran fits way =
        subst (λ len. IsBwRun chunks p len test n s ran)
          (dma_len_lem chip p.p1 fits (omega (arith, ok.in_page))) (dma_bw-Runs test s ran way)
