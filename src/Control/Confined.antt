-- ===== src/Control/Confined.antt =====
-- What one round of the loop reads and writes of the host's memory.
use pciebench_nfp.Common.{
  ℕ, ◌-◌, ◌%◌, ◌^◌, ◌≤◌, ◌<◌, ◌≡◌, sym, ap, ◌∙◌, arith, Bool, true, false, Bool-cases, inl, inr,
  some, List, [], ◌∷◌, ◌++◌, done, Outcome,
}
use mathlib.Core.Path.{subst}
use pciebench_nfp.Nfp.{Chip}
use pciebench_nfp.Addresses.{Address}
use pciebench_nfp.Addresses.Choice.{IsSlot}
use pciebench_nfp.Addresses.Linear.{IsAccepted}
use pciebench_nfp.Addresses.Table.{IsMapped, IsAt}
use pciebench_nfp.Addresses.Tabled.{IsOrdered}
use pciebench_nfp.Warming.Sweep.{IsAligned}
use pciebench_nfp.Latency.{TestParams, Op, Ran, max_trans, window, prepare}
use pciebench_nfp.Latency.Bars.{IsSteered}
use pciebench_nfp.Latency.Runs.{prepare-IsSteered, dma_test, cmd_lat-IsRun, dma_lat-IsRun}
use pciebench_nfp.Latency.Descriptor.{IsSendable}
use pciebench_nfp.Latency.Confined.{
  IsConfined, IsRequested, requested, confined, prepare-IsConfined, transfers-IsRequested,
  of_transfers, entry-IsInside, dma_trace-IsConfined, cmd_trace-IsRequested,
}
use pciebench_nfp.Bandwidth.{Dma, TestSub, reads}
use pciebench_nfp.Bandwidth.Cluster.{Regs, SetUp}
use pciebench_nfp.Bandwidth.Master.{DmaBw}
use pciebench_nfp.Bandwidth.Master.Returns.{IsBwRun, all_transfers, dma_bw-IsBwRun}
use pciebench_nfp.Control.{Card, set_up, publish, dispatch, poll}
use pciebench_nfp.Control.Reports.{
  BwTest, known, few_tests, dispatch_cmd, dispatch_dma, dispatch_bw, poll_lem,
}

-- The state after a round, in which each access of the host's memory so far is inside one chunk.
abbrev pub StaysConfined : Chip → List ℕ → Outcome Card → Type 0
StaysConfined c chunks after = (t : Card) × (after ≡ done t) × IsConfined c chunks t.bus.ops

more_tests : (test : ℕ) (b : Bool) → test ≡ dma_test b → 3 ≤ test
more_tests test true e = omega (arith, e)
more_tests test false e = omega (arith, e)

all_transfers-IsConfined :
    (c : Chip) (chunks : List ℕ) (p : TestParams) (entry : ℕ → Address)
    → ((idx : ℕ) → (lin : ℕ) × IsSlot (window p) lin × IsAt chunks lin (entry idx))
    → (test : ℕ) (log : List Dma) (ops : List Op) → IsConfined c chunks ops
    → IsConfined c chunks (all_transfers entry test p.p1 log ++ ops)
all_transfers-IsConfined c chunks p entry slots test [] ops h = h
all_transfers-IsConfined c chunks p entry slots test (d ∷ log) ops h =
    let here = entry-IsInside c chunks p entry slots d.index in
    let rest = all_transfers-IsConfined c chunks p entry slots test log ops h in
    elim (Bool-cases (reads test d.index)) [
      | inl read ↦ rw read (here, rest)
      | inr write ↦ rw write (here, rest)
    ]

module _ (c : Chip) (ts_lo ts_hi rand : ℕ → ℕ) (fuel : ℕ) (dma_bw : BwTest) (cls_test_sub : TestSub)
    (next : ℕ → Bool) (n : ℕ) (old : ℕ → Regs) (stale : ℕ → SetUp)
    (law : (v k : ℕ) → cls_test_sub v k ≡ (v, v - k)) where
  confined_round :
      (s : Card) (r : Ran)
      → 1 ≤ s.test_ctrl
      → s.test_ctrl ≤ 7
      → dispatch c ts_lo ts_hi rand fuel dma_bw (set_up s) ≡ some (done r)
      → IsConfined c s.host_dma_addrs r.bus.ops
      → StaysConfined c s.host_dma_addrs (poll c ts_lo ts_hi rand fuel dma_bw s)
  unfolding publish
  confined_round s r low high e h =
      (publish (set_up s) r, poll_lem c ts_lo ts_hi rand fuel dma_bw s r low high e, h)

  -- For each of the seven tests, with checked arguments, a window of whole lines, mapped and
  -- aligned chunks, an order with enough fuel for it, transfers of 4 to 64 bytes if commands
  -- perform them and of a length that the descriptor can hold if DMAs do, and a bandwidth test that
  -- ends as `dma_bw` can: if each command so far went through the BAR to the address asked for, and
  -- each access of the host's memory so far was inside one chunk, then each access is so after the
  -- round as well, with those that thrash and warm the cache. The place of an access is what the
  -- DMA's descriptor says, or where the BAR, as it stands at that time, and the command lead.
  pub poll-StaysConfined :
      (s : Card)
      → 1 ≤ s.test_ctrl
      → s.test_ctrl ≤ 7
      → IsAccepted (window s.test_params)
      → s.test_params.p2 % 64 ≡ 0
      → IsMapped s.host_dma_addrs
      → IsAligned s.host_dma_addrs
      → ((i : ℕ) → rand i < 2 ^ 32)
      → IsOrdered rand (window s.test_params) fuel
      → IsSteered c s.bus.ops
      → (s.test_ctrl ≤ 2 → (4 ≤ s.test_params.p1) × (s.test_params.p1 ≤ 64))
      → (3 ≤ s.test_ctrl → IsSendable c s.test_params.p1)
      → (ran : Ran) × (dma_bw s.test_params s.test_ctrl s.host_dma_addrs s.bus ≡ done ran)
        × DmaBw c ts_lo ts_hi rand fuel cls_test_sub next n old stale s.host_dma_addrs s.test_params
            s.test_ctrl s.bus ran
      → IsConfined c s.host_dma_addrs s.bus.ops
      → StaysConfined c s.host_dma_addrs (poll c ts_lo ts_hi rand fuel dma_bw s)
  poll-StaysConfined s low high ok whole mapped aligned word ordered steered sized sendable
        (ran, ended, way) before =
      let chunks = s.host_dma_addrs in
      let p = s.test_params in
      let prepared = prepare-IsConfined c chunks mapped aligned p ok whole s.bus before in
      elim (known s.test_ctrl low high) [
        | inl (b, e) ↦
            let few : s.test_ctrl ≤ 2 = few_tests s.test_ctrl b e in
            let (run, entry, returned, good, moved, right) =
              cmd_lat-IsRun ts_lo ts_hi rand chunks fuel p ok mapped word ordered c b s.bus aligned
                steered (sized few).0 (sized few).1 in
            confined_round s run low high
              (dispatch_cmd c ts_lo ts_hi rand fuel dma_bw b (set_up s) e ∙ ap some returned)
              (confined c chunks run.bus.ops right (
                of_transfers c chunks run.bus.ops (
                  subst (IsRequested c chunks) (sym moved) (
                    cmd_trace-IsRequested c chunks p entry good.slots b (max_trans p.p0) _ (
                      transfers-IsRequested c chunks (prepare p s.bus).ops (
                        requested c chunks (prepare p s.bus).ops
                          (prepare-IsSteered c p s.bus steered) prepared))))))
        | inr (inl (b, e)) ↦
            let (run, entry, returned, good, moved) =
              dma_lat-IsRun ts_lo ts_hi rand chunks fuel p ok mapped word ordered c b s.bus
                (sendable (more_tests s.test_ctrl b e)) in
            confined_round s run low high
              (dispatch_dma c ts_lo ts_hi rand fuel dma_bw b (set_up s) e ∙ ap some returned)
              (subst (IsConfined c chunks) (sym moved)
                (dma_trace-IsConfined c chunks p entry good.slots b (max_trans p.p0) _ prepared))
        | inr (inr bw) ↦
            let good : IsBwRun chunks p p.p1 s.test_ctrl n s.bus ran =
              dma_bw-IsBwRun c ts_lo ts_hi rand chunks fuel p ok mapped word ordered cls_test_sub
                next n old stale law s.test_ctrl s.bus ran (sendable (omega (arith, bw))) way in
            confined_round s ran low high
              (dispatch_bw c ts_lo ts_hi rand fuel dma_bw (set_up s) bw high ∙ ap some ended)
              (subst (IsConfined c chunks) (sym good.ops) (
                all_transfers-IsConfined c chunks p good.entry good.slots s.test_ctrl good.log _
                  prepared))
      ]
