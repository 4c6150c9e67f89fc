-- ===== src/Bandwidth/Master/Completes.antt =====
-- A bandwidth test that has begun can always be brought to its end.
use pciebench_nfp.Bandwidth
use pciebench_nfp.Bandwidth.{TestSub, Bench, Step}
use pciebench_nfp.Bandwidth.Progress.{potential, Step-potential-lt, never_stuck}
use pciebench_nfp.Bandwidth.Cluster.{
  Regs, SetUp, Cluster, Move, wake, claim, enqueue, complete, again, leave, Run, launched, moved,
  launch,
}
use pciebench_nfp.Bandwidth.Cluster.Refine.{view, Run-Refines}
use pciebench_nfp.Bandwidth.Master.{bw_trans, DmaBw, ends}
use pciebench_nfp.Bandwidth.Master.Returns.{
  bw_trans_pos, table, dma_bw_begin_lem, host_ops-AllAsked,
}
use pciebench_nfp.Common.{
  ℕ, zero, suc, ◌-◌, ◌^◌, ◌<◌, ◌≡◌, inl, inr, refl, ◌∙◌, arith, Bool, true, List,
}
use pciebench_nfp.Nfp.{Chip}
use pciebench_nfp.Addresses.Linear.{IsAccepted}
use pciebench_nfp.Addresses.Table.{IsMapped}
use pciebench_nfp.Addresses.Tabled.{IsOrdered}
use pciebench_nfp.Latency.{TestParams, Bus, Ran, window}

module _ (cls_test_sub : TestSub) (next : ℕ → Bool) (p : TestParams) (addrs : List ℕ)
    (n test max_trans : ℕ) (law : (v k : ℕ) → cls_test_sub v k ≡ (v, v - k))
    (chain : (i : ℕ) → suc i < n → next i ≡ true) (some_worker : 0 < n)
    (some_trans : 0 < max_trans) where
  -- What the workers can do by their program points they can do with their registers.
  Step-Move :
      (s : Cluster) {t : Bench}
      → Step cls_test_sub next test n (view test s) t
      → (c : Cluster) × Move cls_test_sub next p addrs n s c
        × Step cls_test_sub next test n (view test s) (view test c)
        × (c.test_ctrl ≡ s.test_ctrl)
  Step-Move s (Bandwidth.wake i below at started) =
      (_, wake i below at started, Bandwidth.wake i below at started, refl)
  Step-Move s (Bandwidth.claim i below at) = (_, claim i below at, Bandwidth.claim i below at, refl)
  Step-Move s (Bandwidth.enqueue i trans below at) =
      (_, enqueue i trans below at, Bandwidth.enqueue i trans below at, refl)
  Step-Move s (Bandwidth.complete i trans below at) =
      (_, complete i trans below at, Bandwidth.complete i trans below at, refl)
  Step-Move s (Bandwidth.again i trans below at more) =
      (_, again i trans below at more, Bandwidth.again i trans below at more, refl)
  Step-Move s (Bandwidth.leave i trans below at last) =
      (_, leave i trans below at last, Bandwidth.leave i trans below at last, refl)

  module _ (old : ℕ → Regs) (stale : ℕ → SetUp) where
    run_on :
        (fuel : ℕ) (s : Cluster)
        → Run cls_test_sub next p addrs n test max_trans old stale s
        → s.test_ctrl ≡ test
        → potential n (view test s) < fuel
        → (c : Cluster) × Run cls_test_sub next p addrs n test max_trans old stale c
          × (c.signals ≡ 1)
          × (c.test_ctrl ≡ test)
    run_on zero s run current enough = absurd (omega arith)
    run_on (suc fuel) s run current enough =
        elim (never_stuck cls_test_sub next test n max_trans law chain
          (Run-Refines law some_trans run).0 some_worker some_trans) [
            | inr (signal, _, _) ↦ (s, run, signal, current)
            | inl (t, step) ↦
                let (c, move, same_step, same) = Step-Move s step in
                run_on fuel c (moved run move) (same ∙ current) (
                  omega (arith, Step-potential-lt cls_test_sub next test n max_trans law same_step))
          ]

-- With checked arguments, mapped chunks, an order with enough fuel for it, and at least one worker of
-- which each but the last starts the next one: `dma_bw` can end.
pub dma_bw_ends :
    (chip : Chip) (ts_lo ts_hi rand : ℕ → ℕ) (chunks : List ℕ) (fuel : ℕ) (p : TestParams)
    → IsAccepted (window p)
    → IsMapped chunks
    → ((n : ℕ) → rand n < 2 ^ 32)
    → IsOrdered rand (window p) fuel
    → (cls_test_sub : TestSub) (next : ℕ → Bool) (n : ℕ) (old : ℕ → Regs) (stale : ℕ → SetUp)
    → ((v k : ℕ) → cls_test_sub v k ≡ (v, v - k))
    → ((i : ℕ) → suc i < n → next i ≡ true)
    → 0 < n
    → (test : ℕ) (s : Bus)
    → (ran : Ran) × DmaBw chip ts_lo ts_hi rand fuel cls_test_sub next n old stale chunks p test s
        ran
unfolding launch
dma_bw_ends chip ts_lo ts_hi rand chunks fuel p ok mapped word ordered cls_test_sub next n old stale
      law chain some_worker test s =
    let tab = table chip ts_lo ts_hi rand chunks fuel p ok mapped word ordered in
    let (c, run, signal, current) =
      run_on cls_test_sub next p tab.addrs n test (bw_trans p.p0) law chain some_worker
        (bw_trans_pos p.p0) old stale
        (suc (potential n (view test (launch test p (bw_trans p.p0) old stale)))) _ launched refl
        (omega arith) in
    (
      _,
      ends tab.addrs _ c _
          (dma_bw_begin_lem chip ts_lo ts_hi rand chunks fuel p ok mapped word ordered s) run signal
          current
          (host_ops-AllAsked chip tab.addrs tab.entry tab.found (λ i. (tab.slots i).2.hi_fits) test
            p c.test_ctrl c.signals current c.log (Run-Refines law (bw_trans_pos p.p0) run).1)
          refl,
    )
