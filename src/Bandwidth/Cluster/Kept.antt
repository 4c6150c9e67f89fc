-- ===== src/Bandwidth/Cluster/Kept.antt =====
-- Every move of the workers keeps the registers as they should be.
use mathlib.Core.Path.{subst}
use pciebench_nfp.Bandwidth.Census.{update, update_elim}
use pciebench_nfp.Bandwidth.{Pc, waiting, ready, TestSub}
use pciebench_nfp.Bandwidth.Cluster.{
  Issue, Cluster, Move, wake, claim, enqueue, complete, again, leave, finish, woken, set_up_from,
  worker_loads, me_of, ctx_of,
}
use pciebench_nfp.Bandwidth.Cluster.Chain.{
  moved-InChain, woke-InChain, begun_before, claims, claims_waiting,
}
use pciebench_nfp.Bandwidth.Cluster.Loaded.{
  IsLoaded, IsReady, more_signals, overwritten, woken-kept, woken-own, set_up_from_lem,
  IsLoaded-later,
}
use pciebench_nfp.Common.{
  ℕ, ◌+◌, ◌-◌, ◌≤◌, ◌<◌, ◌≡◌, ◌≢◌, refl, ap, ◌∙◌, arith, Bool, true, false, ◌==◌, List, Bool-cases,
  inl, inr,
}
use pciebench_nfp.Latency.{TestParams}

module _ (test : ℕ) (p : TestParams) where
  -- A move of a worker that has begun.
  moved-IsReady :
      {s : Cluster} (i : ℕ) (pc : Pc) (num_dma_trans signals : ℕ) (log : List Issue)
      → IsReady test p s
      → s.pc i ≢ waiting
      → pc ≢ waiting
      → s.signals ≤ signals
      → ((s.regs (me_of i)).test_no ≢ test → claims pc ≡ 0)
      → IsReady test p (record {
        num_dma_trans = num_dma_trans;
        signals = signals;
        test_ctrl = s.test_ctrl;
        log = log;
        start = s.start;
        pc = update s.pc i pc;
        regs = s.regs;
        set_up = s.set_up;
      })
  moved-IsReady {s} i pc num_dma_trans signals log r was going grown drawn = record {
    number = more_signals test p s.test_ctrl s.signals signals s.test_ctrl grown r.number;
    first = IsLoaded-later test p s.test_ctrl s.signals signals _ grown r.first;
    started = λ j on off.
        IsLoaded-later test p s.test_ctrl s.signals signals _ grown (r.started j on off);
    begun = λ j now.
        IsLoaded-later test p s.test_ctrl s.signals signals _ grown (r.begun j (before j now));
    set = λ j now. r.set j (before j now);
    chain = moved-InChain i pc r.chain going was;
    idle = λ j.
        update_elim (λ q. (s.regs (me_of j)).test_no ≢ test → claims q ≡ 0) s.pc i pc j
          (λ same late. drawn (subst (λ k. (s.regs (me_of k)).test_no ≢ test) same late))
          λ other late. r.idle j late;
  }
    where
      before : (j : ℕ) → update s.pc i pc j ≢ waiting → s.pc j ≢ waiting
      before j =
          update_elim (λ q. q ≢ waiting → s.pc j ≢ waiting) s.pc i pc j (λ same now. rw same was)
            (λ other now. now)

  -- When the first worker of an ME wakes up, no worker of that ME has drawn.
  fellow_idle :
      {s : Cluster} (i j : ℕ)
      → IsReady test p s
      → s.pc i ≡ waiting
      → ctx_of i ≡ 0
      → me_of j ≡ me_of i
      → claims (s.pc j) ≡ 0
  fellow_idle {s} i j r at first same = claims_waiting (s.pc j) λ now.
      begun_before r.chain (j - i) i (subst (λ k. s.pc k ≢ waiting) {x = j} (omega arith) now) at

  woken_idle :
      {s : Cluster} (i j : ℕ)
      → IsReady test p s
      → s.pc i ≡ waiting
      → (woken s.test_ctrl p i s.regs (me_of j)).test_no ≢ test
      → claims (s.pc j) ≡ 0
  unfolding woken
  woken_idle {s} i j r at = elim (Bool-cases (ctx_of i == 0)) [
    | inl first ↦ rw first (
        update_elim (λ q. q.test_no ≢ test → claims (s.pc j) ≡ 0) s.regs (me_of i)
          (worker_loads s.test_ctrl p) (me_of j)
          (λ same late. fellow_idle i j r at (ground (arith, first)) same)
          λ other late. r.idle j late)
    | inr other ↦ rw other λ late. r.idle j late
  ]

  woke-IsReady :
      {s : Cluster} (i : ℕ) (start : Bool)
      → IsReady test p s
      → s.start i ≡ true
      → s.pc i ≡ waiting
      → IsReady test p (record s {
        start = update (update s.start i false) (i + 1) start;
        pc = update s.pc i ready;
        regs = woken s.test_ctrl p i s.regs;
        set_up = update s.set_up i (set_up_from (woken s.test_ctrl p i s.regs (me_of i)));
      })
  woke-IsReady {s} i start r on at = record {
    number = r.number;
    first = kept 0 r.first;
    started = λ j.
        update_elim (λ on'. on' ≡ true → ctx_of j ≢ 0 → Loaded (me_of j)) (update s.start i false)
          (i + 1) start j (λ next now off. subst Loaded (same_me j next off) own)
          λ far.
            update_elim (λ on'. on' ≡ true → ctx_of j ≢ 0 → Loaded (me_of j)) s.start i false j
              (λ same now off. cc) λ other now off. kept (me_of j) (r.started j now off);
    begun = λ j.
        update_elim (λ q. q ≢ waiting → Loaded (me_of j)) s.pc i ready j (λ same now. rw same own)
          λ other now. kept (me_of j) (r.begun j now);
    set = λ j now. rest j now;
    chain = woke-InChain i ready r.chain (λ e. cc) start on;
    idle = λ j.
        update_elim (λ q. (woken s.test_ctrl p i s.regs (me_of j)).test_no ≢ test → claims q ≡ 0)
          s.pc i ready j (λ same late. refl) λ other late. woken_idle i j r at late;
  }
    where
      Loaded : ℕ → Type 0
      Loaded m = IsLoaded test p s.test_ctrl s.signals (woken s.test_ctrl p i s.regs m)

      kept : (m : ℕ) → IsLoaded test p s.test_ctrl s.signals (s.regs m) → Loaded m
      kept m = woken-kept test p s.test_ctrl s.signals i m s.regs r.number

      own : Loaded (me_of i)
      own = woken-own test p s.test_ctrl s.signals i s.regs r.number (r.started i on)

      same_me : (j : ℕ) → j ≡ i + 1 → ctx_of j ≢ 0 → me_of i ≡ me_of j
      same_me j next off = omega arith

      rest :
          (j : ℕ)
          → update s.pc i ready j ≢ waiting
          → update s.set_up i (set_up_from (woken s.test_ctrl p i s.regs (me_of i))) j
            ≡ record { len = p.p1; d_off = p.p4 }
      rest j now = elim (Bool-cases (j == i)) [
        | inl same ↦ rw same (set_up_from_lem test p s.test_ctrl s.signals _ own)
        | inr other ↦ rw other (r.set j (rw other at now))
      ]

  finish-IsReady :
      {s : Cluster} → 0 < s.signals → IsReady test p s → IsReady test p (record s { test_ctrl = 0 })
  finish-IsReady {s} some r = record {
    number = inr (refl, refl, some);
    first = over 0 r.first;
    started = λ j on off. over (me_of j) (r.started j on off);
    begun = λ j now. over (me_of j) (r.begun j now);
    set = r.set;
    chain = r.chain;
    idle = r.idle;
  }
    where
      over :
          (m : ℕ)
          → IsLoaded test p s.test_ctrl s.signals (s.regs m)
          → IsLoaded test p 0 s.signals (s.regs m)
      over m h = record {
        test_no = overwritten test p s.test_ctrl s.signals _ some h.test_no;
        arg_trans_sz = h.arg_trans_sz;
        arg_doff = h.arg_doff;
      }

  -- A worker whose ME has another number draws from a counter that is used up.
  late_draw :
      {cls_test_sub : TestSub}
      → ((v k : ℕ) → cls_test_sub v k ≡ (v, v - k))
      → {s : Cluster} (i : ℕ) → IsReady test p s
      → (0 < s.signals → s.num_dma_trans ≡ 0)
      → s.pc i ≢ waiting
      → (s.regs (me_of i)).test_no ≢ test
      → (cls_test_sub s.num_dma_trans 1).0 ≡ 0
  late_draw law {s} i r drained now late = elim ((r.begun i now).test_no) [
    | inl same ↦ absurd (late same)
    | inr (_, _, some) ↦ ap (λ (x : ℕ × ℕ). x.0) (law s.num_dma_trans 1) ∙ drained some
  ]

  module _ {cls_test_sub : TestSub} {next : ℕ → Bool} {addrs : List ℕ} {n : ℕ}
      (law : (v k : ℕ) → cls_test_sub v k ≡ (v, v - k)) where
    pub Move-IsReady :
        {s t : Cluster}
        → Move cls_test_sub next p addrs n s t
        → (0 < s.signals → s.num_dma_trans ≡ 0)
        → IsReady test p s
        → IsReady test p t
    Move-IsReady (wake i below at started) drained r = woke-IsReady i _ r started at
    Move-IsReady {s} (claim i below at) drained r =
        moved-IsReady i _ _ _ _ r (rw at λ e. cc) (λ e. cc) (omega arith)
          (late_draw law i r drained (rw at λ e. cc))
    Move-IsReady (enqueue i trans below at) drained r =
        moved-IsReady i _ _ _ _ r (rw at λ e. cc) (λ e. cc) (omega arith) (λ late. refl)
    Move-IsReady (complete i trans below at) drained r =
        moved-IsReady i _ _ _ _ r (rw at λ e. cc) (λ e. cc) (omega arith) (λ late. refl)
    Move-IsReady (again i trans below at more) drained r =
        moved-IsReady i _ _ _ _ r (rw at λ e. cc) (λ e. cc) (omega arith) (λ late. refl)
    Move-IsReady (leave i trans below at last) drained r =
        moved-IsReady i _ _ _ _ r (rw at λ e. cc) (λ e. cc) (ground arith) (λ late. refl)
    Move-IsReady (finish some) drained r = finish-IsReady some r
