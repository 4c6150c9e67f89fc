-- ===== src/Bandwidth/Cluster/Loaded.antt =====
-- Every ME has loaded the test's parameters before one of its workers uses them. An ME that wakes up
-- after `main` has overwritten `test_ctrl` has a test number of 0, and its workers draw nothing but 0.
use pciebench_nfp.Bandwidth.Census.{update_elim}
use pciebench_nfp.Bandwidth.{waiting}
use pciebench_nfp.Bandwidth.Cluster.{
  Regs, SetUp, Cluster, launch, woken, set_up_from, master_loads, worker_loads, me_of, ctx_of,
}
use pciebench_nfp.Bandwidth.Cluster.Chain.{InChain, launch-InChain, claims}
use pciebench_nfp.Common.{ℕ, ◌≤◌, ◌<◌, ◌≡◌, ◌≢◌, ◌⊎◌, refl, arith, true, ◌==◌, Bool-cases, inl, inr}
use pciebench_nfp.Latency.{TestParams}

module _ (test : ℕ) (p : TestParams) where
  -- A test number that an ME may hold: the host's, or 0 once `main` has overwritten it.
  abbrev pub IsNumber : ℕ → ℕ → ℕ → Type 0
  IsNumber ctrl signals t = (t ≡ test) ⊎ ((t ≡ 0) × (ctrl ≡ 0) × (0 < signals))

  pub more_signals :
      (ctrl signals signals' t : ℕ)
      → signals ≤ signals'
      → IsNumber ctrl signals t
      → IsNumber ctrl signals' t
  more_signals ctrl signals signals' t grown (inl same) = inl same
  more_signals ctrl signals signals' t grown (inr (zero_no, over, some)) =
      inr (zero_no, over, omega arith)

  pub overwritten :
      (ctrl signals t : ℕ) → 0 < signals → IsNumber ctrl signals t → IsNumber 0 signals t
  overwritten ctrl signals t some (inl same) = inl same
  overwritten ctrl signals t some (inr (zero_no, _, _)) = inr (zero_no, refl, some)

  -- Registers that a worker may rely on.
  pub record IsLoaded (ctrl signals : ℕ) (r : Regs) : Type 0 where
    pub test_no : IsNumber ctrl signals r.test_no
    pub arg_trans_sz : r.arg_trans_sz ≡ p.p1
    pub arg_doff : r.arg_doff ≡ p.p4

  pub record IsReady (s : Cluster) : Type 0 where
    pub number : IsNumber s.test_ctrl s.signals s.test_ctrl
    pub first : IsLoaded s.test_ctrl s.signals (s.regs 0)
    -- Who has been started, or has begun, is the first of its ME or finds the registers loaded.
    pub started :
        (i : ℕ)
        → s.start i ≡ true
        → ctx_of i ≢ 0
        → IsLoaded s.test_ctrl s.signals (s.regs (me_of i))
    pub begun : (i : ℕ) → s.pc i ≢ waiting → IsLoaded s.test_ctrl s.signals (s.regs (me_of i))
    pub set : (i : ℕ) → s.pc i ≢ waiting → s.set_up i ≡ record { len = p.p1; d_off = p.p4 }
    pub chain : InChain s.start s.pc
    -- A worker of an ME that has another number has drawn no transaction.
    pub idle : (i : ℕ) → (s.regs (me_of i)).test_no ≢ test → claims (s.pc i) ≡ 0

  pub worker_loads-IsLoaded :
      (ctrl signals : ℕ) → IsNumber ctrl signals ctrl → IsLoaded ctrl signals (worker_loads ctrl p)
  unfolding worker_loads
  worker_loads-IsLoaded ctrl signals h = record {
    test_no = h;
    arg_trans_sz = refl;
    arg_doff = refl;
  }

  -- Waking up keeps what is loaded.
  pub woken-kept :
      (ctrl signals i m : ℕ) (regs : ℕ → Regs)
      → IsNumber ctrl signals ctrl
      → IsLoaded ctrl signals (regs m)
      → IsLoaded ctrl signals (woken ctrl p i regs m)
  unfolding woken
  woken-kept ctrl signals i m regs number h = elim (Bool-cases (ctx_of i == 0)) [
    | inl first ↦ rw first (
        update_elim (λ r. IsLoaded ctrl signals r) regs (me_of i) (worker_loads ctrl p) m
          (λ same. worker_loads-IsLoaded ctrl signals number) (λ other. h))
    | inr other ↦ rw other h
  ]

  pub woken-own :
      (ctrl signals i : ℕ) (regs : ℕ → Regs)
      → IsNumber ctrl signals ctrl
      → (ctx_of i ≢ 0 → IsLoaded ctrl signals (regs (me_of i)))
      → IsLoaded ctrl signals (woken ctrl p i regs (me_of i))
  unfolding woken
  woken-own ctrl signals i regs number h = elim (Bool-cases (ctx_of i == 0)) [
    | inl first ↦ rw first (
        update_elim (λ r. IsLoaded ctrl signals r) regs (me_of i) (worker_loads ctrl p) (me_of i)
          (λ same. worker_loads-IsLoaded ctrl signals number) (λ other. absurd (other refl)))
    | inr other ↦ rw other (h (ground (arith, other)))
  ]

  pub set_up_from_lem :
      (ctrl signals : ℕ) (r : Regs)
      → IsLoaded ctrl signals r
      → set_up_from r ≡ record { len = p.p1; d_off = p.p4 }
  unfolding set_up_from
  set_up_from_lem ctrl signals r h = ground (arith, h.arg_trans_sz, h.arg_doff)

  pub IsLoaded-later :
      (ctrl signals signals' : ℕ) (r : Regs)
      → signals ≤ signals'
      → IsLoaded ctrl signals r
      → IsLoaded ctrl signals' r
  IsLoaded-later ctrl signals signals' r grown h = record {
    test_no = more_signals ctrl signals signals' r.test_no grown h.test_no;
    arg_trans_sz = h.arg_trans_sz;
    arg_doff = h.arg_doff;
  }

  pub launch-IsReady :
      (max_trans : ℕ) (old : ℕ → Regs) (stale : ℕ → SetUp)
      → IsReady (launch test p max_trans old stale)
  unfolding launch master_loads
  launch-IsReady max_trans old stale = record {
    number = inl refl;
    first = own;
    started = λ i on off. rw (at_0 i on) own;
    begun = λ i now. absurd (now refl);
    set = λ i now. absurd (now refl);
    chain = launch-InChain;
    idle = λ i late. refl;
  }
    where
      own : IsLoaded test 0 (master_loads test p (old 0))
      own = record { test_no = inl refl; arg_trans_sz = refl; arg_doff = refl }

      at_0 : (i : ℕ) → (i == 0) ≡ true → me_of i ≡ 0
      at_0 i on = ground arith
