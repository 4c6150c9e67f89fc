-- ===== src/Control/Reports.antt =====
-- What the host finds after one round of the loop, for each test that there is.
use pciebench_nfp.Control.{Card, set_up, publish, dispatch, poll, ret_bits}
use pciebench_nfp.Common.{
  ℕ, ◌-◌, ◌^◌, ◌≤◌, ◌<◌, ◌≡◌, ◌⊎◌, inl, inr, refl, ap, ◌∙◌, arith, Bool, true, false, leb, ◌==◌,
  if◌then◌else◌, some, List, Outcome, done, Bool-cases,
}
use pciebench_nfp.Nfp.{Chip}
use pciebench_nfp.Addresses.Linear.{IsAccepted}
use pciebench_nfp.Addresses.Table.{IsMapped}
use pciebench_nfp.Addresses.Tabled.{IsOrdered}
use pciebench_nfp.Warming.Sweep.{IsAligned}
use pciebench_nfp.Latency.{
  TestParams, TestResult, Bus, success, bad_args, Ran, max_trans, refused, window, dma_len, dma_lat,
  cmd_lat,
}
use pciebench_nfp.Latency.Bars.{IsSteered}
use pciebench_nfp.Latency.Runs.{cmd_test, dma_test, cmd_lat-IsRun, dma_lat-Runs}
use pciebench_nfp.Bandwidth.{TestSub}
use pciebench_nfp.Bandwidth.Cluster.{Regs, SetUp}
use pciebench_nfp.Bandwidth.Master.{bw_trans, DmaBw}
use pciebench_nfp.Bandwidth.Master.Refused.{DmaBw-refused}
use pciebench_nfp.Bandwidth.Master.Returns.{IsBwRun, dma_bw-Runs}

-- The bandwidth test as Control takes it.
abbrev pub BwTest : Type 0
BwTest = TestParams → ℕ → List ℕ → Bus → Outcome Ran

-- The tests of `enum pciebench_tests`, by the routine that serves them.
pub known :
    (t : ℕ)
    → 1 ≤ t
    → t ≤ 7
    → ((b : Bool) × (t ≡ cmd_test b)) ⊎ ((b : Bool) × (t ≡ dma_test b)) ⊎ (5 ≤ t)
known t low high = elim (Bool-cases (leb t 2)) [
  | inl cmd ↦ elim (Bool-cases (t == 1)) [
    | inl e ↦ inl (true, ground (arith, e))
    | inr e ↦ inl (false, ground (arith, e, cmd))
  ]
  | inr more ↦ elim (Bool-cases (leb t 4)) [
    | inl dma ↦ elim (Bool-cases (t == 3)) [
      | inl e ↦ inr (inl (true, ground (arith, e)))
      | inr e ↦ inr (inl (false, ground (arith, e, more, dma)))
    ]
    | inr bw ↦ inr (inr (ground (arith, bw)))
  ]
]

pub few_tests : (test : ℕ) (b : Bool) → test ≡ cmd_test b → test ≤ 2
few_tests test true e = omega (arith, e)
few_tests test false e = omega (arith, e)

-- How many transactions a test performs.
abbrev pub transactions : ℕ → ℕ → ℕ
transactions test flags = if leb test 4 then max_trans flags else bw_trans flags

-- The state after a round that reports the success of a test.
abbrev pub Succeeds : Card → Outcome Card → Type 0
Succeeds s after =
    (t : Card) × (after ≡ done t)
    × (t.test_ctrl ≡ 0)
    × (t.test_result.r0 ≡ transactions s.test_ctrl s.test_params.p0)
    × (t.chunk_dma_addrs ≡ s.host_dma_addrs)

module _ (c : Chip) (ts_lo ts_hi rand : ℕ → ℕ) (fuel : ℕ) (dma_bw : BwTest) where
  pub dispatch_cmd :
      (b : Bool) (s : Card)
      → s.test_ctrl ≡ cmd_test b
      → dispatch c ts_lo ts_hi rand fuel dma_bw s
        ≡ some (cmd_lat ts_lo ts_hi rand s.chunk_dma_addrs fuel s.test_params (cmd_test b) s.bus)
  unfolding dispatch
  dispatch_cmd true s e = ground (arith, e)
  dispatch_cmd false s e = ground (arith, e)

  pub dispatch_dma :
      (b : Bool) (s : Card)
      → s.test_ctrl ≡ dma_test b
      → dispatch c ts_lo ts_hi rand fuel dma_bw s
        ≡ some (dma_lat ts_lo ts_hi rand s.chunk_dma_addrs fuel c s.test_params (dma_test b) s.bus)
  unfolding dispatch
  dispatch_dma true s e = ground (arith, e)
  dispatch_dma false s e = ground (arith, e)

  pub dispatch_bw :
      (s : Card)
      → 5 ≤ s.test_ctrl
      → s.test_ctrl ≤ 7
      → dispatch c ts_lo ts_hi rand fuel dma_bw s
        ≡ some (dma_bw s.test_params s.test_ctrl s.chunk_dma_addrs s.bus)
  unfolding dispatch
  dispatch_bw s low high = ground arith

  -- A round in which a test ends.
  pub poll_lem :
      (s : Card) (r : Ran)
      → 1 ≤ s.test_ctrl
      → s.test_ctrl ≤ 7
      → dispatch c ts_lo ts_hi rand fuel dma_bw (set_up s) ≡ some (done r)
      → poll c ts_lo ts_hi rand fuel dma_bw s ≡ done (publish (set_up s) r)
  unfolding poll
  poll_lem s r low high e = ground (arith, e)

  publish_success : (s : Card) (r : Ran) → r.ret ≡ success → (publish (set_up s) r).test_ctrl ≡ 0
  unfolding publish ret_bits
  publish_success s r e = rw e refl

  -- A round whose test ends in success with the number of its transactions.
  success-Succeeds :
      (s : Card) (r : Ran)
      → 1 ≤ s.test_ctrl
      → s.test_ctrl ≤ 7
      → dispatch c ts_lo ts_hi rand fuel dma_bw (set_up s) ≡ some (done r)
      → r.ret ≡ success
      → ((before : TestResult) → (r.result before).r0 ≡ transactions s.test_ctrl s.test_params.p0)
      → Succeeds s (poll c ts_lo ts_hi rand fuel dma_bw s)
  unfolding publish
  success-Succeeds s r low high e ok count =
      (publish (set_up s) r, poll_lem s r low high e, publish_success s r ok, count s.result, refl)

  module _ (cls_test_sub : TestSub) (next : ℕ → Bool) (n : ℕ) (old : ℕ → Regs) (stale : ℕ → SetUp)
      (law : (v k : ℕ) → cls_test_sub v k ≡ (v, v - k)) where
    -- If the arguments of a test are refused, and the bandwidth test ends as `dma_bw` can: the host
    -- finds -1 and, as the result, what the card's local variable `result` holds; the bus is as it
    -- was.
    pub poll-refused :
        (s : Card)
        → 1 ≤ s.test_ctrl
        → s.test_ctrl ≤ 7
        → refused s.test_params ≡ true
        → (ran : Ran) × (dma_bw s.test_params s.test_ctrl s.host_dma_addrs s.bus ≡ done ran)
          × DmaBw c ts_lo ts_hi rand fuel cls_test_sub next n old stale s.host_dma_addrs
              s.test_params s.test_ctrl s.bus ran
        → poll c ts_lo ts_hi rand fuel dma_bw s
          ≡ done (record (set_up s) { test_ctrl = 2 ^ 32 - 1; test_result = s.result })
    unfolding publish ret_bits cmd_lat dma_lat
    poll-refused s low high bad (ran, ended, way) =
        poll_lem s (record { ret = bad_args; bus = s.bus; result = λ r. r }) low high
          (elim (known s.test_ctrl low high) [
            | inl (b, e) ↦ dispatch_cmd b (set_up s) e ∙ rw bad refl
            | inr (inl (b, e)) ↦ dispatch_dma b (set_up s) e ∙ rw bad refl
            | inr (inr bw) ↦
                dispatch_bw (set_up s) bw high
                ∙ ap some (ended ∙ ap (λ r. done r) (DmaBw-refused bad way))
          ])

    -- For each of the seven tests, with checked arguments, mapped and aligned chunks, an order with
    -- enough fuel for it, transfers of 4 to 64 bytes if commands perform them, and a bandwidth test
    -- that ends as `dma_bw` can: if each command so far went through the BAR to the address asked
    -- for, then after one round the host finds 0 and a result with the number of transactions, and
    -- the card has its chunk addresses.
    pub poll-Succeeds :
        (s : Card)
        → 1 ≤ s.test_ctrl
        → s.test_ctrl ≤ 7
        → IsAccepted (window s.test_params)
        → IsMapped s.host_dma_addrs
        → IsAligned s.host_dma_addrs
        → ((i : ℕ) → rand i < 2 ^ 32)
        → IsOrdered rand (window s.test_params) fuel
        → IsSteered c s.bus.ops
        → (s.test_ctrl ≤ 2 → (4 ≤ s.test_params.p1) × (s.test_params.p1 ≤ 64))
        → (ran : Ran) × (dma_bw s.test_params s.test_ctrl s.host_dma_addrs s.bus ≡ done ran)
          × DmaBw c ts_lo ts_hi rand fuel cls_test_sub next n old stale s.host_dma_addrs
              s.test_params s.test_ctrl s.bus ran
        → Succeeds s (poll c ts_lo ts_hi rand fuel dma_bw s)
    poll-Succeeds s low high ok mapped aligned word ordered steered sized (ran, ended, way) =
        elim (known s.test_ctrl low high) [
          | inl (b, e) ↦
              let (run, entry, returned, good, _, _) =
                cmd_lat-IsRun ts_lo ts_hi rand s.host_dma_addrs fuel s.test_params ok mapped word
                  ordered c b s.bus aligned steered (sized (few_tests s.test_ctrl b e)).0
                  (sized (few_tests s.test_ctrl b e)).1 in
              success-Succeeds s run low high (dispatch_cmd b (set_up s) e ∙ ap some returned)
                good.ret (λ before. good.result before ∙ few_cmd b e)
          | inr (inl (b, e)) ↦
              let (run, entry, returned, good, _) =
                dma_lat-Runs ts_lo ts_hi rand s.host_dma_addrs fuel s.test_params ok mapped word
                  ordered c b s.bus in
              success-Succeeds s run low high (dispatch_dma b (set_up s) e ∙ ap some returned)
                good.ret (λ before. good.result before ∙ few_dma b e)
          | inr (inr bw) ↦
              let good : IsBwRun s.host_dma_addrs s.test_params (dma_len c s.test_params.p1)
                  s.test_ctrl n s.bus ran =
                dma_bw-Runs c ts_lo ts_hi rand s.host_dma_addrs fuel s.test_params ok mapped word
                  ordered cls_test_sub next n old stale law s.test_ctrl s.bus ran way in
              success-Succeeds s ran low high (dispatch_bw (set_up s) bw high ∙ ap some ended)
                good.ret (λ before. good.result before ∙ many bw)
        ]
      where
        few_cmd :
            (b : Bool)
            → s.test_ctrl ≡ cmd_test b
            → max_trans s.test_params.p0 ≡ transactions s.test_ctrl s.test_params.p0
        few_cmd true e = ground (arith, e)
        few_cmd false e = ground (arith, e)

        few_dma :
            (b : Bool)
            → s.test_ctrl ≡ dma_test b
            → max_trans s.test_params.p0 ≡ transactions s.test_ctrl s.test_params.p0
        few_dma true e = ground (arith, e)
        few_dma false e = ground (arith, e)

        many :
            5 ≤ s.test_ctrl → bw_trans s.test_params.p0 ≡ transactions s.test_ctrl s.test_params.p0
        many bw = ground arith
