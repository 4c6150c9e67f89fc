-- ===== src/Helper/Served.antt =====
-- The helper and the card together, on a test that the card has.
use pciebench_nfp.Common.{
  ℕ, zero, suc, ◌+◌, ◌-◌, ◌^◌, ◌≤◌, ◌<◌, ◌≡◌, refl, ap, ◌∙◌, arith, Bool, true, false, Bool-cases,
  inl, inr, done, done-injective, sym, ◌||◌, ◌==◌,
}
use mathlib.Core.Path.{subst}
use pciebench_nfp.Nfp.{Chip}
use pciebench_nfp.Addresses.Linear.{IsAccepted}
use pciebench_nfp.Addresses.Table.{IsMapped}
use pciebench_nfp.Addresses.Tabled.{IsOrdered}
use pciebench_nfp.Warming.Sweep.{IsAligned}
use pciebench_nfp.Latency.{window}
use pciebench_nfp.Latency.Bars.{IsSteered}
use pciebench_nfp.Bandwidth.{TestSub}
use pciebench_nfp.Bandwidth.Cluster.{Regs, SetUp}
use pciebench_nfp.Bandwidth.Master.{DmaBw}
use pciebench_nfp.Control.{Card, polls}
use pciebench_nfp.Control.Idle.{polls_after}
use pciebench_nfp.Control.Reports.{BwTest, poll-Succeeds, transactions}
use pciebench_nfp.Latency.{Ran}
use pciebench_nfp.Helper.{Settings, Answers, finished, positive, poll_loop, start, run}

-- The helper stops at the latest after the read numbered `i + k`, if that is not positive.
poll_loop_stops :
    (reads : ℕ → ℕ) (k fuel i v : ℕ)
    → k < fuel
    → positive v ≡ true
    → positive (reads (i + k)) ≡ false
    → (n : ℕ) × (poll_loop reads (suc fuel) i v ≡ done n) × (n ≤ i + suc k)
unfolding poll_loop
poll_loop_stops reads k zero i v enough going stop = elim enough [ ]
poll_loop_stops reads zero (suc fuel) i v enough going stop =
    let here : i + 0 ≡ i = omega arith in
    let now : positive (reads i) ≡ false = subst (λ n. positive (reads n) ≡ false) here stop in
    (i + 1, rw (going, now) refl, omega arith)
poll_loop_stops reads (suc k) (suc fuel) i v enough going stop =
    let next : i + suc k ≡ i + 1 + k = omega arith in
    elim (Bool-cases (positive (reads i))) [
      | inr ended ↦ (i + 1, rw (going, ended) refl, omega arith)
      | inl more ↦
          let (n, returned, few) =
            poll_loop_stops reads k fuel (i + 1) (reads i) (omega arith) more
              (subst (λ n. positive (reads n) ≡ false) next stop) in
          (n, rw going returned, omega arith)
    ]

module _ (c : Chip) (ts_lo ts_hi rand : ℕ → ℕ) (card_fuel : ℕ) (dma_bw : BwTest)
    (cls_test_sub : TestSub) (next : ℕ → Bool) (workers : ℕ) (old : ℕ → Regs) (stale : ℕ → SetUp)
    (law : (v k : ℕ) → cls_test_sub v k ≡ (v, v - k)) where
  -- The helper starts one of the seven tests on a card that is in its loop, with checked arguments,
  -- mapped and aligned chunks, an order with enough fuel for it, each command so far gone through
  -- the BAR to the address asked for, transfers of 4 to 64 bytes if commands perform them, and a
  -- bandwidth test that ends as `dma_bw` can. If it finds the device, the symbol and the host's
  -- buffer, and its read numbered `k` comes after some rounds of the card's loop, then it returns
  -- after `k + 1` reads at most, and the card's result has the number of transactions.
  pub run_known_ends :
      (env : Answers) (reads : ℕ → ℕ) (k fuel rounds : ℕ) (t : Settings) (s after : Card)
      → 1 ≤ t.opt_test
      → t.opt_test ≤ 7
      → s.test_ctrl ≡ t.opt_test
      → IsAccepted (window s.test_params)
      → IsMapped s.host_dma_addrs
      → IsAligned s.host_dma_addrs
      → ((i : ℕ) → rand i < 2 ^ 32)
      → IsOrdered rand (window s.test_params) card_fuel
      → IsSteered c s.bus.ops
      → (s.test_ctrl ≤ 2 → (4 ≤ s.test_params.p1) × (s.test_params.p1 ≤ 64))
      → (ran : Ran) × (dma_bw s.test_params s.test_ctrl s.host_dma_addrs s.bus ≡ done ran)
        × DmaBw c ts_lo ts_hi rand card_fuel cls_test_sub next workers old stale s.host_dma_addrs
            s.test_params s.test_ctrl s.bus ran
      → polls c ts_lo ts_hi rand card_fuel dma_bw (suc rounds) s ≡ done after
      → reads k ≡ after.test_ctrl
      → k < fuel
      → env.nfp_device_open t.opt_nfp ≡ true
      → env.nfp_rtsym_lookup t.opt_ctrl ≡ true
      → env.open_buffer t.opt_nfp ≡ true
      → (n : ℕ) × (run env reads (suc fuel) t ≡ done (finished t.opt_win t.opt_test n))
        × (n ≤ suc k)
        × (after.test_result.r0 ≡ transactions t.opt_test s.test_params.p0)
  unfolding run start
  run_known_ends env reads k fuel rounds t s after low high asked ok mapped aligned word ordered
        steered sized bw polled seen enough device symbol buffer =
      let (u, once, idle, count, _) =
        poll-Succeeds c ts_lo ts_hi rand card_fuel dma_bw cls_test_sub next workers old stale law s
          (omega (arith, asked)) (omega (arith, asked)) ok mapped aligned word ordered steered sized
          bw in
      let same : u ≡ after =
        done-injective u after
          (sym (polls_after c ts_lo ts_hi rand card_fuel dma_bw s u once idle rounds) ∙ polled) in
      let zero_read : reads (0 + k) ≡ 0 =
        ap reads (omega arith) ∙ seen ∙ ap (λ (x : Card). x.test_ctrl) (sym same) ∙ idle in
      let (n, returned, few) =
        poll_loop_stops reads k fuel 0 t.opt_test enough (ground arith)
          (ground (arith, zero_read)) in
      (
        n,
        rw (device, symbol, going buffer, returned) refl,
        omega arith,
        ap (λ (x : Card). x.test_result.r0) (sym same)
            ∙ count
            ∙ ap (λ (x : ℕ). transactions x s.test_params.p0) asked,
      )
    where
      going :
          env.open_buffer t.opt_nfp ≡ true → (t.opt_win == 0 || env.open_buffer t.opt_nfp) ≡ true
      going b = ground (arith, b)
