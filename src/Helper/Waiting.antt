-- ===== src/Helper/Waiting.antt =====
-- When the helper stops polling.
use pciebench_nfp.Common.{
  ℕ, zero, suc, ◌+◌, ◌^◌, ◌≤◌, ◌<◌, ◌≡◌, refl, sym, ap, ◌∙◌, arith, true, false, List, Outcome,
  done, no_end, done-injective,
}
use mathlib.Core.Path.{subst}
use pciebench_nfp.Helper.{Settings, Answers, positive, poll_loop, start, run}
use pciebench_nfp.Nfp.{Chip}
use pciebench_nfp.Latency.{TestParams, Bus, Ran}
use pciebench_nfp.Control.{Card, polls, polls_unknown, set_up}

-- The helper makes exactly the reads up to the first value that is not positive, given fuel for one
-- round more.
pub poll_loop_ends :
    (reads : ℕ → ℕ) (k fuel i v : ℕ)
    → k < fuel
    → positive v ≡ true
    → ((j : ℕ) → j < k → positive (reads (i + j)) ≡ true)
    → positive (reads (i + k)) ≡ false
    → poll_loop reads (suc fuel) i v ≡ done (i + suc k)
unfolding poll_loop
poll_loop_ends reads zero fuel i v enough started more stop =
    let here : i + 0 ≡ i = omega arith in
    rw started (stopped fuel (omega arith) (subst (λ n. positive (reads n) ≡ false) here stop))
  where
    stopped :
        (f : ℕ)
        → 0 < f
        → positive (reads i) ≡ false
        → poll_loop reads f (i + 1) (reads i) ≡ done (i + 1)
    stopped zero h e = elim h [ ]
    stopped (suc f) h e = rw e refl
poll_loop_ends reads (suc k) zero i v enough started more stop = elim enough [ ]
poll_loop_ends reads (suc k) (suc fuel) i v enough started more stop =
    let here : i + 0 ≡ i = omega arith in
    let at : (j : ℕ) → i + suc j ≡ i + 1 + j = λ j. omega arith in
    let total : i + 1 + suc k ≡ i + suc (suc k) = omega arith in
    rw started (
      poll_loop_ends reads k fuel (i + 1) (reads i) (omega arith)
        (subst (λ n. positive (reads n) ≡ true) here (more 0 (omega arith)))
        (λ j h. subst (λ n. positive (reads n) ≡ true) (at j) (more (suc j) (omega arith)))
        (subst (λ n. positive (reads n) ≡ false) (at k) stop)
      ∙ ap (λ (n : ℕ). done n) total)

-- If every read is positive, the helper does not stop.
pub poll_loop_waits :
    (reads : ℕ → ℕ) (fuel i v : ℕ)
    → positive v ≡ true
    → ((j : ℕ) → positive (reads j) ≡ true)
    → poll_loop reads fuel i v ≡ no_end
unfolding poll_loop
poll_loop_waits reads zero i v started more = refl
poll_loop_waits reads (suc fuel) i v started more =
    rw started (poll_loop_waits reads fuel (i + 1) (reads i) (more i) more)

module _ (c : Chip) (ts_lo ts_hi rand : ℕ → ℕ) (card_fuel : ℕ)
    (dma_bw : TestParams → ℕ → List ℕ → Bus → Outcome Ran) where
  -- What the helper reads: `test_ctrl` after some rounds of the card's loop.
  abbrev pub Sees : Card → ℕ → Type 0
  Sees s value =
      (n : ℕ) × (s' : Card) × (polls c ts_lo ts_hi rand card_fuel dma_bw n s ≡ done s')
      × (value ≡ s'.test_ctrl)

  Sees-unknown :
      (s : Card) (value : ℕ)
      → 8 ≤ s.test_ctrl
      → s.test_ctrl < 2 ^ 31
      → Sees s value
      → value ≡ s.test_ctrl
  unfolding polls
  Sees-unknown s value above below (zero, s', ended, seen) = cc
  Sees-unknown s value above below (suc n, s', ended, seen) =
      let same : set_up s ≡ s' =
        done-injective _ _
          (sym (polls_unknown c ts_lo ts_hi rand card_fuel dma_bw n s above below) ∙ ended) in
      seen ∙ ap (λ (k : Card). k.test_ctrl) (sym same)

  -- If the helper starts a test above 7 on a card that is in its loop, and reads what the card's loop has
  -- left at any time, then it never returns.
  pub run_unknown_waits :
      (env : Answers) (reads : ℕ → ℕ) (fuel : ℕ) (t : Settings) (s : Card)
      → 8 ≤ t.opt_test
      → t.opt_test < 2 ^ 31
      → s.test_ctrl ≡ t.opt_test
      → ((j : ℕ) → Sees s (reads j))
      → env.nfp_device_open t.opt_nfp ≡ true
      → env.nfp_rtsym_lookup t.opt_ctrl ≡ true
      → env.open_buffer t.opt_nfp ≡ true
      → run env reads fuel t ≡ no_end
  unfolding run start
  run_unknown_waits env reads fuel t s above below asked sees device symbol buffer =
      let unchanged : (j : ℕ) → reads j ≡ t.opt_test = λ j.
        Sees-unknown s (reads j) (omega (arith, asked)) (omega (arith, asked)) (sees j) ∙ asked in
      let waits : poll_loop reads fuel 0 t.opt_test ≡ no_end =
        poll_loop_waits reads fuel 0 t.opt_test (ground arith) (λ j. ground (arith, unchanged j)) in
      ground (arith, device, symbol, buffer, waits)
