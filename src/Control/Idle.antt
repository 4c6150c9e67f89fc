-- ===== src/Control/Idle.antt =====
-- The loop of the card when there is no test to do.
use pciebench_nfp.Common.{ℕ, zero, suc, ◌≡◌, refl, arith, done}
use pciebench_nfp.Nfp.{Chip}
use pciebench_nfp.Control.{Card, poll, polls}
use pciebench_nfp.Control.Reports.{BwTest}

module _ (c : Chip) (ts_lo ts_hi rand : ℕ → ℕ) (fuel : ℕ) (dma_bw : BwTest) where
  poll_idle : (s : Card) → s.test_ctrl ≡ 0 → poll c ts_lo ts_hi rand fuel dma_bw s ≡ done s
  unfolding poll
  poll_idle s idle = ground (arith, idle)

  polls_idle :
      (n : ℕ) (s : Card) → s.test_ctrl ≡ 0 → polls c ts_lo ts_hi rand fuel dma_bw n s ≡ done s
  unfolding polls
  polls_idle zero s idle = refl
  polls_idle (suc n) s idle = rw (poll_idle s idle) (polls_idle n s idle)

  -- After a test that succeeds the host finds its result for any number of rounds.
  pub polls_after :
      (s t : Card)
      → poll c ts_lo ts_hi rand fuel dma_bw s ≡ done t
      → t.test_ctrl ≡ 0
      → (n : ℕ) → polls c ts_lo ts_hi rand fuel dma_bw (suc n) s ≡ done t
  unfolding polls
  polls_after s t once idle n = rw once (polls_idle n t idle)
