-- ===== src/Control.antt =====
-- me/pciebench_main.c, the loop of `main` in context 0, with the variables of me/shared.c that the host
-- reads and writes. `test_ctrl` is the bit pattern of an `int32_t`.
pub mod Boot
pub mod Reports
pub mod Confined
pub mod Idle
use pciebench_nfp.Common.{
  ℕ, zero, suc, ◌-◌, ◌^◌, ◌≤◌, ◌<◌, ◌≡◌, arith, refl, ◌||◌, leb, ◌==◌, if◌then◌else◌, Option, none,
  some, List, Outcome, done, ◌>>=◌,
}
use pciebench_nfp.Nfp.{Chip}
use pciebench_nfp.Latency.{
  TestParams, TestResult, Bus, Ret, success, bad_args, bad_test, Ran, lat_cmd_rd, lat_cmd_wrrd,
  lat_dma_rd, lat_dma_wrrd, dma_lat, cmd_lat,
}
use pciebench_nfp.Bandwidth.{bw_dma_rd, bw_dma_wr, bw_dma_rw}

-- `result` is the local variable, which outlives a test that fails.
pub record Card : Type 0 where
  pub test_ctrl : ℕ
  pub test_params : TestParams
  pub test_result : TestResult
  pub host_dma_addrs : List ℕ
  pub mailbox : ℕ × ℕ × ℕ × ℕ
  pub chunk_dma_addrs : List ℕ
  pub result : TestResult
  pub bus : Bus

-- The value of a test, as a bit pattern.
pub ret_bits : Ret → ℕ
ret_bits success = 0
ret_bits bad_args = 2 ^ 32 - 1
ret_bits bad_test = 2 ^ 32 - 2

-- What precedes the `switch`.
abbrev pub set_up : Card → Card
set_up s =
    let p = s.test_params in
    record s { mailbox = (p.p0, p.p1, p.p2, p.p3); chunk_dma_addrs = s.host_dma_addrs }

-- What follows the `switch`.
pub publish : Card → Ran → Card
publish s r =
    let result = r.result s.result in
    record s { test_ctrl = ret_bits r.ret; test_result = result; result = result; bus = r.bus }

-- The bandwidth test is an argument; module Bandwidth follows its contexts one by one.
module _ (c : Chip) (ts_lo ts_hi rand : ℕ → ℕ) (fuel : ℕ)
    (dma_bw : TestParams → ℕ → List ℕ → Bus → Outcome Ran) where
  -- The `switch`; `none` is its default.
  pub dispatch : Card → Option (Outcome Ran)
  dispatch s =
      let test = s.test_ctrl in
      if test == lat_cmd_rd || test == lat_cmd_wrrd
      then some (cmd_lat ts_lo ts_hi rand s.chunk_dma_addrs fuel s.test_params test s.bus)
      else if test == lat_dma_rd || test == lat_dma_wrrd
      then some (dma_lat ts_lo ts_hi rand s.chunk_dma_addrs fuel c s.test_params test s.bus)
      else if test == bw_dma_rd || (test == bw_dma_wr || test == bw_dma_rw)
      then some (dma_bw s.test_params test s.chunk_dma_addrs s.bus)
      else none

  -- One round of the loop.
  pub poll : Card → Outcome Card
  poll s =
      let s1 = set_up s in
      let next : Outcome Card = elim (dispatch s1) [
        | none ↦ done s1
        | some run ↦ run >>= λ r. done (publish s1 r)
      ] in
      if s.test_ctrl == 0 || leb (2 ^ 31) s.test_ctrl then done s else next

  -- The loop, for a number of rounds.
  unfoldable pub polls : ℕ → Card → Outcome Card
  polls zero s = done s
  polls (suc n) s = poll s >>= polls n

  dispatch_unknown : (s : Card) → 8 ≤ s.test_ctrl → dispatch s ≡ none
  unfolding dispatch
  dispatch_unknown s above = ground arith

  poll_unknown : (s : Card) → 8 ≤ s.test_ctrl → s.test_ctrl < 2 ^ 31 → poll s ≡ done (set_up s)
  unfolding poll
  poll_unknown s above below =
      let still : dispatch (set_up s) ≡ none = dispatch_unknown (set_up s) above in
      ground (arith, still)

  -- A test number that `enum pciebench_tests` does not have stays in `test_ctrl` for any number of rounds,
  -- with the results and the bus unchanged.
  pub polls_unknown :
      (n : ℕ) (s : Card)
      → 8 ≤ s.test_ctrl
      → s.test_ctrl < 2 ^ 31
      → polls (suc n) s ≡ done (set_up s)
  unfolding polls
  polls_unknown zero s above below = rw (poll_unknown s above below) refl
  polls_unknown (suc n) s above below =
      rw (poll_unknown s above below) (polls_unknown n (set_up s) above below)
