-- ===== src/Bandwidth/Outcome.antt =====
-- What a bandwidth test comes to, however its workers interleave.
use pciebench_nfp.Bandwidth.Census.{census, census_const}
use pciebench_nfp.Bandwidth.{Pc, finished, Bench, TestSub, Reach}
use pciebench_nfp.Bandwidth.Invariant.{
  tally, draws, drawing, last_draw, signaller, IsFair, Reach-IsFair,
}
use pciebench_nfp.Common.{ℕ, ◌+◌, ◌-◌, ◌*◌, ◌≤◌, ◌<◌, ◌≡◌, refl, arith, Bool, length}

module _ {cls_test_sub : TestSub} {next : ℕ → Bool} {test_no n max_trans : ℕ}
    (law : (v k : ℕ) → cls_test_sub v k ≡ (v, v - k)) (some_trans : 0 < max_trans) where
  -- At any time during a test, whatever the order of steps: the master has had at most one signal,
  -- no transaction number from 1 on has been enqueued twice, and none beyond the number set.
  pub no_duplicates :
      {s : Bench}
      → Reach cls_test_sub next test_no n max_trans s
      → (s.signals ≤ 1)
        × ((t : ℕ) → 0 < t → tally t s.log ≤ 1)
        × ((t : ℕ) → max_trans < t → tally t s.log ≡ 0)
  no_duplicates {s} r = (
    ground (arith, f.signal),
    λ t pos. ground (arith, f.each t pos),
    λ t beyond. ground (arith, f.each t (omega arith)),
  )
    where
      f : IsFair n max_trans s
      f = Reach-IsFair n max_trans law some_trans r

  -- When all `n` workers are done, every transaction number from 1 to the number set has been
  -- enqueued once, the master has had one signal, and each worker but one has enqueued one more
  -- DMA, with the number 0.
  pub all_done :
      {s : Bench}
      → Reach cls_test_sub next test_no n max_trans s
      → 0 < n
      → ((i : ℕ) → i < n → s.pc i ≡ finished)
      → ((t : ℕ) → 0 < t → t ≤ max_trans → tally t s.log ≡ 1)
        × (s.signals ≡ 1)
        × (tally 0 s.log + 1 ≡ n)
        × (length s.log + 1 ≡ max_trans + n)
  all_done {s} r some_worker quiet = (
    λ t pos within. ground (arith, f.each t pos, none_left (draws t) 0 refl, used_up),
    ground (arith, f.signal, none_left signaller 0 refl, used_up),
    ground (arith, f.zeros, none_left last_draw 1 refl, none_left (draws 0) 0 refl, used_up),
    ground (
      arith,
      f.size,
      f.zeros,
      none_left drawing 0 refl,
      none_left last_draw 1 refl,
      none_left (draws 0) 0 refl,
      used_up,
    ),
  )
    where
      f : IsFair n max_trans s
      f = Reach-IsFair n max_trans law some_trans r

      none_left : (w : Pc → ℕ) (k : ℕ) → w finished ≡ k → census w n s.pc ≡ n * k
      none_left w k e = census_const w n k s.pc (λ i below. rw (quiet i below) e)

      used_up : s.num_dma_trans ≡ 0
      used_up =
          ground (arith, f.zeros, f.early, none_left last_draw 1 refl, none_left (draws 0) 0 refl)
