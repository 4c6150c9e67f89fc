-- ===== src/Bandwidth/Master/Finish.antt =====
-- What a bandwidth test has come to when the master gets its signal.
use pciebench_nfp.Bandwidth.Census.{census, census-update, census_apart}
use pciebench_nfp.Bandwidth.{
  Pc, waiting, ready, finished, claimed, in_flight, completed, Bench, TestSub, begin, Step, wake,
  claim, enqueue, complete, again, leave, Reach, begun, later,
}
use pciebench_nfp.Bandwidth.Invariant.{tally, drawing, IsFair, Reach-IsFair}
use pciebench_nfp.Common.{ℕ, ◌+◌, ◌-◌, ◌≤◌, ◌<◌, ◌≡◌, arith, length, Bool}

abbrev leaver : Pc → ℕ
leaver finished = 1
leaver _ = 0

-- A worker is not both at work on a draw and finished.
apart : (p : Pc) → drawing p + leaver p ≤ 1
apart waiting = omega arith
apart p = ground arith

module _ {cls_test_sub : TestSub} {next : ℕ → Bool} {test_no n : ℕ} where
  Step-signals-le :
      {s t : Bench}
      → Step cls_test_sub next test_no n s t
      → s.signals ≤ census leaver n s.pc
      → t.signals ≤ census leaver n t.pc
  Step-signals-le {s} (wake i below at started) h =
      ground (arith, census-update leaver n i s.pc ready below)
  Step-signals-le {s} (claim i below at) h =
      ground
        (arith, census-update leaver n i s.pc (claimed (cls_test_sub s.num_dma_trans 1).0) below)
  Step-signals-le {s} (enqueue i trans below at) h =
      ground (arith, census-update leaver n i s.pc (in_flight trans) below)
  Step-signals-le {s} (complete i trans below at) h =
      ground (arith, census-update leaver n i s.pc (completed trans) below)
  Step-signals-le {s} (again i trans below at more) h =
      ground (arith, census-update leaver n i s.pc ready below)
  Step-signals-le {s} (leave i trans below at last) h =
      ground (arith, census-update leaver n i s.pc finished below)

  -- Each signal comes from a worker that has left.
  signals-le :
      {max_trans : ℕ} {s : Bench}
      → Reach cls_test_sub next test_no n max_trans s
      → s.signals ≤ census leaver n s.pc
  unfolding begin
  signals-le begun = omega arith
  signals-le (later r step) = Step-signals-le step (signals-le r)

  -- When the master has its signal, the DMAs with a number from 1 on that the workers have enqueued are
  -- as many as the transactions but for one that each other worker may have at hand; and no transaction
  -- is left to draw.
  pub enqueued :
      {max_trans : ℕ} {s : Bench}
      → ((v k : ℕ) → cls_test_sub v k ≡ (v, v - k))
      → 0 < max_trans
      → Reach cls_test_sub next test_no n max_trans s
      → s.signals ≡ 1
      → (max_trans + 1 + tally 0 s.log ≤ length s.log + n) × (s.num_dma_trans ≡ 0)
  enqueued {max_trans} {s} law some_trans r signal =
      let f : IsFair n max_trans s = Reach-IsFair n max_trans law some_trans r in
      let drawn : s.num_dma_trans ≡ 0 = ground (arith, f.signal, signal) in
      (ground (arith, f.size, drawn, signals-le r, census_apart drawing leaver n s.pc apart), drawn)
