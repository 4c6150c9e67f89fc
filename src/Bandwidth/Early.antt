-- ===== src/Bandwidth/Early.antt =====
-- The signal to the master says that the DMA numbered 1 is complete, not that all are.
use pciebench_nfp.Bandwidth.{
  ready, in_flight, Bench, TestSub, begin, wake, claim, enqueue, complete, again, leave, Reach,
  begun, later,
}
use pciebench_nfp.Common.{ℕ, zero, suc, ◌+◌, ◌-◌, ◌≤◌, ◌≡◌, refl, ap, arith, Bool, true}

-- A state of a test in which the master has its signal while the DMA of a worker is in flight.
abbrev pub SignalledEarly : TestSub → (ℕ → Bool) → ℕ → ℕ → ℕ → Type 0
SignalledEarly cls_test_sub next test_no n max_trans =
    (s : Bench) × Reach cls_test_sub next test_no n max_trans s
    × (s.signals ≡ 1)
    × (s.pc 0 ≡ in_flight 2)

module _ (cls_test_sub : TestSub) (next : ℕ → Bool) (test_no n max_trans : ℕ)
    (law : (v k : ℕ) → cls_test_sub v k ≡ (v, v - k)) (two_workers : 2 ≤ n)
    (chain : next 0 ≡ true) where
  returned : (v : ℕ) → (cls_test_sub v 1).0 ≡ v
  returned v = ap (λ (p : ℕ × ℕ). p.0) (law v 1)

  left_over : (v : ℕ) → (cls_test_sub v 1).1 ≡ v - 1
  left_over v = ap (λ (p : ℕ × ℕ). p.1) (law v 1)

  -- The first two workers are about to draw, with `k + 2` transactions left.
  record IsPoised (k : ℕ) (s : Bench) : Type 0 where
    reached : Reach cls_test_sub next test_no n max_trans s
    left : s.num_dma_trans ≡ k + 2
    first : s.pc 0 ≡ ready
    second : s.pc 1 ≡ ready
    silent : s.signals ≡ 0

  poised : (k : ℕ) → max_trans ≡ k + 2 → (s : Bench) × IsPoised k s
  unfolding begin
  poised k e = (
    _,
    record {
      reached =
          later (later begun (wake 0 (omega arith) refl refl))
            (wake 1 (omega arith) refl (ground (arith, chain)));
      left = e;
      first = refl;
      second = refl;
      silent = refl;
    },
  )

  -- The first worker performs a transaction.
  drawn : (k : ℕ) (s : Bench) → IsPoised (suc k) s → (s' : Bench) × IsPoised k s'
  drawn k s p = (
    _,
    record {
      reached =
          later
            (later
              (later (later p.reached (claim 0 (omega arith) p.first))
                (enqueue 0 _ (omega arith) refl))
              (complete 0 _ (omega arith) refl))
            (again 0 (cls_test_sub s.num_dma_trans 1).0 (omega arith) refl
              (omega (arith, returned s.num_dma_trans, p.left)));
      left = omega (arith, left_over s.num_dma_trans, p.left);
      first = refl;
      second = p.second;
      silent = p.silent;
    },
  )

  exhausted : (k : ℕ) (s : Bench) → IsPoised k s → (s' : Bench) × IsPoised 0 s'
  exhausted zero s p = (s, p)
  exhausted (suc k) s p = let (s', p') = drawn k s p in exhausted k s' p'

  overtaken : (s : Bench) → IsPoised 0 s → SignalledEarly cls_test_sub next test_no n max_trans
  overtaken s p =
      let v : ℕ = s.num_dma_trans in
      let w : ℕ = (cls_test_sub v 1).1 in
      let last : (cls_test_sub w 1).0 ≡ 1 = omega (arith, returned w, left_over v, p.left) in
      (
        _,
        later
            (later
              (later
                (later
                  (later (later p.reached (claim 0 (omega arith) p.first))
                    (enqueue 0 _ (omega arith) refl))
                  (claim 1 (omega arith) p.second))
                (enqueue 1 _ (omega arith) refl))
              (complete 1 _ (omega arith) refl))
            (leave 1 (cls_test_sub w 1).0 (omega arith) refl (omega (arith, last))),
        ground (arith, last, p.silent),
        ap in_flight (omega (arith, returned v, p.left)),
      )

  -- With two or more workers and two or more transactions, there is a run in which the master has been
  -- signalled, and so takes the end time, while transaction 2 is still in flight.
  pub master-SignalledEarly : 2 ≤ max_trans → SignalledEarly cls_test_sub next test_no n max_trans
  master-SignalledEarly enough =
      let (s, p) = poised (max_trans - 2) (omega arith) in
      let (s', p') = exhausted (max_trans - 2) s p in overtaken s' p'
