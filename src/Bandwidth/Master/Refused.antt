-- ===== src/Bandwidth/Master/Refused.antt =====
-- `dma_bw` with arguments that its checks refuse.
use pciebench_nfp.Bandwidth.{TestSub}
use pciebench_nfp.Bandwidth.Cluster.{Regs, SetUp}
use pciebench_nfp.Bandwidth.Master.{dma_bw_begin, DmaBw, refuses, ends}
use pciebench_nfp.Common.{ℕ, ◌≡◌, refl, Bool, true, Option, none, some, List, Outcome, done}
use pciebench_nfp.Nfp.{Chip}
use pciebench_nfp.Latency.{TestParams, Bus, bad_args, Ran, refused}

none_begun :
    (x : Outcome (Option (List ℕ × Bus))) (a : List ℕ × Bus) → x ≡ done none → x ≡ done (some a) → ⊥
none_begun x a h k = cc

pub begin_refused :
    (rand : ℕ → ℕ) (chunks : List ℕ) (fuel : ℕ) (p : TestParams) (s : Bus)
    → refused p ≡ true
    → dma_bw_begin rand chunks fuel p s ≡ done none
unfolding dma_bw_begin
begin_refused rand chunks fuel p s bad = rw bad refl

module _ {chip : Chip} {ts_lo ts_hi rand : ℕ → ℕ} {fuel : ℕ} {cls_test_sub : TestSub}
    {next : ℕ → Bool} {n : ℕ} {old : ℕ → Regs} {stale : ℕ → SetUp} where
  -- There is one way only in which it ends.
  pub DmaBw-refused :
      {chunks : List ℕ} {p : TestParams} {test : ℕ} {s : Bus} {ran : Ran}
      → refused p ≡ true
      → DmaBw chip ts_lo ts_hi rand fuel cls_test_sub next n old stale chunks p test s ran
      → ran ≡ record { ret = bad_args; bus = s; result = λ r. r }
  DmaBw-refused bad (refuses began e) = e
  DmaBw-refused {chunks} {p} {test} {s} bad
        (ends addrs begun c ops began run signal current moved e) =
      absurd (none_begun _ _ (begin_refused rand chunks fuel p s bad) began)
