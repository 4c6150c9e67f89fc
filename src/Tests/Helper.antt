-- ===== src/Tests/Helper.antt =====
-- Tests of the model of the user's helper.
use pciebench_nfp.Common.{
  ℕ, ◌≡◌, ◌+◌, ◌*◌, ◌/◌, ◌≤◌, inl, sym, min, refl, arith, true, [], ◌∷◌, done, no_end,
  if◌then◌else◌, ltb,
}
use pciebench_nfp.Driver.Buffer.{max_mem}
use pciebench_nfp.Helper.{finished, Settings, Answers, named, poll_loop, run}
use pciebench_nfp.Helper.Cache.{warm_cache}
use pciebench_nfp.Helper.Cache.Warmed.{IsFilled, warm_cache-IsFilled}
use pciebench_nfp.Helper.Waiting.{poll_loop_ends, run_unknown_waits}
use pciebench_nfp.Latency.{bad_args}
use pciebench_nfp.Control.{polls}
use pciebench_nfp.Tests.Buffer.{whole_copy, whole_copy-IsCopy, whole_copy_succeeds, ramp}
use pciebench_nfp.Tests.Control.{asked, served, bw, succeeded, accepted_test}
use pciebench_nfp.Control.Idle.{polls_after}
use pciebench_nfp.Control.Reports.{transactions}
use pciebench_nfp.Helper.Served.{run_known_ends}
use pciebench_nfp.Nfp.{nfp6000}
use pciebench_nfp.Tests.Addresses.{
  host_chunks-IsMapped, host_chunks-IsAligned, no_random, no_random-lt, small_window-IsAccepted,
  unit_128,
}
use pciebench_nfp.Tests.Bandwidth.{saturating, saturating_lem, always}
use pciebench_nfp.Tests.Master.{old, stale, ended}

-- The test runs during three reads.
abbrev three_reads : ℕ → ℕ
three_reads i = if ltb i 3 then 5 else 0

four_polls : poll_loop three_reads 11 0 5 ≡ done 4
four_polls = poll_loop_ends three_reads 3 10 0 5 (omega arith) refl (λ j h. ground arith) refl

warm_cache-IsFilled_example :
    IsFilled ramp.buf
      (min ((10000 + 4095) / 4096 * 4096) max_mem)
      (warm_cache whole_copy whole_copy 10000 ramp)
warm_cache-IsFilled_example =
    warm_cache-IsFilled whole_copy whole_copy whole_copy-IsCopy whole_copy_succeeds 10000 ramp
      (omega arith) (omega arith)

abbrev test_8 : Settings
test_8 = record { opt_nfp = 0; opt_test = 8; opt_win = 0; opt_ctrl = named (116 ∷ []) }

abbrev all_there : Answers
all_there = record {
  nfp_device_open = λ n. true;
  nfp_rtsym_lookup = λ s. true;
  open_buffer = λ n. true;
}

run_unknown_waits_example : run all_there (λ j. 8) 1000 test_8 ≡ no_end
unfolding polls
run_unknown_waits_example =
    run_unknown_waits nfp6000 (λ n. n) (λ n. 0) (λ n. 7) 65
      (λ p test chunks s. done (record { ret = bad_args; bus = s; result = λ r. r })) all_there
      (λ j. 8) 1000 test_8 asked (omega arith) (omega arith) refl (λ j. (0, asked, refl, refl)) refl
      refl refl

abbrev test_5 : Settings
test_5 = record test_8 { opt_test = 5 }

run_known_ends_example :
    (n : ℕ) × (run all_there three_reads 11 test_5 ≡ done (finished 0 5 n))
    × (n ≤ 4)
    × (succeeded.0.test_result.r0 ≡ transactions 5 0)
run_known_ends_example =
    run_known_ends nfp6000 (λ n. n) (λ n. 0) no_random 65 bw saturating always 64 old stale
      saturating_lem all_there three_reads 3 10 2 test_5 served succeeded.0 (omega arith)
      (omega arith) refl small_window-IsAccepted host_chunks-IsMapped host_chunks-IsAligned
      no_random-lt (inl (refl, omega (arith, unit_128))) tt
      (λ few. (omega (arith, few), omega (arith, few))) (ended.0, rw accepted_test refl, ended.1)
      (polls_after nfp6000 (λ n. n) (λ n. 0) no_random 65 bw served succeeded.0 succeeded.1
        succeeded.2 2)
      (sym succeeded.2) (omega arith) refl refl refl
