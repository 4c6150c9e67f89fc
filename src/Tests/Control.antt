-- ===== src/Tests/Control.antt =====
-- Tests of the model of the card's control loop.
use pciebench_nfp.Common.{
  ℕ, ◌-◌, ◌/◌, ◌%◌, ◌^◌, ◌<◌, ◌≡◌, refl, arith, inl, true, false, if◌then◌else◌, none, some, [],
  replicate, get_elem?, length, done,
}
use pciebench_nfp.Nfp.{nfp3200, nfp6000}
use pciebench_nfp.Latency.{TestResult, bad_args, refused}
use pciebench_nfp.Bandwidth.Master.{dma_bw_begin, refuses}
use pciebench_nfp.Bandwidth.Master.Refused.{begin_refused}
use pciebench_nfp.Control.{Card, set_up, poll, polls, polls_unknown}
use pciebench_nfp.Control.Reports.{BwTest, Succeeds, poll-refused, poll-Succeeds}
use pciebench_nfp.Control.Confined.{StaysConfined, poll-StaysConfined}
use pciebench_nfp.Control.Boot.{Ready, controls, boot, boot_pattern}
use pciebench_nfp.Tests.Latency
use pciebench_nfp.Tests.Latency.{quiet}
use pciebench_nfp.Tests.Addresses.{
  host_chunks, host_chunks-IsMapped, host_chunks-IsAligned, no_random, no_random-lt,
  small_window-IsAccepted, unit_128,
}
use pciebench_nfp.Tests.Bandwidth.{saturating, saturating_lem, always}
use pciebench_nfp.Tests.Master.{old, stale, ended}

abbrev pub no_result : TestResult
no_result = record {
  start_hi = 0;
  start_lo = 0;
  end_hi = 0;
  end_lo = 0;
  r0 = 0;
  r1 = 0;
  r2 = 0;
  r3 = 0;
}

-- The host asks for test 8.
abbrev pub asked : Card
asked = record {
  test_ctrl = 8;
  test_params = record { p0 = 0; p1 = 64; p2 = 4096; p3 = 0; p4 = 0 };
  test_result = no_result;
  host_dma_addrs = replicate 16 0x1000_0000;
  mailbox = (0, 0, 0, 0);
  chunk_dma_addrs = replicate 16 0;
  result = no_result;
  bus = record { ops = []; test_journal = []; debug_journal = []; stamps = 0 };
}

polls_unknown_example :
    polls nfp6000
      (λ n. n)
      (λ n. 0)
      (λ n. 7)
      65
      (λ p test chunks s. done (record { ret = bad_args; bus = s; result = λ r. r }))
      100
      asked
    ≡ done (set_up asked)
polls_unknown_example =
    polls_unknown nfp6000 (λ n. n) (λ n. 0) (λ n. 7) 65
      (λ p test chunks s. done (record { ret = bad_args; bus = s; result = λ r. r })) 99 asked
      (omega arith) (omega arith)

-- The host asks for a bandwidth test, with its memory mapped.
abbrev pub served : Card
served = record asked {
  test_ctrl = 5;
  test_params = Latency.asked;
  host_dma_addrs = host_chunks;
  bus = quiet;
}

-- A transaction that is larger than a page.
abbrev oversized : Card
oversized = record served { test_params = record { p0 = 0; p1 = 5000; p2 = 8192; p3 = 0; p4 = 0 } }

abbrev pub bw : BwTest
bw p test chunks s =
    if refused p then done (record { ret = bad_args; bus = s; result = λ r. r }) else done ended.0

oversized-refused : refused oversized.test_params ≡ true
unfolding refused
oversized-refused = refl

oversized_begin : dma_bw_begin no_random host_chunks 65 oversized.test_params quiet ≡ done none
oversized_begin =
    begin_refused no_random host_chunks 65 oversized.test_params quiet oversized-refused

poll-refused_example :
    poll nfp6000 (λ n. n) (λ n. 0) no_random 65 bw oversized
    ≡ done (record (set_up oversized) { test_ctrl = 2 ^ 32 - 1; test_result = no_result })
poll-refused_example =
    poll-refused nfp6000 (λ n. n) (λ n. 0) no_random 65 bw saturating always 64 old stale
      saturating_lem oversized (omega arith) (omega arith) oversized-refused
      (
        record { ret = bad_args; bus = quiet; result = λ r. r },
        rw oversized-refused refl,
        refuses oversized_begin refl,
      )

pub accepted_test : refused served.test_params ≡ false
unfolding refused
accepted_test = refl

pub succeeded : Succeeds served (poll nfp6000 (λ n. n) (λ n. 0) no_random 65 bw served)
succeeded =
    poll-Succeeds nfp6000 (λ n. n) (λ n. 0) no_random 65 bw saturating always 64 old stale
      saturating_lem served (omega arith) (omega arith) small_window-IsAccepted host_chunks-IsMapped
      host_chunks-IsAligned no_random-lt (inl (refl, omega (arith, unit_128))) tt
      (λ few. (omega (arith, few), omega (arith, few))) (ended.0, rw accepted_test refl, ended.1)

poll-Succeeds_example : Succeeds served (poll nfp6000 (λ n. n) (λ n. 0) no_random 65 bw served)
poll-Succeeds_example =
    poll-Succeeds nfp6000 (λ n. n) (λ n. 0) no_random 65 bw saturating always 64 old stale
      saturating_lem served (omega arith) (omega arith) small_window-IsAccepted host_chunks-IsMapped
      host_chunks-IsAligned no_random-lt (inl (refl, omega (arith, unit_128))) tt
      (λ few. (omega (arith, few), omega (arith, few))) (ended.0, rw accepted_test refl, ended.1)

poll-StaysConfined_example :
    StaysConfined nfp6000 served.host_dma_addrs
      (poll nfp6000 (λ n. n) (λ n. 0) no_random 65 bw served)
poll-StaysConfined_example =
    poll-StaysConfined nfp6000 (λ n. n) (λ n. 0) no_random 65 bw saturating always 64 old stale
      saturating_lem served (omega arith) (omega arith) small_window-IsAccepted (omega arith)
      host_chunks-IsMapped host_chunks-IsAligned no_random-lt (inl (refl, omega (arith, unit_128)))
      tt (λ few. (omega (arith, few), omega (arith, few))) (λ dma. omega arith)
      (ended.0, rw accepted_test refl, ended.1) tt

boot_pattern_example :
    (r : Ready) × (boot nfp3200 0 0x8000_0000 0x1_4000_0000 0x1_8000_0000 ≡ controls r)
    × (length r.nfp_buf ≡ 1024)
    × ((i : ℕ)
        → i < 1024
        → (w : ℕ) × (get_elem? r.nfp_buf i ≡ some w)
          × (w / 2 ^ 48 ≡ i)
          × (w / 2 ^ 32 % 2 ^ 16 ≡ 0xbeef)
          × (w / 2 ^ 16 % 2 ^ 16 ≡ i)
          × (w % 2 ^ 16 ≡ 0xb00f))
boot_pattern_example = boot_pattern nfp3200 0x8000_0000 0x1_4000_0000 0x1_8000_0000
