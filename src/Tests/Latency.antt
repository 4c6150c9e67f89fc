-- ===== src/Tests/Latency.antt =====
-- Tests of the models of the latency tests.
use pciebench_nfp.Common.{◌≡◌, refl, inl, inr, fault, arith, true, []}
use pciebench_nfp.Latency.{TestParams, Bus, cmd_lat}
use pciebench_nfp.Latency.Runs.{cmd_test}
use pciebench_nfp.Latency.Oversized.{cmd_lat_overruns}
use pciebench_nfp.Tests.Addresses.{
  host_chunks, host_chunks-IsMapped, no_random, no_random-lt, small_window-IsAccepted, unit_128,
}

abbrev pub asked : TestParams
asked = record { p0 = 0; p1 = 100; p2 = 8192; p3 = 28; p4 = 0 }

abbrev pub quiet : Bus
quiet = record { ops = []; test_journal = []; debug_journal = []; stamps = 0 }

-- The largest transfer of a command, in units of one line.
abbrev asked_64 : TestParams
asked_64 = record { p0 = 0; p1 = 64; p2 = 8192; p3 = 0; p4 = 0 }

-- A read of the 100 bytes of `asked` moves 25 words.
cmd_lat_overruns_example :
    cmd_lat (λ n. n) (λ n. 0) no_random host_chunks 65 asked (cmd_test true) quiet ≡ fault
cmd_lat_overruns_example =
    cmd_lat_overruns (λ n. n) (λ n. 0) no_random host_chunks 65 asked small_window-IsAccepted
      host_chunks-IsMapped no_random-lt (inl (refl, omega (arith, unit_128))) true quiet
      (inr (inl (omega arith, omega arith)))
