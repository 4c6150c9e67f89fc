-- ===== src/Tests/Warming.antt =====
-- Tests of the model of cache warming and thrashing.
use pciebench_nfp.Common.{
  ℕ, zero, suc, ◌≡◌, ◌+◌, ◌^◌, ◌%◌, some, get_elem?, ◌*◌, ◌/◌, ◌++◌, arith, true,
}
use pciebench_nfp.Nfp.{nfp3200, nfp6000}
use pciebench_nfp.Warming.{write_region, host_warm_cache}
use pciebench_nfp.Warming.Sweep.{Sweeps}
use pciebench_nfp.Warming.Inside.{IsOnLines, write_region-IsOnLines}
use pciebench_nfp.Warming.Warm.{pass, host_warm_cache-Sweeps}
use pciebench_nfp.Warming.Ragged.{Overruns, host_warm_cache-Overruns}
use pciebench_nfp.Warming.Memory.{IsApart}
use pciebench_nfp.Warming.ReadBack.{IsReadBack, host_warm_cache-IsReadBack}
use pciebench_nfp.Tests.Buffer.{whole_copy, whole_copy-IsCopy, whole_copy_succeeds}
use pciebench_nfp.Tests.Addresses.{
  mapped_from, host_chunks, host_chunks-IsMapped, host_chunks-IsAligned,
}

write_region-IsOnLines_example :
    IsOnLines nfp3200 0x7ffff host_chunks 0x400_0000
      (2 * (0x400_0000 / 64))
      (write_region (λ n. n * 77777) host_chunks 0x400_0000 0xdead0000 true)
write_region-IsOnLines_example =
    write_region-IsOnLines nfp3200 0x7ffff (λ n. n * 77777) host_chunks host_chunks-IsMapped
      host_chunks-IsAligned 0x400_0000 0xdead0000 true (omega arith) (omega arith) (omega arith)

host_warm_cache-Sweeps_example :
    Sweeps nfp6000 9
      (host_warm_cache (λ n. 0) host_chunks 0x80_0000)
      (pass host_chunks (0x80_0000 / 64) (0x80_0000 / 64) ++ pass host_chunks 0 (0x80_0000 / 64))
host_warm_cache-Sweeps_example =
    host_warm_cache-Sweeps (λ n. 0) host_chunks 0x80_0000 (omega arith) (omega arith) (omega arith)
      nfp6000 9 host_chunks-IsMapped host_chunks-IsAligned

-- A window of a chunk and 100 bytes.
host_warm_cache-Overruns_example :
    Overruns nfp6000 9 host_chunks (host_warm_cache (λ n. 0) host_chunks 0x40_0064)
host_warm_cache-Overruns_example =
    host_warm_cache-Overruns (λ n. 0) host_chunks 0x40_0064 nfp6000 9 host_chunks-IsMapped
      host_chunks-IsAligned (λ e. absurd (omega (arith, e))) (omega arith) (omega arith)

mapped_from_lem :
    (n lo i base : ℕ) → get_elem? (mapped_from n lo) i ≡ some base → base ≡ lo + i * 0x40_0000
mapped_from_lem zero lo i base h = cc
mapped_from_lem (suc n) lo zero base h = ground arith
mapped_from_lem (suc n) lo (suc i) base h =
    omega (arith, mapped_from_lem n (lo + 0x40_0000) i base h)

host_chunks-IsApart : IsApart host_chunks
host_chunks-IsApart i j base h k =
    omega
      (arith, mapped_from_lem 16 0x1_0000_0000 i base h, mapped_from_lem 16 0x1_0000_0000 j base k)

-- The bytes of a word, the lowest first.
abbrev lowest_first : ℕ → ℕ → ℕ
lowest_first w i = w / 2 ^ (8 * i) % 2 ^ 8

-- Two chunks are warmed, and 100 bytes read around their border.
host_warm_cache-IsReadBack_example :
    IsReadBack nfp6000 9 lowest_first host_chunks 0x80_0000
      (λ x. 0)
      whole_copy
      whole_copy
      (λ k. 7)
      100
      0x3f_fff0
      (host_warm_cache (λ n. 0) host_chunks 0x80_0000)
host_warm_cache-IsReadBack_example =
    host_warm_cache-IsReadBack nfp6000 9 lowest_first (λ n. 0) host_chunks 0x80_0000
      host_chunks-IsMapped host_chunks-IsAligned host_chunks-IsApart (omega arith) (omega arith)
      (omega arith) whole_copy whole_copy whole_copy-IsCopy whole_copy_succeeds (λ x. 0) (λ k. 7)
      100 0x3f_fff0 (omega arith)
