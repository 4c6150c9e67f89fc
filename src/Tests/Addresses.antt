-- ===== src/Tests/Addresses.antt =====
-- Tests of the model of me/utils.c's address table.
use pciebench_nfp.Common.{
  ℕ, ◌≡◌, ◌+◌, ◌*◌, ◌^◌, ◌%◌, ◌<◌, ◌≤◌, refl, arith, List, [], ◌∷◌, zero, suc, true, leb, get_elem?,
  some, done, fault,
}
use pciebench_nfp.Addresses.{
  Window, roundup64, unit_sz, units_in_win, linear, avail, candidate, advance, pick, table_entry,
  addr_array_sz, fill, chunk_sz, dma_addr_init,
}
use pciebench_nfp.Runtime.Division.{mod_u32, div_u32, div_mod_32}
use pciebench_nfp.Addresses.Linear.{IsAccepted}
use pciebench_nfp.Addresses.Table.{IsMapped}
use pciebench_nfp.Addresses.Contract.{
  IsServed, sequential-IsServed, random-IsServed, aligned-IsServed,
}
use pciebench_nfp.Warming.Sweep.{IsAligned}
use pciebench_nfp.Addresses.Undersized.{undersized-faults}

abbrev pub mapped_from : ℕ → ℕ → List ℕ
mapped_from zero base = []
mapped_from (suc n) base = base ∷ mapped_from n (base + 0x40_0000)

abbrev pub host_chunks : List ℕ
host_chunks = mapped_from 16 0x1_0000_0000

pub no_random : ℕ → ℕ
no_random n = 0

abbrev pub small_window : Window
small_window = record { win_sz = 8192; trans_sz = 100; h_off = 28; flags = 0 }

abbrev random_window : Window
random_window = record { win_sz = 8192; trans_sz = 100; h_off = 28; flags = 4 }

-- 192-byte units: the one from 4032 would cross a page, so the order skips it.
abbrev uneven_window : Window
uneven_window = record { win_sz = 8192; trans_sz = 160; h_off = 8; flags = 0 }

four_entries :
    fill no_random host_chunks small_window 1 4 0 (record { add = 0; reads = 0 })
    ≡ done (0x1_0000_001c ∷ 0x1_0000_009c ∷ 0x1_0000_011c ∷ 0x1_0000_019c ∷ [])
unfolding fill pick linear avail candidate advance table_entry unit_sz units_in_win roundup64
    mod_u32 div_u32 div_mod_32
four_entries = refl

pub host_chunks_within :
    (n lo i base : ℕ)
    → get_elem? (mapped_from n lo) i ≡ some base
    → base + chunk_sz ≤ lo + n * chunk_sz
host_chunks_within zero lo i base h = cc
host_chunks_within (suc n) lo zero base h = ground arith
host_chunks_within (suc n) lo (suc i) base h =
    omega (arith, host_chunks_within n (lo + 0x40_0000) i base h)

pub host_chunks-IsMapped : IsMapped host_chunks
host_chunks-IsMapped = record {
  count = refl;
  within = λ i base h. omega (arith, host_chunks_within 16 0x1_0000_0000 i base h);
}

pub unit_128 :
    (unit_sz small_window ≡ 128) × (unit_sz random_window ≡ 128) × (units_in_win small_window ≡ 64)
unfolding unit_sz units_in_win roundup64 mod_u32 div_u32 div_mod_32
unit_128 = (refl, refl, refl)

pub small_window-IsAccepted : IsAccepted small_window
small_window-IsAccepted = record {
  in_page = omega arith;
  not_empty = omega arith;
  unit_fits = omega (arith, unit_128);
  in_memory = omega arith;
}

random_window-IsAccepted : IsAccepted random_window
random_window-IsAccepted = record {
  in_page = omega arith;
  not_empty = omega arith;
  unit_fits = omega (arith, unit_128);
  in_memory = omega arith;
}

pub no_random-lt : (n : ℕ) → no_random n < 2 ^ 32
unfolding no_random
no_random-lt n = omega arith

sequential-IsServed_example : IsServed no_random host_chunks small_window 65 3_000_000 (λ lin. Unit)
sequential-IsServed_example =
    sequential-IsServed no_random host_chunks small_window 65 small_window-IsAccepted
      host_chunks-IsMapped no_random-lt refl (omega (arith, unit_128)) 3_000_000

no_random_fits : (n : ℕ) → leb 100 (avail (linear random_window (no_random (n + 0)))) ≡ true
unfolding no_random linear avail unit_sz units_in_win roundup64 mod_u32 div_u32 div_mod_32
no_random_fits n = refl

random-IsServed_example : IsServed no_random host_chunks random_window 1 7 (λ lin. Unit)
random-IsServed_example =
    random-IsServed no_random host_chunks random_window 1 random_window-IsAccepted
      host_chunks-IsMapped no_random-lt refl (λ n. (0, omega arith, no_random_fits n)) 7

aligned-IsServed_example :
    IsServed no_random host_chunks small_window 1 70
      (λ lin. lin ≡ 70 % addr_array_sz % units_in_win small_window * unit_sz small_window + 28)
aligned-IsServed_example =
    aligned-IsServed no_random host_chunks small_window small_window-IsAccepted host_chunks-IsMapped
      no_random-lt refl (rw unit_128.0 refl) 70

-- A window of 100 bytes takes a transaction of 80, but its unit of 128 does not fit.
abbrev tight_window : Window
tight_window = record { win_sz = 100; trans_sz = 80; h_off = 0; flags = 0 }

tight_unit : unit_sz tight_window ≡ 128
unfolding unit_sz units_in_win roundup64 mod_u32 div_u32 div_mod_32
tight_unit = refl

undersized-faults_example : dma_addr_init no_random host_chunks tight_window 2 ≡ fault
undersized-faults_example =
    undersized-faults tight_window (omega arith) (omega arith) (omega (arith, tight_unit)) no_random
      host_chunks 1 refl

host_chunks_aligned :
    (n lo i base : ℕ)
    → lo % chunk_sz ≡ 0
    → get_elem? (mapped_from n lo) i ≡ some base
    → base % chunk_sz ≡ 0
host_chunks_aligned zero lo i base at h = cc
host_chunks_aligned (suc n) lo zero base at h = ground arith
host_chunks_aligned (suc n) lo (suc i) base at h =
    host_chunks_aligned n (lo + 0x40_0000) i base (omega arith) h

pub host_chunks-IsAligned : IsAligned host_chunks
host_chunks-IsAligned i base h = host_chunks_aligned 16 0x1_0000_0000 i base (omega arith) h
