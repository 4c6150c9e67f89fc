-- ===== src/Latency.antt =====
-- me/pcie_dma.c, `dma_lat`, and me/pcie_cmd.c, `cmd_lat`: the latency tests. What a test does to the
-- host is a list of operations, the last one first. `ts_lo n` and `ts_hi n` are what the `n`-th read
-- of a time stamp register gives, and `rand` is as in Addresses.
pub mod Descriptor
pub mod Rounds
pub mod Bars
pub mod Runs
pub mod Oversized
pub mod Confined
use pciebench_nfp.Common.{
  ℕ, ◌%◌, ◌^◌, zero, suc, ◌+◌, ◌*◌, ◌/◌, ◌<<<◌, u32, sub32, bit_and, bit_or, Bool, true, false,
  ◌||◌, ltb, ◌==◌, if◌then◌else◌, Option, none, some, List, [], ◌∷◌, ◌++◌, replicate, Outcome, done,
  fault, no_end, ◌>>=◌, leb, ◌&&◌,
}
use pciebench_nfp.Nfp.{Chip, nfp3200, nfp6000}
use pciebench_nfp.Addresses.{Window, Address, dma_addr_init, dma_addr_from_idx}

-- `struct test_params` and `struct test_result` of me/pciebench.h
pub record TestParams : Type 0 where
  pub p0 : ℕ
  pub p1 : ℕ
  pub p2 : ℕ
  pub p3 : ℕ
  pub p4 : ℕ

pub record TestResult : Type 0 where
  pub start_hi : ℕ
  pub start_lo : ℕ
  pub end_hi : ℕ
  pub end_lo : ℕ
  pub r0 : ℕ
  pub r1 : ℕ
  pub r2 : ℕ
  pub r3 : ℕ

-- `enum pciebench_tests`: the latency tests.
abbrev pub lat_cmd_rd : ℕ
lat_cmd_rd = 1

abbrev pub lat_cmd_wrrd : ℕ
lat_cmd_wrrd = 2

abbrev pub lat_dma_rd : ℕ
lat_dma_rd = 3

abbrev pub lat_dma_wrrd : ℕ
lat_dma_wrrd = 4

-- `flags & LAT_FLAGS_WARM`, `LAT_FLAGS_THRASH` and `LAT_FLAGS_LONG`
abbrev pub has_flag : ℕ → ℕ → Bool
has_flag flags bit = if bit_and flags bit == 0 then false else true

-- `PCIEBENCH_LAT_TRANS`, or `PCIEBENCH_JOURNAL_SZ` in a long test.
pub max_trans : ℕ → ℕ
max_trans flags = if has_flag flags 8 then 16 * 1024 * 1024 else 2 * 1024 * 1024

-- The sanity checks of the tests, on `uint32_t`.
unfoldable pub refused : TestParams → Bool
refused p = ltb 4096 (u32 (p.p1 + p.p3)) || ltb p.p2 (u32 (p.p1 + p.p3))

abbrev pub window : TestParams → Window
window p = record { win_sz = p.p2; trans_sz = p.p1; h_off = p.p3; flags = p.p0 }

-- The length of a transfer is beside its address; `barcfg` programs the BAR from an address.
pub data Op : Type 0 where
  trash_cache : Op
  warm_cache : ℕ → Op
  from_pci to_pci : Address → ℕ → Op
  barcfg : Address → Op
  pcie_read : Address → ℕ → Op
  pcie_write : Address → ℕ → List ℕ → Op

pub record Bus : Type 0 where
  pub ops : List Op
  pub test_journal : List ℕ
  pub debug_journal : List ℕ
  pub stamps : ℕ  -- reads of a time stamp so far

-- 0, -1 and -2, with what the test makes of the caller's `struct test_result`.
pub data Ret : Type 0 where
  success bad_args bad_test : Ret

pub record Ran : Type 0 where
  pub ret : Ret
  pub bus : Bus
  pub result : TestResult → TestResult

-- Thrashing and warming, before the loop.
pub prepare : TestParams → Bus → Bus
prepare p s =
    let s1 = if has_flag p.p0 2 then record s { ops = trash_cache ∷ s.ops } else s in
    if has_flag p.p0 1 then record s1 { ops = warm_cache p.p2 ∷ s1.ops } else s1

-- The address that a descriptor asks for: `pcie_addr_hi` has eight bits.
pub pcie_addr : Address → Address
pcie_addr a = record a { addr_hi = a.addr_hi % 2 ^ 8 }

-- The length that a descriptor asks for: the field has twelve bits, and holds the length on the
-- NFP-3200 and the length less one on the NFP-6000.
pub dma_len : Chip → ℕ → ℕ
dma_len nfp3200 len = len % 2 ^ 12
dma_len nfp6000 len = sub32 len 1 % 2 ^ 12 + 1

-- What one transaction of a DMA test issues; `none` is the `default` of the `switch`.
pub dma_ops : Chip → ℕ → ℕ → Address → Option (List Op)
dma_ops c test len a =
    if test == lat_dma_rd
    then some (from_pci (pcie_addr a) (dma_len c len) ∷ [])
    else if test == lat_dma_wrrd
    then some (from_pci (pcie_addr a) (dma_len c len) ∷ to_pci (pcie_addr a) (dma_len c len) ∷ [])
    else none

-- The data of a write in transaction `trans`, the same word for each word of the transfer.
pub pattern : ℕ → ℕ → List ℕ
pattern trans len = replicate (len / 4) (bit_or 0xbeef (u32 (sub32 0xffff trans <<< 16)))

-- The number of words that `_PCIE_C2P_CMD` moves for a size: one less in a field of five bits.
unfoldable pub words : ℕ → ℕ
words size = sub32 (size / 4) 1 % 2 ^ 5 + 1

-- `w_data` and `r_data` have 16 words; a test that fills or moves more runs over their end.
unfoldable pub cmd_ops : ℕ → ℕ → ℕ → Address → Outcome (Option (List Op))
unfolding words
cmd_ops test trans len a =
    if test == lat_cmd_rd
    then if leb (words len) 16 then done (some (pcie_read a len ∷ [])) else fault
    else if test == lat_cmd_wrrd
    then if leb (len / 4) 16 && leb (words len) 16
      then done (some (pcie_read a len ∷ pcie_write a len (pattern trans len) ∷ []))
      else fault
    else done none

module _ (ts_lo ts_hi : ℕ → ℕ) where
  -- A transaction between two time stamps, with what it journals.
  pub timed : List Op → Address → Bus → Bus
  timed ops a s =
      let t0 = ts_lo s.stamps in
      let t1 = ts_lo (s.stamps + 1) in
      record {
        ops = ops ++ s.ops;
        test_journal = sub32 t1 t0 ∷ s.test_journal;
        debug_journal = a.addr_lo ∷ a.addr_hi ∷ s.debug_journal;
        stamps = s.stamps + 2;
      }

  module _ (addrs : List ℕ) (test len : ℕ) where
    -- The loop of `dma_lat` from `trans` on, with `n` rounds left and the address `a` at hand.
    pub dma_rounds : Chip → ℕ → ℕ → Address → Bus → Outcome (Bool × Bus)
    dma_rounds c zero trans a s = done (true, s)
    dma_rounds c (suc n) trans a s = elim (dma_ops c test len a) [
      | none ↦ done (false, record s { stamps = s.stamps + 1 })
      | some ops ↦ do
        a' ← dma_addr_from_idx addrs trans
        dma_rounds c n (trans + 1) a' (timed ops a s)
    ]

    -- The loop of `cmd_lat`: the BAR is programmed anew when the chunk changes.
    pub cmd_rounds : ℕ → ℕ → ℕ → Address → Bus → Outcome (Bool × Bus)
    cmd_rounds zero trans old_chunk_idx a s = done (true, s)
    cmd_rounds (suc n) trans old_chunk_idx a s = elim (cmd_ops test trans len a) [
      | fault ↦ fault
      | no_end ↦ no_end
      | done none ↦ done (false, record s { stamps = s.stamps + 1 })
      | done (some ops) ↦ do
        a' ← dma_addr_from_idx addrs trans
        let s1 = timed ops a s
        let s2 =
            if a'.chunk_idx == old_chunk_idx then s1 else record s1 { ops = barcfg a' ∷ s1.ops }
        cmd_rounds n (trans + 1) a'.chunk_idx a' s2
    ]

  -- The results, from the number of the first time stamp and the bus after the loop.
  unfoldable pub report : ℕ → ℕ → Bool × Bus → Ran
  report start trans (false, s) = record {
    ret = bad_test;
    bus = s;
    result = λ r. record r { start_lo = ts_lo start; start_hi = ts_hi (start + 1) };
  }
  report start trans (true, s) = record {
    ret = success;
    bus = record s { stamps = s.stamps + 2 };
    result = λ r. record {
      start_lo = ts_lo start;
      start_hi = ts_hi (start + 1);
      end_lo = ts_lo s.stamps;
      end_hi = ts_hi (s.stamps + 1);
      r0 = trans;
      r1 = 0;
      r2 = 0;
      r3 = 0;
    };
  }

  module _ (rand : ℕ → ℕ) (chunks : List ℕ) (fuel : ℕ) where
    unfoldable pub dma_lat : Chip → TestParams → ℕ → Bus → Outcome Ran
    dma_lat c p test s =
        let s1 = prepare p s in
        let run = (do
          addrs ← dma_addr_init rand chunks (window p) fuel
          a ← dma_addr_from_idx addrs 0
          r ←
              dma_rounds addrs test p.p1 c (max_trans p.p0) 0 a
                (record s1 { stamps = s.stamps + 2 })
          done (report s.stamps (max_trans p.p0) r)) in
        if refused p then done (record { ret = bad_args; bus = s; result = λ r. r }) else run

    unfoldable pub cmd_lat : TestParams → ℕ → Bus → Outcome Ran
    cmd_lat p test s =
        let s1 = prepare p s in
        let run = (do
          addrs ← dma_addr_init rand chunks (window p) fuel
          a ← dma_addr_from_idx addrs 0
          let s2 = record s1 { ops = barcfg a ∷ s1.ops; stamps = s.stamps + 2 }
          r ← cmd_rounds addrs test p.p1 (max_trans p.p0) 0 a.chunk_idx a s2
          done (report s.stamps (max_trans p.p0) r)) in
        if refused p then done (record { ret = bad_args; bus = s; result = λ r. r }) else run
