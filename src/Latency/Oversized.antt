-- ===== src/Latency/Oversized.antt =====
-- me/pcie_cmd.c, `cmd_lat` for transfers that `w_data` and `r_data` do not hold.
use pciebench_nfp.Common.{
  ℕ, zero, suc, ◌^◌, ◌≤◌, ◌<◌, ◌≡◌, ◌⊎◌, inl, inr, refl, arith, Bool, true, false, List, fault,
}
use pciebench_nfp.Addresses.{Address}
use pciebench_nfp.Addresses.Table.{IsMapped}
use pciebench_nfp.Addresses.Tabled.{IsOrdered, ordered-IsTabled}
use pciebench_nfp.Addresses.Linear.{IsAccepted}
use pciebench_nfp.Latency.{TestParams, Bus, max_trans, window, words, cmd_ops, cmd_rounds, cmd_lat}
use pciebench_nfp.Latency.Runs.{accepted, cmd_test}

-- The transfers that overrun the 16 words: those under one word, which make the count wrap to 32
-- words, and those above 64 bytes, as far as the five bits of the count go for a read.
abbrev pub IsOversized : Bool → ℕ → Type 0
IsOversized reads len = (len < 4) ⊎ ((68 ≤ len) × (len < 132)) ⊎ ((reads ≡ false) × (68 ≤ len))

cmd_ops_oversized :
    (reads : Bool) (t len : ℕ) (a : Address)
    → IsOversized reads len
    → cmd_ops (cmd_test reads) t len a ≡ fault
unfolding cmd_ops words
cmd_ops_oversized true t len a (inl small) = ground arith
cmd_ops_oversized true t len a (inr (inl (low, high))) = ground arith
cmd_ops_oversized true t len a (inr (inr (writes, low))) = cc
cmd_ops_oversized false t len a (inl small) = ground arith
cmd_ops_oversized false t len a (inr (inl (low, high))) = ground arith
cmd_ops_oversized false t len a (inr (inr (writes, low))) = ground arith

max_trans_positive : (flags : ℕ) → 0 < max_trans flags
unfolding max_trans
max_trans_positive flags = ground arith

module _ (ts_lo ts_hi : ℕ → ℕ) where
  cmd_rounds_oversized :
      (addrs : List ℕ) (reads : Bool) (len n t old : ℕ) (a : Address) (s : Bus)
      → 0 < n
      → IsOversized reads len
      → cmd_rounds ts_lo ts_hi addrs (cmd_test reads) len n t old a s ≡ fault
  unfolding cmd_rounds
  cmd_rounds_oversized addrs reads len zero t old a s some_left big = elim some_left [ ]
  cmd_rounds_oversized addrs reads len (suc n) t old a s some_left big =
      rw (cmd_rounds, cmd_ops_oversized reads t len a big) refl

  -- With checked arguments, mapped chunks, an order with enough fuel for it, and a transfer of less
  -- than 4 bytes or of 68 to 131, or a test with writes and a transfer of 68 or more: `cmd_lat`
  -- runs over the end of `w_data` or `r_data`.
  pub cmd_lat_overruns :
      (rand : ℕ → ℕ) (chunks : List ℕ) (fuel : ℕ) (p : TestParams)
      → IsAccepted (window p)
      → IsMapped chunks
      → ((n : ℕ) → rand n < 2 ^ 32)
      → IsOrdered rand (window p) fuel
      → (reads : Bool) (s : Bus) → IsOversized reads p.p1
      → cmd_lat ts_lo ts_hi rand chunks fuel p (cmd_test reads) s ≡ fault
  unfolding cmd_lat
  cmd_lat_overruns rand chunks fuel p ok mapped word ordered reads s big =
      let table = ordered-IsTabled rand chunks (window p) fuel ok mapped word ordered in
      rw
        (
          accepted p ok,
          table.returns,
          table.found 0,
          cmd_rounds_oversized table.addrs reads p.p1 (max_trans p.p0) 0 (table.entry 0).chunk_idx
              (table.entry 0) _ (max_trans_positive p.p0) big,
        )
        refl
