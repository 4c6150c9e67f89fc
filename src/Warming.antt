-- ===== src/Warming.antt =====
-- me/utils.c, `write_region`, `host_trash_cache` and `host_warm_cache`: the writes that thrash or warm the
-- cache of the host, the last one first. `rand` is as in Addresses.
pub mod Sweep
pub mod Steered
pub mod Warm
pub mod Ragged
pub mod Inside
pub mod Memory
pub mod ReadBack
use pciebench_nfp.Common.{
  ℕ, zero, suc, ◌+◌, ◌-◌, ◌*◌, ◌/◌, ◌<<<◌, ◌>>>◌, u32, bit_and, bit_or, Bool, true, false, ◌==◌,
  if◌then◌else◌, List, [], ◌∷◌, get_elem?, Outcome, done, checked, ◌>>=◌,
}
use pciebench_nfp.Runtime.Division.{mod_u32}
use pciebench_nfp.Addresses.{max_mem, chunk_sz}

-- `barcfg` programs the BAR from the two halves of an address; a write is 16 times one word.
pub data HostOp : Type 0 where
  barcfg : ℕ → ℕ → HostOp
  pcie_write : ℕ → ℕ → ℕ → HostOp

-- The locals that live across rounds, with the number of reads of the random register so far.
pub record Writer : Type 0 where
  pub addr_hi : ℕ
  pub addr_lo : ℕ
  pub old_chunk_idx : ℕ
  pub reads : ℕ
  pub ops : List HostOp

unfoldable pub word : ℕ → ℕ → ℕ
word pattern trans = bit_or (bit_and pattern 0xffff0000) (bit_and trans 0xffff)

module _ (rand : ℕ → ℕ) (chunks : List ℕ) (win_sz pattern : ℕ) (use_rand : Bool) where
  -- One round of the loop.
  pub write_line : ℕ → Writer → Outcome Writer
  write_line trans s = do
    let ops1 = pcie_write s.addr_hi s.addr_lo (word pattern trans) ∷ s.ops
    let idx = if use_rand then rand s.reads else u32 (trans + 1)
    let lin_addr = mod_u32 (u32 (idx <<< 6)) win_sz
    let chunk_idx = lin_addr >>> 22
    let chunk_off = bit_and lin_addr (chunk_sz - 1)
    base ← checked (get_elem? chunks chunk_idx)
    let hi = u32 (base >>> 32)
    let lo = u32 (bit_and base 0xffffffff + chunk_off)
    done (record {
      addr_hi = hi;
      addr_lo = lo;
      old_chunk_idx = chunk_idx;
      reads = if use_rand then s.reads + 1 else s.reads;
      ops = if chunk_idx == s.old_chunk_idx then ops1 else barcfg hi lo ∷ ops1;
    })

  -- The loop from `trans` on, with `n` rounds left.
  pub write_lines : ℕ → ℕ → Writer → Outcome Writer
  write_lines zero trans s = done s
  write_lines (suc n) trans s = do s' ← write_line trans s; write_lines n (trans + 1) s'

  pub write_region : Outcome (List HostOp)
  write_region = do
    base ← checked (get_elem? chunks 0)
    let hi = u32 (base >>> 32)
    let lo = bit_and base 0xffffffff
    s ← write_lines (u32 (2 * (win_sz / 64))) 0 (record {
      addr_hi = hi;
      addr_lo = lo;
      old_chunk_idx = 0;
      reads = 0;
      ops = barcfg hi lo ∷ [];
    })
    done s.ops

pub host_trash_cache : (ℕ → ℕ) → List ℕ → Outcome (List HostOp)
host_trash_cache rand chunks = write_region rand chunks max_mem 0xdead0000 true

pub host_warm_cache : (ℕ → ℕ) → List ℕ → ℕ → Outcome (List HostOp)
host_warm_cache rand chunks win_sz = write_region rand chunks win_sz 0xcafe0000 false
