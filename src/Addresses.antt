-- ===== src/Addresses.antt =====
-- me/utils.c, `dma_addr_init` and `dma_addr_from_idx`: the table of DMA addresses that a test
-- steps through. `rand n` is the `n`-th value read from the pseudo random number register, and
-- `chunks` is `chunk_dma_addrs`, which holds the DMA address of each chunk of host memory.
pub mod Linear
pub mod Choice
pub mod Table
pub mod Contract
pub mod Tabled
pub mod Undersized
use pciebench_nfp.Common.{
  ℕ, zero, suc, ◌+◌, ◌-◌, ◌*◌, ◌^◌, ◌<<<◌, ◌>>>◌, u32, u64, bit_and, bit_or, Bool, true, false,
  List, [], ◌∷◌, leb, ◌==◌, if◌then◌else◌, get_elem?, Outcome, done, no_end, checked, ◌>>=◌,
}
use pciebench_nfp.Runtime.Division.{mod_u32, div_u32}

-- me/pciebench.h
abbrev pub max_mem : ℕ
max_mem = 64 * 1024 * 1024

abbrev pub chunk_sz : ℕ
chunk_sz = 4 * 1024 * 1024

abbrev pub addr_array_sz : ℕ
addr_array_sz = 2 ^ 20

-- `LAT_FLAGS_RANDOM`
abbrev pub random : ℕ → Bool
random flags = if bit_and flags 4 == 0 then false else true

-- The macro of me/compat.h, on a `uint32_t`.
unfoldable pub roundup64 : ℕ → ℕ
roundup64 a = bit_and (u32 (a + (64 - 1))) 0xffffffc0

-- The arguments of `dma_addr_init`.
pub record Window : Type 0 where
  pub win_sz : ℕ
  pub trans_sz : ℕ
  pub h_off : ℕ
  pub flags : ℕ

unfoldable pub unit_sz : Window → ℕ
unit_sz w = roundup64 (u32 (w.trans_sz + w.h_off))

unfoldable pub units_in_win : Window → ℕ
units_in_win w = div_u32 w.win_sz (unit_sz w)

-- The linear address of transaction number `trans`.
unfoldable pub linear : Window → ℕ → ℕ
linear w trans = u32 (u32 (mod_u32 trans (units_in_win w) * unit_sz w) + w.h_off)

-- What is left of the 4k page.
unfoldable pub avail : ℕ → ℕ
avail lin = 0x1000 - bit_and lin 0xfff

-- The locals that live across entries, with the number of reads of the random register so far.
pub record Cursor : Type 0 where
  pub add : ℕ
  pub reads : ℕ

pub record Pick : Type 0 where
  pub lin_addr : ℕ
  pub cursor : Cursor

module _ (rand : ℕ → ℕ) (w : Window) where
  unfoldable pub candidate : ℕ → Cursor → ℕ
  candidate idx s = if random w.flags then rand s.reads else u32 (idx + s.add)

  unfoldable pub advance : Cursor → ℕ
  advance s = if random w.flags then s.reads + 1 else s.reads

  -- The inner loop: the next transaction that does not cross a 4k boundary.
  unfoldable pub pick : ℕ → ℕ → Cursor → Outcome Pick
  pick zero idx s = no_end
  pick (suc fuel) idx s =
      let lin = linear w (candidate idx s) in
      let again = pick fuel idx (record { add = u32 (s.add + 1); reads = advance s }) in
      if leb w.trans_sz (avail lin)
      then done (record { lin_addr = lin; cursor = record s { reads = advance s } })
      else again

-- The DMA address of a linear address, with the chunk's index in the top byte.
unfoldable pub table_entry : List ℕ → ℕ → Outcome ℕ
table_entry chunks lin = do
  let chunk_idx = lin >>> 22
  let chunk_off = bit_and lin (chunk_sz - 1)
  base ← checked (get_elem? chunks chunk_idx)
  done (bit_or (u64 (base + chunk_off)) (u64 (chunk_idx <<< 56)))

module _ (rand : ℕ → ℕ) (chunks : List ℕ) (w : Window) (fuel : ℕ) where
  -- The outer loop from index `idx` on, with `n` entries left.
  unfoldable pub fill : ℕ → ℕ → Cursor → Outcome (List ℕ)
  fill zero idx s = done []
  fill (suc n) idx s = do
    p ← pick rand w fuel idx s
    entry ← table_entry chunks p.lin_addr
    rest ← fill n (idx + 1) p.cursor
    done (entry ∷ rest)

  unfoldable pub dma_addr_init : Outcome (List ℕ)
  dma_addr_init = fill addr_array_sz 0 (record { add = 0; reads = 0 })

pub record Address : Type 0 where
  pub addr_hi : ℕ
  pub addr_lo : ℕ
  pub chunk_idx : ℕ

pub split_entry : ℕ → Address
split_entry dma_addr =
    let hi = u32 (dma_addr >>> 32) in
    record {
      addr_lo = bit_and dma_addr 0xffffffff;
      chunk_idx = bit_and (hi >>> 24) 0xff;
      addr_hi = bit_and hi 0xffffff;
    }

unfoldable pub dma_addr_from_idx : List ℕ → ℕ → Outcome Address
unfolding split_entry
dma_addr_from_idx dma_addrs idx = do
  dma_addr ← checked (get_elem? dma_addrs (bit_and idx (addr_array_sz - 1)))
  done (split_entry dma_addr)
