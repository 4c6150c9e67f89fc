-- ===== src/Nfp/Dma.antt =====
-- me/libnfp.c and me/libnfp.h: the DMA engines of the PCIe islands. A DMA is four words that are
-- written to the address of a queue; bit fields are laid out from the top bit down.
pub mod Fields
use pciebench_nfp.Common.{
  ℕ, ◌+◌, ◌-◌, ◌*◌, ◌/◌, ◌%◌, ◌^◌, ◌<<<◌, ◌>>>◌, u32, u64, sub32, bit_and, bit_or,
}
use pciebench_nfp.Nfp.{Chip, nfp3200, nfp6000}

-- `NFP_PCIE_DMA_TOPCI_HI` and its siblings.
pub data Queue : Type 0 where
  topci_hi topci_lo frompci_hi frompci_lo : Queue

pub queue_address : Chip → Queue → ℕ
queue_address nfp3200 topci_hi = 0x40000
queue_address nfp3200 topci_lo = 0x40010
queue_address nfp3200 frompci_hi = 0x40020
queue_address nfp3200 frompci_lo = 0x40030
queue_address nfp6000 topci_hi = 0x40000
queue_address nfp6000 topci_lo = 0x40040
queue_address nfp6000 frompci_hi = 0x40060
queue_address nfp6000 frompci_lo = 0x400a0

-- `__raw` of `struct nfp_pcie_dma_cmd`
pub record Cmd : Type 0 where
  pub raw0 : ℕ
  pub raw1 : ℕ
  pub raw2 : ℕ
  pub raw3 : ℕ

-- A write on the command bus: the high word of the address, the low word, and the words written.
pub record BusWrite : Type 0 where
  pub hi : ℕ
  pub lo : ℕ
  pub words : ℕ

-- `__pcie_dma_enq`; the NFP-3200 has no island in the address.
pub pcie_dma_enq : Chip → ℕ → Queue → BusWrite
pcie_dma_enq nfp3200 isl q = record { hi = 0; lo = queue_address nfp3200 q; words = 4 }
pcie_dma_enq nfp6000 isl q = record {
  hi = u32 (isl <<< 30);
  lo = queue_address nfp6000 q;
  words = 4;
}

-- `struct nfp_pcie_dma_cfg` of `pcie_dma_setup`: the four fields that it sets.
pub dma_cfg : ℕ → ℕ → ℕ → ℕ → ℕ
dma_cfg target_64_odd cpp_target_odd target_64_even cpp_target_even =
    (target_64_odd <<< 20) + (cpp_target_odd <<< 16) + (target_64_even <<< 4) + cpp_target_even

-- `__pcie_dma_cfg_set_pair`
pub pcie_dma_cfg_set_pair : ℕ → ℕ → BusWrite
pcie_dma_cfg_set_pair isl index = record {
  hi = u32 (isl <<< 30);
  lo = 0x400c0 + (bit_and (index >>> 1) 0x7 <<< 2);
  words = 1;
}

-- `union pcie_dma_completion`: `reserved1` is left as it was on the stack.
abbrev pub completion : ℕ → ℕ → ℕ → ℕ → ℕ
completion reserved1 meid ctx signo =
    let m = u32 (meid + 0x8) in
    (reserved1 % 2 * 2 ^ 15)
    + (m / 2 ^ 4 % 2 ^ 4 * 2 ^ 11)
    + (bit_and m 0xf <<< 7)
    + (ctx % 2 ^ 3 * 2 ^ 4)
    + signo % 2 ^ 4

-- `mode` on the NFP-6000.
abbrev pub mode : ℕ → ℕ → ℕ → ℕ
mode meid ctx signo =
    bit_or
      (bit_or (bit_or (bit_and meid 0xf <<< 13) (bit_and (meid >>> 4) 0x3f <<< 7))
        (bit_and ctx 0x7 <<< 4))
      signo

-- `pcie_dma_setup` of me/pcie_dma.c, from the ME's number, the context and the address of `nfp_buf`.
unfoldable pub pcie_dma_setup : Chip → ℕ → ℕ → ℕ → ℕ → ℕ → ℕ → ℕ → Cmd
pcie_dma_setup nfp3200 reserved1 meid ctx nfp_buf signo len d_off = record {
  raw0 = u32 (nfp_buf % 2 ^ 32 + d_off);
  raw1 = (completion reserved1 meid ctx signo <<< 16) + (1 <<< 12) + (7 <<< 8);
  raw2 = 0;
  raw3 = len % 2 ^ 12 * 2 ^ 20;
}
pcie_dma_setup nfp6000 reserved1 meid ctx nfp_buf signo len d_off = record {
  raw0 = u32 (nfp_buf % 2 ^ 32 + d_off);
  raw1 = bit_or (u32 (mode meid ctx signo <<< 14)) (bit_and 0 (2 ^ 14 - 1));
  raw2 = 0;
  raw3 = sub32 len 1 % 2 ^ 12 * 2 ^ 20;
}

-- The assignments to `pcie_addr_hi`, which has eight bits, and `pcie_addr_lo` before a DMA is enqueued.
unfoldable pub set_address : ℕ → ℕ → Cmd → Cmd
set_address addr_hi addr_lo cmd = record cmd {
  raw2 = addr_lo;
  raw3 = cmd.raw3 / 2 ^ 8 * 2 ^ 8 + addr_hi % 2 ^ 8;
}
