-- ===== src/Nfp/Dma/Fields.antt =====
-- What a DMA descriptor holds after `pcie_dma_setup` and the assignment of its address.
use pciebench_nfp.Common.{
  ℕ, ◌+◌, ◌-◌, ◌*◌, ◌/◌, ◌%◌, ◌^◌, ◌≤◌, ◌<◌, ◌≡◌, arith, u32, bit_and, bit_or,
}
use pciebench_nfp.Common.Bits.{and_low, or_disjoint, bit_or-zero}
use pciebench_nfp.Nfp.{Chip, nfp3200, nfp6000}
use pciebench_nfp.Nfp.Dma.{Cmd, mode, pcie_dma_setup, set_address}

-- The longest transfer that the length field can hold; the NFP-6000 stores one less than the length.
abbrev pub max_len : Chip → ℕ
max_len nfp3200 = 2 ^ 12 - 1
max_len nfp6000 = 2 ^ 12

-- The fields of a descriptor. The completion signal goes to a context of an ME of an island or cluster.
pub record Descriptor : Type 0 where
  pub pcie_addr : ℕ
  pub cpp_addr : ℕ
  pub length : ℕ
  pub island : ℕ
  pub me : ℕ
  pub ctx : ℕ
  pub signo : ℕ

abbrev pub descriptor : Chip → Cmd → Descriptor
descriptor nfp3200 cmd = record {
  pcie_addr = cmd.raw3 % 2 ^ 8 * 2 ^ 32 + cmd.raw2;
  cpp_addr = cmd.raw0;
  length = cmd.raw3 / 2 ^ 20;
  island = cmd.raw1 / 2 ^ 27 % 2 ^ 4;
  me = cmd.raw1 / 2 ^ 23 % 2 ^ 4;
  ctx = cmd.raw1 / 2 ^ 20 % 2 ^ 3;
  signo = cmd.raw1 / 2 ^ 16 % 2 ^ 4;
}
descriptor nfp6000 cmd = record {
  pcie_addr = cmd.raw3 % 2 ^ 8 * 2 ^ 32 + cmd.raw2;
  cpp_addr = cmd.raw0;
  length = cmd.raw3 / 2 ^ 20 + 1;
  island = cmd.raw1 / 2 ^ 21 % 2 ^ 6;
  me = cmd.raw1 / 2 ^ 27 % 2 ^ 4;
  ctx = cmd.raw1 / 2 ^ 18 % 2 ^ 3;
  signo = cmd.raw1 / 2 ^ 14 % 2 ^ 4;
}

-- The number that the firmware puts in for the ME: the NFP-3200 counts from 8 on.
abbrev pub numbered : Chip → ℕ → ℕ
numbered nfp3200 meid = u32 (meid + 8)
numbered nfp6000 meid = meid

abbrev pub island_bits : Chip → ℕ
island_bits nfp3200 = 4
island_bits nfp6000 = 6

mode_sum :
    (meid ctx signo : ℕ)
    → ctx < 8
    → signo < 16
    → mode meid ctx signo
      ≡ meid % 2 ^ 4 * 2 ^ 13 + meid / 2 ^ 4 % 2 ^ 6 * 2 ^ 7 + ctx * 2 ^ 4 + signo
mode_sum meid ctx signo hc hs = omega (
  arith,
  and_low 4 meid,
  and_low 6 (meid / 2 ^ 4),
  and_low 3 ctx,
  or_disjoint 13 (bit_and meid 0xf * 2 ^ 13) (bit_and (meid / 2 ^ 4) 0x3f * 2 ^ 7),
  or_disjoint 7 (bit_or (bit_and meid 0xf * 2 ^ 13) (bit_and (meid / 2 ^ 4) 0x3f * 2 ^ 7))
      (bit_and ctx 7 * 2 ^ 4),
  or_disjoint 4
      (bit_or (bit_or (bit_and meid 0xf * 2 ^ 13) (bit_and (meid / 2 ^ 4) 0x3f * 2 ^ 7))
        (bit_and ctx 7 * 2 ^ 4))
      signo,
)

-- For a transfer of at least one byte that the length field can hold, on either chip: the descriptor
-- holds the length, the address in the card's buffer modulo `2 ^ 32`, and where the completion signal
-- goes; of the address in host memory it holds the low 40 bits.
pub pcie_dma_setup_fields :
    (c : Chip) (reserved1 meid ctx nfp_buf signo len d_off addr_hi addr_lo : ℕ)
    → ctx < 8
    → signo < 16
    → 0 < len
    → len ≤ max_len c
    → addr_lo < 2 ^ 32
    → descriptor c
        (set_address addr_hi addr_lo (pcie_dma_setup c reserved1 meid ctx nfp_buf signo len d_off))
      ≡ record {
        pcie_addr = (addr_hi * 2 ^ 32 + addr_lo) % 2 ^ 40;
        cpp_addr = (nfp_buf + d_off) % 2 ^ 32;
        length = len;
        island = numbered c meid / 2 ^ 4 % 2 ^ island_bits c;
        me = numbered c meid % 2 ^ 4;
        ctx = ctx;
        signo = signo;
      }
unfolding pcie_dma_setup set_address
pcie_dma_setup_fields nfp3200 r m x b s len d hi lo hx hs pos fits low =
    ground (arith, and_low 4 (u32 (m + 8)))
pcie_dma_setup_fields nfp6000 r m x b s len d hi lo hx hs pos fits low =
    ground (arith, mode_sum m x s hx hs, bit_or-zero (u32 (mode m x s * 2 ^ 14)))
