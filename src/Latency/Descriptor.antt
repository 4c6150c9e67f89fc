-- ===== src/Latency/Descriptor.antt =====
-- me/pcie_dma.c: the address and the length that a DMA's descriptor has room for.
use pciebench_nfp.Common.{ℕ, ◌^◌, ◌≤◌, ◌<◌, ◌≡◌, arith}
use pciebench_nfp.Nfp.{Chip, nfp3200, nfp6000}
use pciebench_nfp.Addresses.{Address}
use pciebench_nfp.Latency.{pcie_addr, dma_len}

-- The lengths up to 4096 that the descriptor can hold; the NFP-6000 stores the length less one.
abbrev pub IsSendable : Chip → ℕ → Type 0
IsSendable nfp3200 len = len < 2 ^ 12
IsSendable nfp6000 len = 1 ≤ len

pub dma_len_lem : (c : Chip) (len : ℕ) → IsSendable c len → len ≤ 4096 → dma_len c len ≡ len
unfolding dma_len
dma_len_lem nfp3200 len fits small = omega arith
dma_len_lem nfp6000 len some_bytes small = omega arith

pub pcie_addr_lem : (a : Address) → a.addr_hi < 2 ^ 8 → pcie_addr a ≡ a
unfolding pcie_addr
pcie_addr_lem a fits = ground arith
