-- ===== src/Nfp.antt =====
-- me/libnfp.c: the words that the firmware puts into registers and on the command bus, for both chips.
-- The assembler instructions that carry them are not modelled.
pub mod Me
pub mod C2p
pub mod Journal
pub mod Dma

-- With or without `__NFP_IS_3200`.
pub data Chip : Type 0 where
  nfp3200 nfp6000 : Chip

-- `sync_t` of me/compat.h
pub data Sync : Type 0 where
  sig_done ctx_swap sig_none : Sync
