-- ===== src/Driver/Files.antt =====
-- kernel/nfp_pciebench_main.c: the procfs files with the DMA addresses and the size of the buffer. What
-- `seq_printf` prints for `%llx` and `%u` is a parameter; a text is a list of character codes.
pub mod Lines
use pciebench_nfp.Common.{ℕ, zero, suc, ◌+◌, List, [], ◌∷◌, ◌++◌}
use pciebench_nfp.Driver.Buffer.{chunks, max_mem}

abbrev pub newline : ℕ
newline = 10

-- The loop of `npb_dma_addrs_show` from chunk `i` on, with `n` chunks left.
pub show_from : (ℕ → List ℕ) → (ℕ → ℕ) → ℕ → ℕ → List ℕ
show_from llx buf_dma_addrs zero i = []
show_from llx buf_dma_addrs (suc n) i =
    b'0' ∷ b'x' ∷ llx (buf_dma_addrs i) ++ newline ∷ show_from llx buf_dma_addrs n (i + 1)

pub npb_dma_addrs_show : (ℕ → List ℕ) → (ℕ → ℕ) → List ℕ
npb_dma_addrs_show llx buf_dma_addrs = show_from llx buf_dma_addrs chunks 0

pub npb_buf_sz_show : (ℕ → List ℕ) → List ℕ
npb_buf_sz_show u = u max_mem ++ newline ∷ []
