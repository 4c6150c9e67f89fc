-- ===== src/Lib.antt =====
-- A verification library for the PCIe micro-benchmarks of the NFP cards.
--
-- The program has four parts: firmware for the microengines of the card (me/), a kernel module
-- that gives it host memory (kernel/), a helper that starts a test from user space (user/), and
-- Python scripts around them. The library models the C code of the first three.
--
-- Common: tests on numbers, lists, 32-bit words, laws of the bit operations, and the result type of
--   code that may index out of bounds or not end.
-- Runtime.Division: `_div_mod_32`, `_mod_u32` and `_div_u32` of me/libnfcc.c, which the build for
--   the NFP-3200 links in for `/` and `%`.
-- Runtime.Unaligned: `ua_set_64_dram` of me/libnfcc.c for both byte orders; the compiler's shifts of two
--   registers are parameters with their documented results.
-- Nfp: the register values, bus addresses and descriptors of me/libnfp.c and me/libnfp.h for the two
--   chips (Me: ME numbers and signals; C2p: the BAR and the commands through it; Journal:
--   `mem_journal_setup` with `__log2` of me/compat.h, and the command that appends to a journal; Dma: the
--   DMA engines, with `pcie_dma_setup` of me/pcie_dma.c). The assembler instructions that carry these
--   words are not modelled.
-- Addresses: `dma_addr_init` and `dma_addr_from_idx` of me/utils.c, with the constants and flags of
--   me/pciebench.h and `roundup64` of me/compat.h. The division is that of Runtime.Division. A value
--   read from the random number register is a parameter. `chunk_dma_addrs` is a list, and an index
--   outside of it is a fault. The inner loop runs on fuel; a round more than there are units in the
--   window is enough in sequential order.
-- Bandwidth: `dma_bw` and `dma_bw_worker` of me/pcie_dma.c, as a step relation over any number of
--   worker threads. The atomic `cls_test_sub` is a parameter that returns the old value and leaves
--   the saturated difference. Bandwidth.Cluster is the same with the registers that each ME loads, the
--   set-up of the descriptors and the addresses, and with the store of `main` to `test_ctrl` once the
--   master has its signal, which an ME may load; the host is taken not to write `test_ctrl` and
--   `test_params` until all workers are done. Bandwidth.Master is `dma_bw` around the workers: its checks,
--   time stamps and result, and the operations that the DMAs are on the host's bus.
-- Driver.Buffer: `npb_buf_op`, `npb_buf_read` and `npb_buf_write` of kernel/nfp_pciebench_main.c.
--   `copy_from_user` and `copy_to_user` are parameters with their documented contract. The loop runs
--   on fuel, a round for each byte and one more; an access outside of the buffer would be a result
--   of its own. Driver.Buffer.Fresh is the pattern that `npb_init` writes to the chunks, the host being
--   little-endian.
-- Driver.Device: `npb_init`, `npb_remove`, `npb_pci_probe` and `npb_pci_remove` of the same file, on a
--   record of what the kernel has handed out. A record of outcomes says how each call of the kernel
--   ends, and a release of something that is not held is noted. Not modelled: the node number,
--   `pci_set_master`, and the names of the procfs entries.
-- Driver.Files: `npb_dma_addrs_show` and `npb_buf_sz_show` of the same file, as texts; the conversions
--   of `seq_printf` are parameters.
-- Latency: `dma_lat` of me/pcie_dma.c and `cmd_lat` of me/pcie_cmd.c, over the table of Addresses. What
--   a test does on the host's bus is a list of operations: a DMA with the address and the length as the
--   fields of its descriptor hold them (Latency.Descriptor; the descriptor itself is in Nfp.Dma), a
--   command with the address asked for. Latency.Bars follows the BAR, and where a command goes through it
--   by the decoding of Nfp.C2p.RoundTrip. `cmd_lat` faults where it runs over its 16 words of data; a read of a size that is not a
--   multiple of 4 is taken to move the whole words. Not modelled: the waits for signals. `__log2` of
--   the chunk size is 22 here and in Warming, as it is with the compiler for the NFP-6000.
-- Warming: `write_region`, `host_trash_cache` and `host_warm_cache` of me/utils.c, as lists of operations.
--   Warming.Sweep says where each write goes through the BAR as it stands at that time, by the decoding
--   of Nfp.C2p.RoundTrip. Warming.Memory and Warming.ReadBack follow the writes into the host's memory, where the chunks are
--   mapped at their DMA addresses, and out of it again through Driver.Buffer; the order of the bytes of a
--   word on the bus is a parameter.
-- Control: `main` of me/pciebench_main.c with the variables of me/shared.c; Control.Boot is what precedes
--   the loop. The bandwidth test is an argument of the loop; Control.Reports takes it to end in one of
--   the ways of Bandwidth.Master. Control.Confined follows its accesses of the host's memory.
-- Driver.Module: `nfp_pciebench_init` and `nfp_pciebench_exit`.
-- Helper: user/nfp-pciebench-helper.c. The options as `getopt` gives them, `strtoul`, the NFP library's
--   answers and the values read from the card are parameters; Helper.Cache has the writes that thrash
--   and warm the cache, the latter through Driver.Buffer. The polling loop runs on fuel, one round for
--   each read and one more; Helper.Served runs it against the loop of Control. The signs of `int` are read
--   from bit patterns, and overflow of `win_sz - 1` is left out.
-- Tests: runs on concrete inputs.
--
-- In the results, checked arguments are those of Addresses.Linear.IsAccepted: they pass the checks of the
-- tests, a transaction is not empty, and the window holds a whole unit and fits in memory. Mapped chunks are those of
-- Addresses.Table.IsMapped: there are 16, below 2 ^ 40, the DMA addresses that me/pciebench.h has room
-- for. Aligned chunks begin at multiples of their size.
--
-- Words are natural numbers with the wrap-around written out. The Python scripts, the assembler
-- start-up code and the build files are not modelled.
pub mod Common
pub mod Runtime
pub mod Addresses
pub mod Nfp
pub mod Latency
pub mod Warming
pub mod Control
pub mod Helper
pub mod Bandwidth
pub mod Driver
mod Tests
