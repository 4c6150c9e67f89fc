-- ===== src/Nfp/Me.antt =====
-- me/libnfp.c: the number of a microengine, and the signals between threads.
pub mod Fields
use pciebench_nfp.Common.{ℕ, ◌+◌, ◌-◌, ◌*◌, ◌/◌, ◌^◌, ◌<<<◌, ◌>>>◌, u32, sub32, bit_and, bit_or}
use pciebench_nfp.Nfp.{Chip, nfp3200, nfp6000}

-- `__ME`, from what `local_csr_active_ctx_sts` holds: the mask of the island or cluster number, and
-- the number itself.
pub island_mask : Chip → ℕ
island_mask nfp3200 = 0xf
island_mask nfp6000 = 0x3f

unfoldable pub me_id : Chip → ℕ → ℕ
unfolding island_mask
me_id c ctxsts =
    let menum = bit_and (sub32 (ctxsts >>> 3) 4) 0x7 in
    let islclnum = bit_and (ctxsts >>> 25) (island_mask c) in u32 ((islclnum <<< 4) + menum)

-- `NFP_MECSR_SAME_ME_SIGNAL_CTX`, `NFP_MECSR_SAME_ME_SIGNAL_SIG_NO` and their like.
abbrev pub ctx_bits : ℕ → ℕ
ctx_bits x = bit_and x 7

abbrev pub sig_no_bits : ℕ → ℕ
sig_no_bits x = bit_and x 0xf <<< 3

-- What is written to `local_csr_same_me_signal` or `local_csr_next_neighbor_signal`.
unfoldable pub signal_ctx : ℕ → ℕ → ℕ
signal_ctx ctx sig_no = bit_or (sig_no_bits sig_no) (ctx_bits ctx)

unfoldable pub signal_next_ctx : ℕ → ℕ
signal_next_ctx sig_no = bit_or (1 <<< 7) (sig_no_bits sig_no)

unfoldable pub signal_next_me : ℕ → ℕ → ℕ
signal_next_me ctx sig_no = bit_or (sig_no_bits sig_no) (ctx_bits ctx)

-- The value written, or the address of the command.
unfoldable pub signal_me : Chip → ℕ → ℕ → ℕ → ℕ → ℕ
signal_me nfp3200 islcl me ctx sig_no =
    bit_or
      (bit_or (bit_or (bit_and islcl 0xf <<< 11) (bit_and me 0xf <<< 7)) (bit_and ctx 0x7 <<< 4))
      (bit_and sig_no 0xf)
signal_me nfp6000 islcl me ctx sig_no =
    bit_or
      (bit_or (bit_or (bit_and islcl 0x3f <<< 24) ((bit_and me 0xf + 4) <<< 9))
        (bit_and ctx 0x7 <<< 6))
      (bit_and sig_no 0xf <<< 2)
