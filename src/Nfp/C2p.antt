-- ===== src/Nfp/C2p.antt =====
-- me/libnfp.c: the BAR through which the card reaches host memory, and the addresses of the commands
-- that go through it.
pub mod RoundTrip
use pciebench_nfp.Common.{
  ℕ, ◌+◌, ◌-◌, ◌*◌, ◌/◌, ◌%◌, ◌^◌, ◌<<<◌, ◌>>>◌, u32, sub32, bit_and, bit_or, Bool, true, false,
  ◌&&◌, ◌==◌, if◌then◌else◌,
}
use pciebench_nfp.Nfp.{Chip, nfp3200, nfp6000, Sync, sig_done, ctx_swap, sig_none}

-- `NFP_PCIE_BARCFG_C2P`
unfoldable pub barcfg_c2p : Chip → ℕ → ℕ
barcfg_c2p nfp3200 bar = 0x30020 + 0x4 * bit_and bar 0x7
barcfg_c2p nfp6000 bar = 0x30180 + bar * 0x4

-- The address bits of `pcie_c2p_barcfg`. `dbl_shf[tmp, hi, lo, >>29]` shifts the two registers as one.
unfoldable pub bar_address : Chip → ℕ → ℕ → ℕ
bar_address nfp3200 addr_hi addr_lo = bit_and (u32 ((addr_hi * 2 ^ 32 + addr_lo) >>> 29)) 0x7ffff
bar_address nfp6000 addr_hi addr_lo = bit_and (addr_hi >>> 3) 0x1fffff

-- `NFP_PCIE_BARCFG_C2P_ARI_ENABLE` with `NFP_PCIE_BARCFG_C2P_ARI`
abbrev pub ari_bits : Chip → ℕ → ℕ → ℕ
ari_bits nfp3200 req_id tmp = bit_or (bit_or tmp (0x1 <<< 28)) (bit_and req_id 0xff <<< 20)
ari_bits nfp6000 req_id tmp = bit_or (bit_or tmp (1 <<< 29)) (bit_and req_id 0xff <<< 21)

-- The value that `pcie_c2p_barcfg` writes; `ct_const` is what `__is_ct_const(req_id)` gives.
unfoldable pub pcie_c2p_barcfg : Chip → Bool → ℕ → ℕ → ℕ → ℕ
unfolding bar_address
pcie_c2p_barcfg c ct_const addr_hi addr_lo req_id =
    let tmp = bar_address c addr_hi addr_lo in
    if ct_const && (req_id == 0) then tmp else ari_bits c req_id tmp

-- A command of `__pcie_read` and `__pcie_write`: the high word of its address on the NFP-6000, the low
-- word, and the override word that carries the length.
pub record Command : Type 0 where
  pub hi : ℕ
  pub lo : ℕ
  pub override : ℕ

-- The high word on the NFP-6000.
unfoldable pub c2p_hi : ℕ → ℕ → ℕ → ℕ
c2p_hi isl bar addr_hi =
    bit_or (bit_or (u32 (isl <<< 30)) (bit_and bar 0x7 <<< 27)) (bit_and addr_hi 0x7 <<< 24)

-- `ref_count` and `__two`, or `length` and `ov_len`, from the number of words.
unfoldable pub override_word : Chip → ℕ → ℕ
override_word nfp3200 count = (2 <<< 28) + sub32 count 1 % 2 ^ 5
override_word nfp6000 count = ((sub32 count 1 % 2 ^ 5) <<< 8) + (1 <<< 7)

-- `_PCIE_C2P_CMD`
unfoldable pub pcie_c2p_cmd : Chip → Sync → ℕ → ℕ → ℕ → ℕ → ℕ → Command
unfolding c2p_hi override_word
pcie_c2p_cmd nfp3200 sync isl bar addr_hi addr_lo size = record {
  hi = 0;
  lo = bit_or (bit_and addr_lo 0x1fffffff) (u32 (bar <<< 29));
  override = override_word nfp3200 (size >>> 2);
}
pcie_c2p_cmd nfp6000 sig_done isl bar addr_hi addr_lo size = record {
  hi = c2p_hi isl bar addr_hi;
  lo = addr_lo;
  override = override_word nfp6000 (size >>> 2);
}
pcie_c2p_cmd nfp6000 sync isl bar addr_hi addr_lo size = record {
  hi = addr_hi;
  lo = addr_lo;
  override = override_word nfp6000 (size >>> 2);
}
