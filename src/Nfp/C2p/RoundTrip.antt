-- ===== src/Nfp/C2p/RoundTrip.antt =====
-- The BAR and a command together name the address that was asked for. How the chip puts the two
-- together is read off the layouts that me/libnfp.h and me/libnfp.c give for them.
use pciebench_nfp.Common.{
  ℕ, ◌+◌, ◌-◌, ◌*◌, ◌/◌, ◌%◌, ◌^◌, ◌≤◌, ◌<◌, ◌≡◌, ◌≢◌, sym, arith, bit_and, bit_or, true,
}
use pciebench_nfp.Common.Bits.{and_low, or_disjoint, or_disjoint_right}
use pciebench_nfp.Nfp.{Chip, nfp3200, nfp6000, sig_done, ctx_swap}
use pciebench_nfp.Nfp.C2p.{bar_address, pcie_c2p_barcfg, Command, c2p_hi, pcie_c2p_cmd}

-- How much of an address a command carries, and how long an address may be.
abbrev pub window_bits : Chip → ℕ
window_bits nfp3200 = 29
window_bits nfp6000 = 35

abbrev pub address_bits : Chip → ℕ
address_bits nfp3200 = 48
address_bits nfp6000 = 56

-- The fields of a command: the low part of the address, the BAR that it selects, the island, and the
-- number of words.
abbrev pub offset : Chip → Command → ℕ
offset nfp3200 cmd = cmd.lo % 2 ^ 29
offset nfp6000 cmd = cmd.hi / 2 ^ 24 % 2 ^ 3 * 2 ^ 32 + cmd.lo

abbrev pub selected_bar : Chip → Command → ℕ
selected_bar nfp3200 cmd = cmd.lo / 2 ^ 29
selected_bar nfp6000 cmd = cmd.hi / 2 ^ 27 % 2 ^ 3

abbrev pub words : Chip → Command → ℕ
words nfp3200 cmd = cmd.override % 2 ^ 5 + 1
words nfp6000 cmd = cmd.override / 2 ^ 8 % 2 ^ 5 + 1

-- Where in the host's memory a command goes: the address bits of the BAR that it goes through, as the
-- BAR's register stands at that time, and the offset that the command carries.
abbrev pub arrives_at : Chip → ℕ → Command → ℕ
arrives_at c bar cmd = bar % 2 ^ (address_bits c - window_bits c) * 2 ^ window_bits c + offset c cmd

-- A transfer of `size` bytes that the card asks of island 0 and BAR 0, with `sig_done`.
abbrev pub reached : Chip → ℕ → ℕ → ℕ → ℕ → ℕ
reached c bar addr_hi addr_lo size =
    arrives_at c bar (pcie_c2p_cmd c sig_done 0 0 addr_hi addr_lo size)

pub bar_address_lem :
    (c : Chip) (addr_hi addr_lo : ℕ)
    → addr_lo < 2 ^ 32
    → addr_hi * 2 ^ 32 + addr_lo < 2 ^ address_bits c
    → bar_address c addr_hi addr_lo ≡ (addr_hi * 2 ^ 32 + addr_lo) / 2 ^ window_bits c
unfolding bar_address
bar_address_lem nfp3200 hi lo low fits =
    omega (arith, and_low 19 ((hi * 2 ^ 32 + lo) / 2 ^ 29 % 2 ^ 32))
bar_address_lem nfp6000 hi lo low fits = omega (arith, and_low 21 (hi / 2 ^ 3))

c2p_hi_lem :
    (isl bar addr_hi : ℕ)
    → isl < 4
    → bar < 8
    → c2p_hi isl bar addr_hi ≡ isl * 2 ^ 30 + bar * 2 ^ 27 + addr_hi % 8 * 2 ^ 24
unfolding c2p_hi
c2p_hi_lem isl bar hi hi_isl hi_bar = omega (
  arith,
  and_low 3 bar,
  and_low 3 hi,
  or_disjoint 30 (isl * 2 ^ 30 % 2 ^ 32) (bit_and bar 7 * 2 ^ 27),
  or_disjoint 27 (bit_or (isl * 2 ^ 30 % 2 ^ 32) (bit_and bar 7 * 2 ^ 27)) (bit_and hi 7 * 2 ^ 24),
)

-- The BAR as programmed for an address and a command for it add up to the address, and the command
-- selects the BAR `bar` and asks for the words of `size`.
abbrev pub Reaches : Chip → ℕ → ℕ → ℕ → ℕ → ℕ → Type 0
Reaches c isl bar addr_hi addr_lo size =
    let cmd = pcie_c2p_cmd c sig_done isl bar addr_hi addr_lo size in
    (pcie_c2p_barcfg c true addr_hi addr_lo 0 * 2 ^ window_bits c + offset c cmd
      ≡ addr_hi * 2 ^ 32 + addr_lo)
    × (selected_bar c cmd ≡ bar)
    × (words c cmd ≡ size / 4)

-- For an address that the chip can hold and a transfer of 4 to 128 bytes: the BAR that
-- `pcie_c2p_barcfg` programs and the command that `__pcie_read` or `__pcie_write` issues with
-- `sig_done` add up to the address; the command selects that BAR and asks for that many words.
pub pcie_c2p_roundtrip :
    (c : Chip) (isl bar addr_hi addr_lo size : ℕ)
    → isl < 4
    → bar < 8
    → addr_lo < 2 ^ 32
    → addr_hi * 2 ^ 32 + addr_lo < 2 ^ address_bits c
    → 4 ≤ size
    → size ≤ 128
    → Reaches c isl bar addr_hi addr_lo size
unfolding pcie_c2p_barcfg pcie_c2p_cmd
pcie_c2p_roundtrip nfp3200 isl bar hi lo size i b low fits s t = ground (
  arith,
  bar_address_lem nfp3200 hi lo low fits,
  and_low 29 lo,
  or_disjoint_right 29 (bit_and lo 0x1fffffff) (bar * 2 ^ 29 % 2 ^ 32),
)
pcie_c2p_roundtrip nfp6000 isl bar hi lo size i b low fits s t =
    ground (arith, bar_address_lem nfp6000 hi lo low fits, c2p_hi_lem isl bar hi i b)

-- Any transfer in the range that the BAR was programmed for goes where it should.
pub reached_lem :
    (c : Chip) (addr_hi addr_lo size old_hi old_lo : ℕ)
    → addr_lo < 2 ^ 32
    → old_lo < 2 ^ 32
    → addr_hi * 2 ^ 32 + addr_lo < 2 ^ address_bits c
    → old_hi * 2 ^ 32 + old_lo < 2 ^ address_bits c
    → (addr_hi * 2 ^ 32 + addr_lo) / 2 ^ window_bits c
      ≡ (old_hi * 2 ^ 32 + old_lo) / 2 ^ window_bits c
    → 4 ≤ size
    → size ≤ 128
    → reached c (pcie_c2p_barcfg c true old_hi old_lo 0) addr_hi addr_lo size
      ≡ addr_hi * 2 ^ 32 + addr_lo
unfolding pcie_c2p_barcfg
reached_lem nfp3200 hi lo size old_hi old_lo low old_low fits old_fits same s t =
    let (there, _, _) =
      pcie_c2p_roundtrip nfp3200 0 0 hi lo size (omega arith) (omega arith) low fits s t in
    omega (
      arith,
      there,
      same,
      bar_address_lem nfp3200 hi lo low fits,
      bar_address_lem nfp3200 old_hi old_lo old_low old_fits,
    )
reached_lem nfp6000 hi lo size old_hi old_lo low old_low fits old_fits same s t =
    let (there, _, _) =
      pcie_c2p_roundtrip nfp6000 0 0 hi lo size (omega arith) (omega arith) low fits s t in
    omega (
      arith,
      there,
      same,
      bar_address_lem nfp6000 hi lo low fits,
      bar_address_lem nfp6000 old_hi old_lo old_low old_fits,
    )

-- With `ctx_swap` on the NFP-6000, a command selects the BAR that bits 27 to 29 of `addr_hi` spell,
-- whichever BAR is asked for.
pub ctx_swap_ignores_bar :
    (isl bar addr_hi addr_lo size : ℕ)
    → bar ≢ addr_hi / 2 ^ 27 % 2 ^ 3
    → selected_bar nfp6000 (pcie_c2p_cmd nfp6000 ctx_swap isl bar addr_hi addr_lo size) ≢ bar
unfolding pcie_c2p_cmd
ctx_swap_ignores_bar isl bar hi lo size other e = other (sym e)
