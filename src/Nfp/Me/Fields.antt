-- ===== src/Nfp/Me/Fields.antt =====
-- What the numbers and signal words of me/libnfp.c hold.
use pciebench_nfp.Common.{ℕ, ◌+◌, ◌-◌, ◌*◌, ◌/◌, ◌%◌, ◌^◌, ◌<◌, ◌≡◌, arith, sub32, bit_and, bit_or}
use pciebench_nfp.Common.Bits.{and_low, or_disjoint}
use pciebench_nfp.Nfp.{Chip, nfp3200, nfp6000}
use pciebench_nfp.Nfp.Me.{me_id, signal_me}

-- The low four bits of `__ME` are the ME's number modulo 8, the ME's field of the status word being 4
-- more.
pub me_number_lem :
    (c : Chip) (ctxsts : ℕ)
    → ctxsts < 2 ^ 32
    → bit_and (me_id c ctxsts) 0xf ≡ (ctxsts / 2 ^ 3 + 4) % 2 ^ 3
unfolding me_id
me_number_lem nfp3200 s h =
    omega
      (arith, and_low 4 (me_id nfp3200 s), and_low 3 (sub32 (s / 2 ^ 3) 4), and_low 4 (s / 2 ^ 25))
me_number_lem nfp6000 s h =
    omega
      (arith, and_low 4 (me_id nfp6000 s), and_low 3 (sub32 (s / 2 ^ 3) 4), and_low 6 (s / 2 ^ 25))

-- Where the fields of a signal to an ME stand.
abbrev pub signal_word : Chip → ℕ → ℕ → ℕ → ℕ → ℕ
signal_word nfp3200 islcl me ctx sig_no = islcl * 2 ^ 11 + me * 2 ^ 7 + ctx * 2 ^ 4 + sig_no
signal_word nfp6000 islcl me ctx sig_no =
    islcl * 2 ^ 24 + (me + 4) * 2 ^ 9 + ctx * 2 ^ 6 + sig_no * 2 ^ 2

abbrev pub islands : Chip → ℕ
islands nfp3200 = 16
islands nfp6000 = 64

signal_me_sum :
    (c : Chip) (islcl me ctx sig_no : ℕ)
    → islcl < islands c
    → me < 16
    → ctx < 8
    → sig_no < 16
    → signal_me c islcl me ctx sig_no ≡ signal_word c islcl me ctx sig_no
unfolding signal_me
signal_me_sum nfp3200 i m x s hi hm hx hs = omega (
  arith,
  and_low 4 i,
  and_low 4 m,
  and_low 3 x,
  and_low 4 s,
  or_disjoint 11 (bit_and i 0xf * 2 ^ 11) (bit_and m 0xf * 2 ^ 7),
  or_disjoint 7 (bit_or (bit_and i 0xf * 2 ^ 11) (bit_and m 0xf * 2 ^ 7)) (bit_and x 7 * 2 ^ 4),
  or_disjoint 4
      (bit_or (bit_or (bit_and i 0xf * 2 ^ 11) (bit_and m 0xf * 2 ^ 7)) (bit_and x 7 * 2 ^ 4))
      (bit_and s 0xf),
)
signal_me_sum nfp6000 i m x s hi hm hx hs = omega (
  arith,
  and_low 6 i,
  and_low 4 m,
  and_low 3 x,
  and_low 4 s,
  or_disjoint 24 (bit_and i 0x3f * 2 ^ 24) ((bit_and m 0xf + 4) * 2 ^ 9),
  or_disjoint 9 (bit_or (bit_and i 0x3f * 2 ^ 24) ((bit_and m 0xf + 4) * 2 ^ 9))
      (bit_and x 7 * 2 ^ 6),
  or_disjoint 6
      (bit_or (bit_or (bit_and i 0x3f * 2 ^ 24) ((bit_and m 0xf + 4) * 2 ^ 9))
        (bit_and x 7 * 2 ^ 6))
      (bit_and s 0xf * 2 ^ 2),
)

-- The fields of the word that `signal_me` sends, read back.
pub record Target : Type 0 where
  pub islcl : ℕ
  pub me : ℕ
  pub ctx : ℕ
  pub sig_no : ℕ

abbrev pub target : Chip → ℕ → Target
target nfp3200 w = record {
  islcl = w / 2 ^ 11;
  me = w / 2 ^ 7 % 2 ^ 4;
  ctx = w / 2 ^ 4 % 2 ^ 3;
  sig_no = w % 2 ^ 4;
}
target nfp6000 w = record {
  islcl = w / 2 ^ 24;
  me = w / 2 ^ 9 % 2 ^ 5 - 4;
  ctx = w / 2 ^ 6 % 2 ^ 3;
  sig_no = w / 2 ^ 2 % 2 ^ 4;
}

-- On both chips, the word that `signal_me` sends holds its four arguments, each in a field of its own.
pub signal_me_roundtrip :
    (c : Chip) (t : Target)
    → t.islcl < islands c
    → t.me < 16
    → t.ctx < 8
    → t.sig_no < 16
    → target c (signal_me c t.islcl t.me t.ctx t.sig_no) ≡ t
signal_me_roundtrip nfp3200 t i m x s =
    ground (arith, signal_me_sum nfp3200 t.islcl t.me t.ctx t.sig_no)
signal_me_roundtrip nfp6000 t i m x s =
    ground (arith, signal_me_sum nfp6000 t.islcl t.me t.ctx t.sig_no)
