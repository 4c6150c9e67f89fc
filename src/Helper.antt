-- ===== src/Helper.antt =====
-- user/nfp-pciebench-helper.c: the program that thrashes and warms the host's cache, starts a test and
-- waits for its end. An `int` is its bit pattern.
pub mod Cache
pub mod Waiting
pub mod Served
use pciebench_nfp.Common.{
  ℕ, zero, suc, ◌+◌, ◌-◌, ◌^◌, u32, Bool, true, false, ◌&&◌, ◌||◌, not, ltb, ◌==◌, if◌then◌else◌,
  Option, none, some, List, [], ◌∷◌, length, take, Outcome, done, fault, no_end, ◌>>=◌,
}
use mathlib.Core.Option.{map}

-- What `getopt` returns for "n:c:t:w:h", one option after the other; `other` is `-h` or an error.
pub data Opt : Type 0 where
  n_opt c_opt t_opt w_opt : List ℕ → Opt
  other : Opt

-- `opt_ctrl` is not initialised, and `strncpy` leaves a name of 256 or more characters unterminated.
pub data Symbol : Type 0 where
  unset : Symbol
  named unterminated : List ℕ → Symbol

pub record Settings : Type 0 where
  pub opt_nfp : ℕ
  pub opt_test : ℕ
  pub opt_win : ℕ
  pub opt_ctrl : Symbol

pub copy_name : List ℕ → Symbol
copy_name arg = if ltb (length arg) 256 then named arg else unterminated (take 256 arg)

-- `strtoul` on an argument: its value, and the number of characters that it used.
module _ (strtoul : List ℕ → ℕ × ℕ) where
  -- The value, or `none` for `usage`.
  pub number : List ℕ → Option ℕ
  number arg =
      let (value, used) = strtoul arg in
      if used == 0 || not (used == length arg) then none else some (u32 value)

  -- One round of the loop over the options.
  pub option : Settings → Opt → Option Settings
  option s (n_opt arg) = map (λ v. record s { opt_nfp = v }) (number arg)
  option s (c_opt arg) = some (record s { opt_ctrl = copy_name arg })
  option s (t_opt arg) = map (λ v. record s { opt_test = v }) (number arg)
  option s (w_opt arg) = map (λ v. record s { opt_win = v }) (number arg)
  option s other = none

  pub options : Settings → List Opt → Option Settings
  options s [] = if s.opt_test == 2 ^ 32 - 1 then none else some s
  options s (o ∷ rest) = elim (option s o) [ none ↦ none | some s' ↦ options s' rest ]

  pub parse : List Opt → Option Settings
  parse = options (record { opt_nfp = 0; opt_test = 2 ^ 32 - 1; opt_win = 0; opt_ctrl = unset })

-- `opt_test > 0`
abbrev pub positive : ℕ → Bool
positive v = ltb 0 v && ltb v (2 ^ 31)

-- The loop that polls: `reads i` is what the `i`-th read of the symbol gives. The result is how many
-- reads were made.
pub poll_loop : (ℕ → ℕ) → ℕ → ℕ → ℕ → Outcome ℕ
poll_loop reads zero i v = no_end
poll_loop reads (suc fuel) i v =
    let rest = poll_loop reads fuel (i + 1) (reads i) in if positive v then rest else done i

-- How the program ends, with what it did: its status, and whether it thrashed the cache, the window
-- that it warmed, the test that it started and the number of reads.
pub data Exit : Type 0 where
  usage no_device no_symbol no_buffer : Exit
  finished : (window test reads : ℕ) → Exit

-- From the start of the test on.
pub start : (ℕ → ℕ) → ℕ → Settings → Outcome Exit
start reads fuel s = do
  n ← poll_loop reads fuel 0 s.opt_test
  done (finished s.opt_win s.opt_test n)

-- The answers of the environment: whether the device opens, whether a symbol is found, and whether the
-- host's buffer opens.
pub record Answers : Type 0 where
  pub nfp_device_open : ℕ → Bool
  pub nfp_rtsym_lookup : Symbol → Bool
  pub open_buffer : ℕ → Bool

-- `main` after the options.
pub run : Answers → (ℕ → ℕ) → ℕ → Settings → Outcome Exit
run env reads fuel s =
    if env.nfp_device_open s.opt_nfp
    then if env.nfp_rtsym_lookup s.opt_ctrl
      then if s.opt_win == 0 || env.open_buffer s.opt_nfp
        then start reads fuel s
        else done no_buffer
      else done no_symbol
    else done no_device

pub main : (List ℕ → ℕ × ℕ) → Answers → (ℕ → ℕ) → ℕ → List Opt → Outcome Exit
main strtoul env reads fuel opts = elim (parse strtoul opts) [
  | none ↦ done usage
  | some s ↦ run env reads fuel s
]
