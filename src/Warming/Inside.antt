-- ===== src/Warming/Inside.antt =====
-- Where the writes of `write_region` go.
use pciebench_nfp.Common.{
  ℕ, zero, suc, ◌+◌, ◌*◌, ◌/◌, ◌%◌, ◌≤◌, ◌<◌, ◌≡◌, sym, ◌∙◌, arith, u32, Bool, true, false, some,
  List, [], ◌∷◌, get_elem?, get_elem?_of_lt, done, Outcome, if◌then◌else◌, length, ap, refl,
}
use mathlib.Core.Path.{subst}
use native.Mathlib.Nat.{mod-lt, mod-mod_of_dvd, dvd_of_mod-eq-zero}
use pciebench_nfp.Nfp.{Chip}
use pciebench_nfp.Addresses.{max_mem, chunk_sz}
use pciebench_nfp.Addresses.Table.{IsMapped}
use pciebench_nfp.Warming.{HostOp, write_region, host_trash_cache, host_warm_cache}
use pciebench_nfp.Warming.Sweep.{IsAligned, written, host_address, get_or_of_found, place, sweep}
use pciebench_nfp.Warming.Steered.{write_region-Sweeps}

-- The `n` bytes from the address `a` on are in one chunk.
abbrev pub IsInside : List ℕ → ℕ → ℕ → Type 0
IsInside chunks a n =
    (i : ℕ) × (base : ℕ) × (get_elem? chunks i ≡ some base) × (base ≤ a) × (a + n ≤ base + chunk_sz)

-- Each write goes to where a line of the window is mapped.
abbrev IsLine : List ℕ → ℕ → ℕ → Type 0
IsLine chunks win_sz a = (k : ℕ) × (k < win_sz / 64) × (a ≡ host_address chunks (k * 64))

abbrev AllLines : List ℕ → ℕ → List (ℕ × ℕ) → Type 0
AllLines chunks win_sz [] = Unit {0}
AllLines chunks win_sz ((a, w) ∷ ws) = IsLine chunks win_sz a × AllLines chunks win_sz ws

-- A routine ends, having made a number of writes, each of which goes to a line of the window.
abbrev pub IsOnLines : Chip → ℕ → List ℕ → ℕ → ℕ → Outcome (List HostOp) → Type 0
IsOnLines c start chunks win_sz n routine =
    (ops : List HostOp) × (routine ≡ done ops)
    × (length (written c start ops) ≡ n)
    × AllLines chunks win_sz (written c start ops)

abbrev AllInside : List ℕ → List (ℕ × ℕ) → Type 0
AllInside chunks [] = Unit {0}
AllInside chunks ((a, w) ∷ ws) = IsInside chunks a 64 × AllInside chunks ws

-- A routine ends, and each of its writes of 64 bytes goes to one chunk.
abbrev pub StaysInside : Chip → ℕ → List ℕ → Outcome (List HostOp) → Type 0
StaysInside c start chunks routine =
    (ops : List HostOp) × (routine ≡ done ops) × AllInside chunks (written c start ops)

module _ (c : Chip) (start : ℕ) (rand : ℕ → ℕ) (chunks : List ℕ) (mapped : IsMapped chunks)
    (aligned : IsAligned chunks) where
  line-IsInside :
      (lin : ℕ) → lin < max_mem → lin % 64 ≡ 0 → IsInside chunks (host_address chunks lin) 64
  line-IsInside lin small line =
      let (base, found) = get_elem?_of_lt chunks (lin / chunk_sz) (omega (arith, mapped.count)) in
      let at = get_or_of_found chunks (lin / chunk_sz) base found in
      (lin / chunk_sz, base, found, omega (arith, at), omega (arith, at))

  module _ (win_sz pattern : ℕ) (use_rand : Bool) (pos : 0 < win_sz) (small : win_sz ≤ max_mem)
      (whole : win_sz % 64 ≡ 0) where
    place_line :
        (t : ℕ) → (place rand win_sz use_rand t < win_sz) × (place rand win_sz use_rand t % 64 ≡ 0)
    place_line zero = (omega arith, omega arith)
    place_line (suc t) =
        let x : ℕ = if use_rand then rand t else u32 (t + 1) in
        (
          omega (arith, mod-lt (u32 (x * 64)) pos),
          mod-mod_of_dvd 64 (u32 (x * 64)) (dvd_of_mod-eq-zero 64 whole) ∙ omega arith,
        )

    sweep-AllLines : (t : ℕ) → AllLines chunks win_sz (sweep rand chunks win_sz pattern use_rand t)
    sweep-AllLines zero = tt
    sweep-AllLines (suc t) =
        let (below, line) = place_line t in
        let at : ℕ = place rand win_sz use_rand t in
        let back : at ≡ at / 64 * 64 = omega arith in
        ((at / 64, omega arith, ap (host_address chunks) back), sweep-AllLines t)

    length-sweep : (t : ℕ) → length (sweep rand chunks win_sz pattern use_rand t) ≡ t
    length-sweep zero = refl
    length-sweep (suc t) = omega (arith, length-sweep t)

    -- For chunks that are mapped and aligned, and a window of whole lines that is not empty and
    -- fits in memory, whatever the BAR held before and whatever the random numbers are:
    -- `write_region`, in order or at random, ends after twice as many writes as the window has
    -- lines, and each of them goes through the BAR to where a line of the window is mapped.
    pub write_region-IsOnLines :
        IsOnLines c start chunks win_sz
          (2 * (win_sz / 64))
          (write_region rand chunks win_sz pattern use_rand)
    write_region-IsOnLines =
        let (ops, ended, swept) =
          write_region-Sweeps c start rand chunks win_sz pattern use_rand mapped aligned pos
            small in
        let n : ℕ = 2 * (win_sz / 64) in
        (
          ops,
          ended,
          ap (λ l. length l) swept ∙ length-sweep n,
          subst (AllLines chunks win_sz) (sym swept) (sweep-AllLines n),
        )

    lines-AllInside :
        (writes : List (ℕ × ℕ)) → AllLines chunks win_sz writes → AllInside chunks writes
    lines-AllInside [] h = h
    lines-AllInside ((a, w) ∷ ws) ((k, below, at), rest) = (
      subst (λ b. IsInside chunks b 64) (sym at)
          (line-IsInside (k * 64) (omega arith) (omega arith)),
      lines-AllInside ws rest,
    )

    write_region-StaysInside :
        StaysInside c start chunks (write_region rand chunks win_sz pattern use_rand)
    write_region-StaysInside =
        let (ops, ended, _, lines) = write_region-IsOnLines in (ops, ended, lines-AllInside _ lines)

  pub host_trash_cache-StaysInside : StaysInside c start chunks (host_trash_cache rand chunks)
  unfolding host_trash_cache
  host_trash_cache-StaysInside =
      write_region-StaysInside max_mem 0xdead0000 true (omega arith) (omega arith) (omega arith)

  pub host_warm_cache-StaysInside :
      (win_sz : ℕ)
      → 0 < win_sz
      → win_sz ≤ max_mem
      → win_sz % 64 ≡ 0
      → StaysInside c start chunks (host_warm_cache rand chunks win_sz)
  unfolding host_warm_cache
  host_warm_cache-StaysInside win_sz pos small whole =
      write_region-StaysInside win_sz 0xcafe0000 false pos small whole
