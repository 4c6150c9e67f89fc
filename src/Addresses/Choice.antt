-- ===== src/Addresses/Choice.antt =====
-- The inner loop of `dma_addr_init`: what it accepts, and that it ends.
use native.Mathlib.Nat.{mod-lt, mod-eq_of_lt, div-add-mod, add-mul-mod_self_left}
use native.Mathlib.Decide.{dec_lt}
use pciebench_nfp.Common.{
  ℕ, zero, suc, ◌+◌, ◌-◌, ◌*◌, ◌/◌, ◌%◌, ◌^◌, ◌≤◌, ◌<◌, ◌≡◌, ◌⊎◌, inl, inr, refl, arith, u32, true,
  false, leb, Bool-cases, done,
}
use pciebench_nfp.Addresses.{
  Window, Cursor, Pick, random, unit_sz, units_in_win, linear, avail, candidate, advance, pick,
}
use pciebench_nfp.Addresses.Linear.{
  IsAccepted, avail_lem, units_bounds, unit_in_window, linear_lem, aligned_page,
}

-- A linear address at which a transaction may start: in a unit of the window, in one 4k page.
pub record IsSlot (w : Window) (lin : ℕ) : Type 0 where
  pub unit : ℕ
  pub unit_in : unit < units_in_win w
  pub place : lin ≡ unit * unit_sz w + w.h_off
  pub in_window : lin + w.trans_sz ≤ w.win_sz
  pub in_page : lin % 4096 + w.trans_sz ≤ 4096

module _ {w : Window} (ok : IsAccepted w) (rand : ℕ → ℕ) (word : (n : ℕ) → rand n < 2 ^ 32) where
  candidate-lt : (idx : ℕ) (s : Cursor) → candidate rand w idx s < 2 ^ 32
  unfolding candidate
  candidate-lt idx s = ground (arith, word s.reads)

  linear-IsSlot :
      (t : ℕ) → t < 2 ^ 32 → leb w.trans_sz (avail (linear w t)) ≡ true → IsSlot w (linear w t)
  linear-IsSlot t h test = record {
    unit = t % units_in_win w;
    unit_in = below;
    place = linear_lem ok t h;
    in_window = omega (arith, linear_lem ok t h, unit_in_window ok (t % units_in_win w) below);
    in_page = ground (arith, avail_lem (linear w t));
  }
    where
      below : t % units_in_win w < units_in_win w
      below = mod-lt t (units_bounds ok).0

  -- Whatever the inner loop ends with is a slot.
  pub pick-IsSlot :
      (fuel idx : ℕ) (s : Cursor) {p : Pick} → pick rand w fuel idx s ≡ done p → IsSlot w p.lin_addr
  unfolding pick
  pick-IsSlot zero idx s e = cc
  pick-IsSlot (suc fuel) idx s {p} e =
      elim (Bool-cases (leb w.trans_sz (avail (linear w (candidate rand w idx s))))) [
        | inl fits ↦ rw (at fits) (linear-IsSlot (candidate rand w idx s) (candidate-lt idx s) fits)
        | inr crosses ↦ pick-IsSlot fuel idx _ (rw crosses at e)
      ]
    where
      at :
          leb w.trans_sz (avail (linear w (candidate rand w idx s))) ≡ true
          → p.lin_addr ≡ linear w (candidate rand w idx s)
      at fits = ground arith

  -- The first unit of the window never crosses a page.
  first_fits :
      (t : ℕ) → t < 2 ^ 32 → t % units_in_win w ≡ 0 → leb w.trans_sz (avail (linear w t)) ≡ true
  first_fits t h e = ground (arith, avail_lem (linear w t), rw e at (linear_lem ok t h), ok.in_page)

  -- `d` steps on from `t` stands a multiple of the number of units, or the word wraps to 0.
  abbrev IsNear : ℕ → ℕ → Type 0
  IsNear d t = ((t + d) % units_in_win w ≡ 0) ⊎ (t + d ≡ 2 ^ 32)

  module _ (sequential : random w.flags ≡ false) where
    candidate_next :
        (idx : ℕ) (s : Cursor)
        → candidate rand w idx (record { add = u32 (s.add + 1); reads = advance rand w s })
          ≡ u32 (candidate rand w idx s + 1)
    unfolding candidate
    candidate_next idx s = rw sequential (omega arith)

    IsNear-next :
        (d t : ℕ) → t < 2 ^ 32 → IsNear (suc d) t → (e : ℕ) × (e ≤ d) × IsNear e (u32 (t + 1))
    IsNear-next d t h near = elim (dec_lt (t + 1) (2 ^ 32)) [
      | yes below ↦
          let same : u32 (t + 1) + d ≡ t + suc d = omega arith in (d, omega arith, rw same near)
      | no top ↦
          let wraps : u32 (t + 1) + 0 ≡ 0 = omega arith in
          (0, omega arith, inl (rw wraps (mod-eq_of_lt (units_bounds ok).0)))
    ]

    -- The inner loop ends within `d + 1` rounds.
    pick_ends_near :
        (fuel d idx : ℕ) (s : Cursor)
        → d < fuel
        → IsNear d (candidate rand w idx s)
        → (p : Pick) × (pick rand w fuel idx s ≡ done p)
    unfolding pick
    pick_ends_near zero d idx s h near = elim h [ ]
    pick_ends_near (suc fuel) zero idx s h near =
        rw (first_fits (candidate rand w idx s) (candidate-lt idx s) (at_multiple near)) (_, refl)
      where
        same : candidate rand w idx s + 0 ≡ candidate rand w idx s
        same = omega arith

        at_multiple :
            IsNear 0 (candidate rand w idx s) → candidate rand w idx s % units_in_win w ≡ 0
        at_multiple (inl e) = rw same at e
        at_multiple (inr e) = absurd (omega (arith, candidate-lt idx s))
    pick_ends_near (suc fuel) (suc d) idx s h near =
        elim (Bool-cases (leb w.trans_sz (avail (linear w (candidate rand w idx s))))) [
          | inl fits ↦ rw fits (_, refl)
          | inr crosses ↦
              let (e, closer, near') =
                IsNear-next d (candidate rand w idx s) (candidate-lt idx s) near in
              rw crosses
                (pick_ends_near fuel e idx _ (omega arith) (rw (candidate_next idx s) near'))
        ]

    -- In sequential order the inner loop ends within a round for each unit of the window and one.
    pub pick_ends :
        (fuel idx : ℕ) (s : Cursor)
        → units_in_win w < fuel
        → (p : Pick) × (pick rand w fuel idx s ≡ done p)
    pick_ends fuel idx s h =
        pick_ends_near fuel (units_in_win w - t % units_in_win w) idx s (omega arith) (inl multiple)
      where
        t : ℕ
        t = candidate rand w idx s

        up :
            t + (units_in_win w - t % units_in_win w)
            ≡ 0 + units_in_win w * (t / units_in_win w + 1)
        up = grind (arith, div-add-mod t (units_in_win w), mod-lt t (units_bounds ok).0)

        multiple : (t + (units_in_win w - t % units_in_win w)) % units_in_win w ≡ 0
        multiple = rw (up, add-mul-mod_self_left) (mod-eq_of_lt (units_bounds ok).0)

    -- Where units do not straddle pages, the inner loop takes its first candidate.
    pub pick_first :
        (fuel idx : ℕ) (s : Cursor)
        → 4096 % unit_sz w ≡ 0
        → pick rand w (suc fuel) idx s
          ≡ done (record {
            lin_addr = candidate rand w idx s % units_in_win w * unit_sz w + w.h_off;
            cursor = s;
          })
    unfolding pick advance
    pick_first fuel idx s aligned = ground (
      arith,
      sequential,
      linear_lem ok t (candidate-lt idx s),
      avail_lem (linear w t),
      aligned_page ok (t % units_in_win w) aligned,
    )
      where
        t : ℕ
        t = candidate rand w idx s

  candidate-random :
      (idx : ℕ) (s : Cursor) → random w.flags ≡ true → candidate rand w idx s ≡ rand s.reads
  unfolding candidate
  candidate-random idx s h = rw h

  advance-random : (s : Cursor) → random w.flags ≡ true → advance rand w s ≡ s.reads + 1
  unfolding advance
  advance-random s h = rw h

  -- Among random candidates the inner loop ends when one fits.
  pub pick_ends_random :
      (fuel j idx : ℕ) (s : Cursor)
      → random w.flags ≡ true
      → j < fuel
      → leb w.trans_sz (avail (linear w (rand (s.reads + j)))) ≡ true
      → (p : Pick) × (pick rand w fuel idx s ≡ done p)
  unfolding pick
  pick_ends_random zero j idx s at_random h fits = elim h [ ]
  pick_ends_random (suc fuel) zero idx s at_random h fits = rw test (_, refl)
    where
      here : s.reads + 0 ≡ s.reads
      here = omega arith

      test : leb w.trans_sz (avail (linear w (candidate rand w idx s))) ≡ true
      test = rw (candidate-random idx s at_random) (rw here at fits)
  pick_ends_random (suc fuel) (suc j) idx s at_random h fits =
      elim (Bool-cases (leb w.trans_sz (avail (linear w (candidate rand w idx s))))) [
        | inl now ↦ rw now (_, refl)
        | inr crosses ↦
            rw crosses (pick_ends_random fuel j idx _ at_random (omega arith) (rw later fits))
      ]
    where
      later : advance rand w s + j ≡ s.reads + suc j
      later = omega (arith, advance-random s at_random)
