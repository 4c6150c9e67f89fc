-- ===== src/Addresses/Contract.antt =====
-- What `dma_addr_init` and `dma_addr_from_idx` promise to the tests.
use pciebench_nfp.Common.{
  ℕ, ◌+◌, ◌*◌, ◌%◌, ◌^◌, ◌<◌, ◌≡◌, refl, arith, true, false, List, done, leb, u32,
}
use pciebench_nfp.Addresses.{
  Window, Cursor, Pick, Address, random, unit_sz, units_in_win, linear, avail, addr_array_sz, pick,
  candidate, dma_addr_init, dma_addr_from_idx, max_mem,
}
use pciebench_nfp.Addresses.Linear.{IsAccepted}
use pciebench_nfp.Addresses.Choice.{IsSlot, pick-IsSlot, pick_ends, pick_ends_random, pick_first}
use pciebench_nfp.Addresses.Table.{IsMapped, IsAt, lookup_lem}

-- `dma_addr_init` returns a table in which `dma_addr_from_idx` finds, at index `idx`, the address of
-- a slot of the window, whose linear address meets `Q`.
pub record IsServed (rand : ℕ → ℕ) (chunks : List ℕ) (w : Window) (fuel idx : ℕ) (Q : ℕ → Type 0)
    : Type 0 where
  pub addrs : List ℕ
  pub address : Address
  pub lin : ℕ
  pub returns : dma_addr_init rand chunks w fuel ≡ done addrs
  pub finds : dma_addr_from_idx addrs idx ≡ done address
  pub slot : IsSlot w lin
  pub order : Q lin
  pub at : IsAt chunks lin address

abbrev Slot : Window → (ℕ → ℕ → Type 0) → ℕ → ℕ → Type 0
Slot w Q idx lin = IsSlot w lin × Q idx lin

module _ (rand : ℕ → ℕ) (chunks : List ℕ) (w : Window) (fuel : ℕ) (ok : IsAccepted w)
    (mapped : IsMapped chunks) (word : (n : ℕ) → rand n < 2 ^ 32) where
  Slot-lt : (Q : ℕ → ℕ → Type 0) (idx lin : ℕ) → Slot w Q idx lin → lin < max_mem
  Slot-lt Q idx lin (slot, q) = omega (arith, slot.in_window, ok.not_empty, ok.in_memory)

  served :
      (J : Cursor → Type 0) (Q : ℕ → ℕ → Type 0)
      → ((i : ℕ) (s : Cursor)
          → J s
          → (p : Pick) × (pick rand w fuel i s ≡ done p) × Q i p.lin_addr × J p.cursor)
      → J (record { add = 0; reads = 0 })
      → (idx : ℕ) → IsServed rand chunks w fuel idx (Q (idx % addr_array_sz))
  unfolding dma_addr_init
  served J Q ends start idx =
      let (addrs, a, lin, filled, found, (slot, q), at) =
        lookup_lem rand chunks w fuel mapped J (Slot w Q) (Slot-lt Q) step
          (record { add = 0; reads = 0 }) idx start in
      record {
        addrs = addrs;
        address = a;
        lin = lin;
        returns = filled;
        finds = found;
        slot = slot;
        order = q;
        at = at;
      }
    where
      step :
          (i : ℕ) (s : Cursor)
          → J s
          → (p : Pick) × (pick rand w fuel i s ≡ done p) × Slot w Q i p.lin_addr × J p.cursor
      step i s j =
          let (p, e, q, j') = ends i s j in (p, e, (pick-IsSlot ok rand word fuel i s e, q), j')

  -- With checked arguments, mapped chunks and sequential order, `dma_addr_init` ends, given a round
  -- of the inner loop for each unit of the window and one more, and every index finds a slot.
  pub sequential-IsServed :
      random w.flags ≡ false
      → units_in_win w < fuel
      → (idx : ℕ) → IsServed rand chunks w fuel idx (λ lin. Unit)
  sequential-IsServed order enough =
      served (λ s. Unit {0}) (λ i lin. Unit {0})
        (λ i s _. let (p, e) = pick_ends ok rand word order fuel i s enough in (p, e, tt, tt)) tt

  -- With checked arguments, mapped chunks and random order, and if among any `fuel` random numbers in
  -- a row there is one whose transaction fits in a page: `dma_addr_init` ends, and every index finds
  -- a slot.
  pub random-IsServed :
      random w.flags ≡ true
      → ((n : ℕ) → (j : ℕ) × (j < fuel) × (leb w.trans_sz (avail (linear w (rand (n + j)))) ≡ true))
      → (idx : ℕ) → IsServed rand chunks w fuel idx (λ lin. Unit)
  random-IsServed order lucky =
      served (λ s. Unit {0}) (λ i lin. Unit {0})
        (λ i s _.
          let (j, below, fits) = lucky s.reads in
          let (p, e) = pick_ends_random ok rand word fuel j i s order below fits in (p, e, tt, tt))
        tt

candidate_unskipped :
    (rand : ℕ → ℕ) (w : Window) (i : ℕ) (s : Cursor)
    → random w.flags ≡ false
    → s.add ≡ 0
    → candidate rand w i s ≡ u32 i
unfolding candidate
candidate_unskipped rand w i s order none_added = rw order (omega arith)

-- With checked arguments, mapped chunks and sequential order, and a unit size that divides the page
-- size, one round of the inner loop is enough, and index `idx` serves the units of the window in
-- turn, going round at the end of the window and at the end of the table.
pub aligned-IsServed :
    (rand : ℕ → ℕ) (chunks : List ℕ) (w : Window)
    → IsAccepted w
    → IsMapped chunks
    → ((n : ℕ) → rand n < 2 ^ 32)
    → random w.flags ≡ false
    → 4096 % unit_sz w ≡ 0
    → (idx : ℕ)
    → IsServed rand chunks w 1 idx
        (λ lin. lin ≡ idx % addr_array_sz % units_in_win w * unit_sz w + w.h_off)
aligned-IsServed rand chunks w ok mapped word order aligned idx = rw small at (
    served rand chunks w 1 ok mapped word (λ s. s.add ≡ 0)
      (λ i lin. lin ≡ u32 i % units_in_win w * unit_sz w + w.h_off) step refl idx)
  where
    small : u32 (idx % addr_array_sz) ≡ idx % addr_array_sz
    small = omega arith

    step :
        (i : ℕ) (s : Cursor)
        → s.add ≡ 0
        → (p : Pick) × (pick rand w 1 i s ≡ done p)
          × (p.lin_addr ≡ u32 i % units_in_win w * unit_sz w + w.h_off)
          × (p.cursor.add ≡ 0)
    step i s none_added = (
      _,
      pick_first ok rand word order 0 i s aligned,
      rw (candidate_unskipped rand w i s order none_added) refl,
      none_added,
    )
