-- ===== src/Addresses/Table.antt =====
-- The table that `dma_addr_init` leaves, as `dma_addr_from_idx` reads it.
use pciebench_nfp.Common.{
  ℕ, zero, suc, ◌+◌, ◌*◌, ◌/◌, ◌%◌, ◌^◌, ◌≤◌, ◌<◌, ◌≡◌, refl, arith, u32, ◌>>>◌, List, [], ◌∷◌,
  some, length, get_elem?, get_elem?_of_lt, done,
}
use mathlib.Core.Path.{subst}
use mathlib.Core.Option.{some-injective}
use pciebench_nfp.Common.Bits.{and_low, or_fields_right}
use pciebench_nfp.Addresses.{
  Window, Cursor, Pick, Address, max_mem, chunk_sz, addr_array_sz, pick, table_entry, fill,
  split_entry, dma_addr_from_idx,
}

-- What the host promises of the chunks: there are 16, each within 40 bits of DMA address, for which
-- me/pciebench.h leaves room in an entry.
pub record IsMapped (chunks : List ℕ) : Type 0 where
  pub count : length chunks ≡ 16
  pub within : (i base : ℕ) → get_elem? chunks i ≡ some base → base + chunk_sz ≤ 2 ^ 40

-- The address `a` is where the linear address `lin` is mapped.
pub record IsAt (chunks : List ℕ) (lin : ℕ) (a : Address) : Type 0 where
  pub index : a.chunk_idx ≡ lin / chunk_sz
  pub base : ℕ
  pub chunk : get_elem? chunks (lin / chunk_sz) ≡ some base
  pub address : a.addr_hi * 2 ^ 32 + a.addr_lo ≡ base + lin % chunk_sz
  pub hi_fits : a.addr_hi < 2 ^ 8
  pub lo_fits : a.addr_lo < 2 ^ 32

split_fields :
    (chunk base : ℕ)
    → chunk < 2 ^ 8
    → base < 2 ^ 56
    → split_entry (chunk * 2 ^ 56 + base)
      ≡ record { addr_hi = base / 2 ^ 32; addr_lo = base % 2 ^ 32; chunk_idx = chunk }
unfolding split_entry
split_fields chunk base hc hb = ground (
  arith,
  and_low 32 (chunk * 2 ^ 56 + base),
  and_low 8 (u32 ((chunk * 2 ^ 56 + base) >>> 32) >>> 24),
  and_low 24 (u32 ((chunk * 2 ^ 56 + base) >>> 32)),
)

-- An entry of the table decodes to the address of its linear address.
entry-IsAt :
    (chunks : List ℕ) (lin : ℕ)
    → IsMapped chunks
    → lin < max_mem
    → (e : ℕ) × (table_entry chunks lin ≡ done e) × IsAt chunks lin (split_entry e)
unfolding table_entry
entry-IsAt chunks lin mapped h =
    let (base, found) = get_elem?_of_lt chunks (lin / chunk_sz) (omega (arith, mapped.count)) in
    let room : base + chunk_sz ≤ 2 ^ 40 = mapped.within (lin / chunk_sz) base found in
    (
      lin / chunk_sz * 2 ^ 56 + (base + lin % chunk_sz),
      ground (
        arith,
        found,
        and_low 22 lin,
        or_fields_right 56 (lin / chunk_sz) (base + lin % chunk_sz) (omega arith),
      ),
      rw (split_fields (lin / chunk_sz) (base + lin % chunk_sz) (omega arith) (omega arith))
          (record {
            index = refl;
            base = base;
            chunk = found;
            address = omega arith;
            hi_fits = omega arith;
            lo_fits = omega arith;
          }),
    )

-- A table whose entry for index `idx + i` serves a linear address that meets `Q (idx + i)`.
record IsTable (chunks : List ℕ) (Q : ℕ → ℕ → Type 0) (n idx : ℕ) (addrs : List ℕ) : Type 0 where
  size : length addrs ≡ n
  serves :
      (i e : ℕ)
      → get_elem? addrs i ≡ some e
      → (lin : ℕ) × Q (idx + i) lin × IsAt chunks lin (split_entry e)

serves-cons :
    {chunks : List ℕ} (Q : ℕ → ℕ → Type 0) (n idx e lin : ℕ) {rest : List ℕ}
    → Q idx lin
    → IsAt chunks lin (split_entry e)
    → IsTable chunks Q n (idx + 1) rest
    → (i v : ℕ) → get_elem? (e ∷ rest) i ≡ some v
    → (lin : ℕ) × Q (idx + i) lin × IsAt chunks lin (split_entry v)
serves-cons {chunks} Q n idx e lin q at t zero v h =
    let here : idx + 0 ≡ idx = omega arith in
    (lin, rw here q, subst (λ u. IsAt chunks lin (split_entry u)) (some-injective e v h) at)
serves-cons Q n idx e lin q at t (suc i) v h =
    let later : idx + suc i ≡ idx + 1 + i = omega arith in rw later (t.serves i v h)

-- The outer loop, for any invariant `J` of its cursor.
module _ (rand : ℕ → ℕ) (chunks : List ℕ) (w : Window) (fuel : ℕ) (mapped : IsMapped chunks)
    (J : Cursor → Type 0) (Q : ℕ → ℕ → Type 0) (small : (idx lin : ℕ) → Q idx lin → lin < max_mem)
    (step : (idx : ℕ) (s : Cursor)
      → J s
      → (p : Pick) × (pick rand w fuel idx s ≡ done p) × Q idx p.lin_addr × J p.cursor) where
  fill-IsTable :
      (n idx : ℕ) (s : Cursor)
      → J s
      → (addrs : List ℕ) × (fill rand chunks w fuel n idx s ≡ done addrs)
        × IsTable chunks Q n idx addrs
  unfolding fill
  fill-IsTable zero idx s j = ([], refl, record { size = refl; serves = λ i e h. cc })
  fill-IsTable (suc n) idx s j =
      let (p, picked, q, j') = step idx s j in
      let (e, entered, at) = entry-IsAt chunks p.lin_addr mapped (small idx p.lin_addr q) in
      let (rest, filled, t) = fill-IsTable n (idx + 1) p.cursor j' in
      (
        e ∷ rest,
        rw (picked, entered, filled) refl,
        record { size = omega (arith, t.size); serves = serves-cons Q n idx e p.lin_addr q at t },
      )

  -- What `dma_addr_from_idx` finds at any index of a filled table.
  pub lookup_lem :
      (s : Cursor) (idx : ℕ)
      → J s
      → (addrs : List ℕ) × (a : Address) × (lin : ℕ) × (fill rand chunks w fuel addr_array_sz 0 s
          ≡ done addrs)
        × (dma_addr_from_idx addrs idx ≡ done a)
        × Q (idx % addr_array_sz) lin
        × IsAt chunks lin a
  unfolding dma_addr_from_idx
  lookup_lem s idx j =
      let (addrs, filled, t) = fill-IsTable addr_array_sz 0 s j in
      let (e, found) = get_elem?_of_lt addrs (idx % addr_array_sz) (omega (arith, t.size)) in
      let (lin, q, at) = t.serves (idx % addr_array_sz) e found in
      let start : 0 + idx % addr_array_sz ≡ idx % addr_array_sz = omega arith in
      (addrs, split_entry e, lin, filled, rw (and_low 20 idx, found) refl, rw start at q, at)
