-- ===== src/Warming/Steered.antt =====
-- The loop of `write_region`.
use mathlib.Core.Path.{subst}
use mathlib.Core.Option.{some-injective}
use pciebench_nfp.Common.{
  ℕ, zero, suc, ◌+◌, ◌*◌, ◌/◌, ◌%◌, ◌^◌, ◌≤◌, ◌<◌, ◌≡◌, refl, ap, sym, ◌∙◌, arith, u32, ◌>>>◌,
  ◌<<<◌, bit_and, Bool, ◌==◌, if◌then◌else◌, some, List, [], ◌∷◌, get_elem?, get_elem?_of_lt, done,
  Bool-cases, inl, inr,
}
use native.Mathlib.Nat.{mod-lt}
use pciebench_nfp.Common.Bits.{and_low}
use pciebench_nfp.Runtime.Division.{mod_u32}
use pciebench_nfp.Runtime.Division.Laws.{mod_u32_lem}
use pciebench_nfp.Nfp.{Chip}
use pciebench_nfp.Nfp.C2p.RoundTrip.{reached}
use pciebench_nfp.Addresses.{max_mem, chunk_sz}
use pciebench_nfp.Addresses.Table.{IsMapped}
use pciebench_nfp.Warming.{barcfg, pcie_write, Writer, word, write_line, write_lines, write_region}
use pciebench_nfp.Warming.Sweep.{
  place, sweep, IsAligned, Sweeps, bar, written, host_address, get_or_of_found, chunk_bar,
  bar_in_chunk, reached_in_chunk,
}

module _ (c : Chip) (start : ℕ) (rand : ℕ → ℕ) (chunks : List ℕ) (win_sz pattern : ℕ)
    (use_rand : Bool) (mapped : IsMapped chunks) (aligned : IsAligned chunks) (pos : 0 < win_sz)
    (small : win_sz ≤ max_mem) where
  place-lt : (t : ℕ) → place rand win_sz use_rand t < max_mem
  place-lt zero = omega arith
  place-lt (suc t) =
      omega (arith, mod-lt (u32 ((if use_rand then rand t else u32 (t + 1)) * 64)) pos)

  -- Before round `t`.
  record IsReady (t : ℕ) (s : Writer) : Type 0 where
    base : ℕ
    chunk : get_elem? chunks (place rand win_sz use_rand t / chunk_sz) ≡ some base
    address : s.addr_hi * 2 ^ 32 + s.addr_lo ≡ base + place rand win_sz use_rand t % chunk_sz
    low : s.addr_lo < 2 ^ 32
    old_chunk : s.old_chunk_idx ≡ place rand win_sz use_rand t / chunk_sz
    drawn : s.reads ≡ (if use_rand then t else 0)
    programmed : bar c start s.ops ≡ chunk_bar c base
    swept : written c start s.ops ≡ sweep rand chunks win_sz pattern use_rand t

  next_place :
      (t : ℕ) (s : Writer)
      → s.reads ≡ (if use_rand then t else 0)
      → mod_u32 (u32 ((if use_rand then rand s.reads else u32 (t + 1)) <<< 6)) win_sz
        ≡ place rand win_sz use_rand (suc t)
  next_place t s drawn =
      mod_u32_lem (u32 ((if use_rand then rand s.reads else u32 (t + 1)) <<< 6)) win_sz
        (omega arith) (omega arith) pos
      ∙ ap (λ (i : ℕ). u32 (i * 64) % win_sz) same
    where
      same :
          (if use_rand then rand s.reads else u32 (t + 1))
          ≡ (if use_rand then rand t else u32 (t + 1))
      same = elim (Bool-cases use_rand) [
        | inl random ↦ let here : s.reads ≡ t = ground (arith, random) in rw (random, here) refl
        | inr in_order ↦ rw in_order refl
      ]

  -- The halves of the address that a round computes.
  halves :
      (base off : ℕ)
      → base % chunk_sz ≡ 0
      → base + chunk_sz ≤ 2 ^ 40
      → off < chunk_sz
      → u32 (base >>> 32) * 2 ^ 32 + u32 (bit_and base 0xffffffff + off) ≡ base + off
  halves base off at_multiple fits inside = omega (arith, and_low 32 base)

  -- The write of a round goes where it should, through the right BAR.
  now-written :
      (t : ℕ) (s : Writer)
      → IsReady t s
      → reached c (bar c start s.ops) s.addr_hi s.addr_lo 64
        ≡ host_address chunks (place rand win_sz use_rand t)
  now-written t s r =
      ap (λ (b : ℕ). reached c b s.addr_hi s.addr_lo 64) r.programmed
      ∙ reached_in_chunk c s.addr_hi s.addr_lo r.base (place rand win_sz use_rand t % chunk_sz) 64
          (aligned _ r.base r.chunk) (omega arith) r.low r.address (mapped.within _ r.base r.chunk)
          (omega arith) (omega arith)
      ∙ omega (
        arith,
        r.address,
        get_or_of_found chunks (place rand win_sz use_rand t / chunk_sz) r.base r.chunk,
      )

  -- What the round leaves, if it computes the address `hi`, `lo` in the chunk at `base`.
  after : ℕ → Writer → ℕ → ℕ → Writer
  after t s hi lo =
      let ops1 = pcie_write s.addr_hi s.addr_lo (word pattern t) ∷ s.ops in
      record {
        addr_hi = hi;
        addr_lo = lo;
        old_chunk_idx = place rand win_sz use_rand (suc t) / chunk_sz;
        reads = if use_rand then s.reads + 1 else s.reads;
        ops =
            if place rand win_sz use_rand (suc t) / chunk_sz == s.old_chunk_idx
            then ops1
            else barcfg hi lo ∷ ops1;
      }

  after-IsReady :
      (t : ℕ) (s : Writer) (base hi lo : ℕ)
      → IsReady t s
      → get_elem? chunks (place rand win_sz use_rand (suc t) / chunk_sz) ≡ some base
      → hi * 2 ^ 32 + lo ≡ base + place rand win_sz use_rand (suc t) % chunk_sz
      → lo < 2 ^ 32
      → IsReady (suc t) (after t s hi lo)
  unfolding after
  after-IsReady t s base hi lo r found at low =
      let there = now-written t s r in
      let gone : ℕ = reached c (bar c start s.ops) s.addr_hi s.addr_lo 64 in
      let entered =
        ap (λ (a : ℕ). (a, word pattern t) ∷ sweep rand chunks win_sz pattern use_rand t) there in
      let drawn : (if use_rand then s.reads + 1 else s.reads) ≡ (if use_rand then suc t else 0) =
        ground (arith, r.drawn) in
      elim (Bool-cases (place rand win_sz use_rand (suc t) / chunk_sz == s.old_chunk_idx)) [
        | inl same ↦
            let here : place rand win_sz use_rand (suc t) / chunk_sz
                ≡ place rand win_sz use_rand t / chunk_sz =
              ground (arith, same, r.old_chunk) in
            let same_base : r.base ≡ base =
              some-injective _ _ (sym r.chunk ∙ ap (get_elem? chunks) (sym here) ∙ found) in
            rw same (record {
              base = base;
              chunk = found;
              address = at;
              low = low;
              old_chunk = refl;
              drawn = drawn;
              programmed = r.programmed ∙ ap (chunk_bar c) same_base;
              swept = ap (λ l. (gone, word pattern t) ∷ l) r.swept ∙ entered;
            })
        | inr moved ↦ rw moved (record {
          base = base;
          chunk = found;
          address = at;
          low = low;
          old_chunk = refl;
          drawn = drawn;
          programmed =
              bar_in_chunk c hi lo base (place rand win_sz use_rand (suc t) % chunk_sz)
                (aligned _ base found) (omega arith) low at;
          swept = ap (λ l. (gone, word pattern t) ∷ l) r.swept ∙ entered;
        })
      ]

  round :
      (t : ℕ) (s : Writer)
      → IsReady t s
      → (s' : Writer) × (write_line rand chunks win_sz pattern use_rand t s ≡ done s')
        × IsReady (suc t) s'
  unfolding write_line after
  round t s r =
      let (base, found) =
        get_elem?_of_lt chunks (place rand win_sz use_rand (suc t) / chunk_sz)
          (omega (arith, mapped.count, place-lt (suc t))) in
      let hi : ℕ = u32 (base >>> 32) in
      let lo : ℕ = u32 (bit_and base 0xffffffff + place rand win_sz use_rand (suc t) % chunk_sz) in
      let at =
        halves base (place rand win_sz use_rand (suc t) % chunk_sz) (aligned _ base found)
          (mapped.within _ base found) (omega arith) in
      (
        after t s hi lo,
        rw (next_place t s r.drawn, and_low 22 (place rand win_sz use_rand (suc t)), found) refl,
        after-IsReady t s base hi lo r found at (omega arith),
      )

  rounds :
      (n t : ℕ) (s : Writer)
      → IsReady t s
      → (s' : Writer) × (write_lines rand chunks win_sz pattern use_rand n t s ≡ done s')
        × IsReady (t + n) s'
  unfolding write_lines
  rounds zero t s r =
      let none_left : t ≡ t + 0 = omega arith in (s, refl, subst (λ k. IsReady k s) none_left r)
  rounds (suc n) t s r =
      let (s1, first, r1) = round t s r in
      let (s2, rest, r2) =
        rounds n (t + 1) s1 (subst (λ k. IsReady k s1) {x = suc t} (omega arith) r1) in
      let total : t + 1 + n ≡ t + suc n = omega arith in
      (s2, rw first rest, subst (λ k. IsReady k s2) total r2)

  start-IsReady :
      (base : ℕ)
      → get_elem? chunks 0 ≡ some base
      → IsReady 0 (record {
        addr_hi = u32 (base >>> 32);
        addr_lo = bit_and base 0xffffffff;
        old_chunk_idx = 0;
        reads = 0;
        ops = barcfg (u32 (base >>> 32)) (bit_and base 0xffffffff) ∷ [];
      })
  start-IsReady base found =
      let hi : ℕ = u32 (base >>> 32) in
      let lo : ℕ = bit_and base 0xffffffff in
      let fits : base + chunk_sz ≤ 2 ^ 40 = mapped.within 0 base found in
      let at : hi * 2 ^ 32 + lo ≡ base + 0 = omega (arith, and_low 32 base, fits) in
      let low : lo < 2 ^ 32 = omega (arith, and_low 32 base) in
      record {
        base = base;
        chunk = found;
        address = at;
        low = low;
        old_chunk = refl;
        drawn = ground arith;
        programmed = bar_in_chunk c hi lo base 0 (aligned 0 base found) (omega arith) low at;
        swept = refl;
      }

  -- For chunks that are mapped and aligned, and a window that is not empty and fits in memory,
  -- `write_region` ends, and its writes go through the BAR to where the lines are mapped.
  pub write_region-Sweeps :
      Sweeps c start
        (write_region rand chunks win_sz pattern use_rand)
        (sweep rand chunks win_sz pattern use_rand (2 * (win_sz / 64)))
  unfolding write_region
  write_region-Sweeps =
      let (base, found) = get_elem?_of_lt chunks 0 (omega (arith, mapped.count)) in
      let lines : u32 (2 * (win_sz / 64)) ≡ 2 * (win_sz / 64) = omega arith in
      let total : 0 + 2 * (win_sz / 64) ≡ 2 * (win_sz / 64) = omega arith in
      let (s, ended, r) =
        rounds (2 * (win_sz / 64)) 0
          (record {
            addr_hi = u32 (base >>> 32);
            addr_lo = bit_and base 0xffffffff;
            old_chunk_idx = 0;
            reads = 0;
            ops = barcfg (u32 (base >>> 32)) (bit_and base 0xffffffff) ∷ [];
          })
          (start-IsReady base found) in
      (s.ops, rw (found, lines, ended) refl, rw total at r.swept)
