-- ===== src/Warming/Memory.antt =====
-- What the writes of `host_warm_cache` leave in the memory of the host. `arrive w i` is byte `i` of a word
-- `w` of the card as the bus stores it.
use pciebench_nfp.Common.{
  ℕ, zero, suc, ◌+◌, ◌-◌, ◌*◌, ◌/◌, ◌%◌, ◌≤◌, ◌<◌, ◌≡◌, ◌≢◌, refl, ap, ◌∙◌, arith, Bool-cases, inl,
  inr, ◌==◌, ◌&&◌, leb, ltb, List, [], ◌∷◌, ◌++◌, some, get_elem?, get_elem?_of_lt, get_or,
  if◌then◌else◌,
}
use pciebench_nfp.Addresses.{max_mem, chunk_sz}
use pciebench_nfp.Addresses.Table.{IsMapped}
use pciebench_nfp.Warming.{word}
use pciebench_nfp.Warming.Sweep.{IsAligned, host_address, get_or_of_found}
use pciebench_nfp.Warming.Warm.{pass}

-- The chunks begin at different addresses.
abbrev pub IsApart : List ℕ → Type 0
IsApart chunks =
    (i j base : ℕ) → get_elem? chunks i ≡ some base → get_elem? chunks j ≡ some base → i ≡ j

module _ (arrive : ℕ → ℕ → ℕ) where
  -- A write of 16 times the word `w` from the address `a` on, and a list of those, the last one first.
  abbrev store_line : ℕ → ℕ → (ℕ → ℕ) → ℕ → ℕ
  store_line a w mem x = if leb a x && ltb x (a + 64) then arrive w ((x - a) % 4) else mem x

  abbrev pub stores : List (ℕ × ℕ) → (ℕ → ℕ) → ℕ → ℕ
  stores [] mem = mem
  stores ((a, w) ∷ ws) mem = store_line a w (stores ws mem)

module _ (chunks : List ℕ) (mapped : IsMapped chunks) (aligned : IsAligned chunks)
    (apart : IsApart chunks) where
  -- The chunk of a linear address.
  chunk_of :
      (lin : ℕ)
      → lin < max_mem
      → (base : ℕ) × (get_elem? chunks (lin / chunk_sz) ≡ some base)
        × (get_or chunks (lin / chunk_sz) 0 ≡ base)
        × (base % chunk_sz ≡ 0)
  chunk_of lin h =
      let (base, found) = get_elem?_of_lt chunks (lin / chunk_sz) (omega (arith, mapped.count)) in
      (base, found, get_or_of_found chunks (lin / chunk_sz) base found, aligned _ base found)

  -- A byte of line `k` is in the line's 64 bytes of host memory, and no other byte is.
  in_line : (o k : ℕ) → o / 64 ≡ k → host_address chunks o ≡ host_address chunks (k * 64) + o % 64
  in_line o k h =
      let same : o / chunk_sz ≡ k * 64 / chunk_sz = omega arith in
      let rest : o % chunk_sz ≡ k * 64 % chunk_sz + o % 64 = omega arith in
      omega (arith, ap (λ (i : ℕ). get_or chunks i 0) same)

  off_line :
      (o k : ℕ)
      → o < max_mem
      → k * 64 < max_mem
      → host_address chunks (k * 64) ≤ host_address chunks o
      → host_address chunks o < host_address chunks (k * 64) + 64
      → o / 64 ≡ k
  off_line o k small small' above below =
      let (b, found, at, multiple) = chunk_of o small in
      let (b', found', at', multiple') = chunk_of (k * 64) small' in
      let same : b ≡ b' = omega (arith, at, at', multiple, multiple') in
      let together : o / chunk_sz ≡ k * 64 / chunk_sz =
        apart (o / chunk_sz) (k * 64 / chunk_sz) b' (found ∙ ap (λ (x : ℕ). some x) same) found' in
      omega (arith, at, at', same, together)

  module _ (arrive : ℕ → ℕ → ℕ) (first : ℕ) (rest : List (ℕ × ℕ)) (mem : ℕ → ℕ) where
    -- Each byte of the lines of a pass holds its part of the line's word.
    pub pass_stored :
        (k o : ℕ)
        → k * 64 ≤ max_mem
        → o / 64 < k
        → stores arrive (pass chunks first k ++ rest) mem (host_address chunks o)
          ≡ arrive (word 0xcafe0000 (first + o / 64)) (o % 4)
    pass_stored zero o fits h = absurd (omega arith)
    pass_stored (suc k) o fits h = elim (Bool-cases (o / 64 == k)) [
      | inl hit ↦
          let here : o / 64 ≡ k = ground (arith, hit) in
          let at = in_line o k here in
          let offset : (host_address chunks o - host_address chunks (k * 64)) % 4 ≡ o % 4 =
            omega (arith, at) in
          ground (arith, at, here, offset)
      | inr miss ↦
          let elsewhere : o / 64 ≢ k = ground (arith, miss) in
          let before = pass_stored k o (omega arith) (omega arith) in
          ground (arith, before, elsewhere, off_line o k (omega arith) (omega arith))
    ]

    -- A byte that is in none of the lines is as it was.
    pub pass_kept :
        (k x : ℕ)
        → k * 64 ≤ max_mem
        → ((o : ℕ) → o < k * 64 → x ≢ host_address chunks o)
        → stores arrive (pass chunks first k ++ rest) mem x ≡ stores arrive rest mem x
    pass_kept zero x fits out = refl
    pass_kept (suc k) x fits out =
        let before = pass_kept k x (omega arith) (λ o h. out o (omega arith)) in
        let line = host_address chunks (k * 64) in
        elim (Bool-cases (leb line x && ltb x (line + 64))) [
          | inr off ↦ rw off before
          | inl on ↦
              let above : line ≤ x = ground (arith, on) in
              let below : x < line + 64 = ground (arith, on) in
              absurd (
                out (k * 64 + (x - line)) (omega arith)
                  (omega (arith, in_line (k * 64 + (x - line)) k (omega arith))))
        ]
