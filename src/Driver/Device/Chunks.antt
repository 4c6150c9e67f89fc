-- ===== src/Driver/Device/Chunks.antt =====
-- `npb_init` and `npb_remove` keep the structure and what is held in step.
use native.Mathlib.Decide.{dec_lt}
use pciebench_nfp.Common.{
  ℕ, zero, suc, ◌+◌, ◌≤◌, ◌<◌, ◌≡◌, refl, arith, Bool, true, false, none, Option, ap, ◌∙◌,
  if◌then◌else◌, Bool-cases, inl, inr,
}
use pciebench_nfp.Driver.Device.{
  Kernel, Npb, Env, Err, update, chunks, remove_chunk, remove_chunks, npb_remove, init_chunks,
  dma_unmap_single, free_pages, proc_remove,
}

-- The structure names exactly the pages, mappings and entries held, those of chunks below `i` being
-- gone; nothing was released that was not held.
pub record IsMirrored (i : ℕ) (b : Npb) (k : Kernel) : Type 0 where
  pub below : (j : ℕ) → j < i → (k.pages j ≡ false) × (k.maps j ≡ false)
  pub above : (j : ℕ) → i ≤ j → (k.pages j ≡ b.buf j) × (k.maps j ≡ b.buf_dma_addrs j)
  pub no_misuse : k.misuse ≡ false

-- What the card's structure does not name.
abbrev pub Outer : Type 0
Outer = Bool × Bool × Bool × Bool × Bool

abbrev pub outer : Kernel → Outer
outer k = (k.enabled, k.regions, k.cpp, k.dev_cpp, k.npb)

module _ (b : Npb) where
  remove_chunk-IsMirrored :
      (i : ℕ) (k : Kernel) → IsMirrored i b k → IsMirrored (i + 1) b (remove_chunk b i k)
  unfolding remove_chunk dma_unmap_single free_pages
  remove_chunk-IsMirrored i k m = record {
    below = λ j h. ground (arith, m.below j, m.above i (omega arith));
    above = λ j h. ground (arith, m.above j (omega arith));
    no_misuse = ground (arith, m.above i (omega arith), m.no_misuse);
  }

  remove_chunks-IsMirrored :
      (n i : ℕ) (k : Kernel) → IsMirrored i b k → IsMirrored (i + n) b (remove_chunks b n i k)
  unfolding remove_chunks
  remove_chunks-IsMirrored zero i k m = record {
    below = λ j h. m.below j (omega arith);
    above = λ j h. m.above j (omega arith);
    no_misuse = m.no_misuse;
  }
  remove_chunks-IsMirrored (suc n) i k m =
      let next : i + 1 + n ≡ i + suc n = omega arith in
      rw next at (remove_chunks-IsMirrored n (i + 1) _ (remove_chunk-IsMirrored i k m))

  remove_chunk-same :
      (i : ℕ) (k : Kernel)
      → (outer (remove_chunk b i k) ≡ outer k) × ((remove_chunk b i k).procs ≡ k.procs)
  unfolding remove_chunk dma_unmap_single free_pages
  remove_chunk-same i k = (ground arith, ground arith)

  remove_chunks-same :
      (n i : ℕ) (k : Kernel)
      → (outer (remove_chunks b n i k) ≡ outer k) × ((remove_chunks b n i k).procs ≡ k.procs)
  unfolding remove_chunks
  remove_chunks-same zero i k = (refl, refl)
  remove_chunks-same (suc n) i k =
      let (o, p) = remove_chunk-same i k in
      let (o', p') = remove_chunks-same n (i + 1) (remove_chunk b i k) in (o' ∙ o, p' ∙ p)

-- The structure and what is held agree, and nothing lies beyond the last chunk or entry.
pub record IsInStep (b : Npb) (k : Kernel) : Type 0 where
  pub mirrored : IsMirrored 0 b k
  pub entries :
      (k.procs 0 ≡ b.proc_dma_addrs) × (k.procs 1 ≡ b.proc_buf_sz) × (k.procs 2 ≡ b.proc_buffer)
  pub no_more_entries : (j : ℕ) → 3 ≤ j → k.procs j ≡ false
  pub no_more_chunks : (j : ℕ) → chunks ≤ j → (b.buf j ≡ false) × (b.buf_dma_addrs j ≡ false)

-- No page, mapping or entry is held, and nothing was released that was not held.
pub record IsReleased (k : Kernel) : Type 0 where
  pub no_chunk : (j : ℕ) → (k.pages j ≡ false) × (k.maps j ≡ false)
  pub no_entry : (j : ℕ) → k.procs j ≡ false
  pub no_misuse : k.misuse ≡ false

-- The three entries go first.
module _ (b : Npb) (k : Kernel) (s : IsInStep b k) where
  abbrev without_entries : Kernel
  without_entries =
      let k1 = if b.proc_buffer then proc_remove 2 k else k in
      let k2 = if b.proc_buf_sz then proc_remove 1 k1 else k1 in
      if b.proc_dma_addrs then proc_remove 0 k2 else k2

  without_entries-procs : (j : ℕ) → without_entries.procs j ≡ false
  unfolding proc_remove
  without_entries-procs zero = ground (arith, s.entries)
  without_entries-procs (suc zero) = ground (arith, s.entries)
  without_entries-procs (suc (suc zero)) = ground (arith, s.entries)
  without_entries-procs (suc (suc (suc j))) =
      ground (arith, s.no_more_entries (suc (suc (suc j))) (omega arith))

  without_entries-IsMirrored : IsMirrored 0 b without_entries
  unfolding proc_remove
  without_entries-IsMirrored = record {
    below = λ j h. elim h [ ];
    above = λ j h. ground (arith, s.mirrored.above j h);
    no_misuse = ground (arith, s.entries, s.mirrored.no_misuse);
  }

  without_entries-outer : outer without_entries ≡ outer k
  unfolding proc_remove
  without_entries-outer = ground arith

  -- Of a structure in step, `npb_remove` releases all that is held, and nothing else.
  pub npb_remove-IsReleased : IsReleased (npb_remove b k) × (outer (npb_remove b k) ≡ outer k)
  unfolding npb_remove
  npb_remove-IsReleased = (
    record {
      no_chunk = λ j. elim (dec_lt j chunks) [
        | yes h ↦ m.below j h
        | no h ↦ ground (arith, m.above j (omega arith), s.no_more_chunks j (omega arith))
      ];
      no_entry = λ j. ap (λ (f : ℕ → Bool). f j) same.1 ∙ without_entries-procs j;
      no_misuse = m.no_misuse;
    },
    same.0 ∙ without_entries-outer,
  )
    where
      same :
          (outer (npb_remove b k) ≡ outer without_entries)
          × ((npb_remove b k).procs ≡ without_entries.procs)
      same = remove_chunks-same b chunks 0 without_entries

      m : IsMirrored chunks b (npb_remove b k)
      m = remove_chunks-IsMirrored b chunks 0 without_entries without_entries-IsMirrored

-- What a part of `npb_init` leaves: a structure in step, and if it succeeds, what `P` says.
abbrev pub Initialised : Kernel → (Npb → Type 0) → Npb × Kernel × Option Err → Type 0
Initialised k P (b', k', r) = IsInStep b' k' × (outer k' ≡ outer k) × (r ≡ none → P b')

abbrev pub Filled : ℕ → Npb → Type 0
Filled n b = (j : ℕ) → j < n → (b.buf j ≡ true) × (b.buf_dma_addrs j ≡ true)

module _ (env : Env) where
  grow :
      (i : ℕ) (b : Npb) (k : Kernel) (mapped : Bool)
      → i < chunks
      → IsInStep b k
      → IsInStep
          (record b {
            buf = update b.buf i true;
            buf_dma_addrs = if mapped then update b.buf_dma_addrs i true else b.buf_dma_addrs;
          })
          (record k {
            pages = update k.pages i true;
            maps = if mapped then update k.maps i true else k.maps;
          })
  grow i b k mapped h s = record {
    mirrored = record {
      below = λ j h. elim h [ ];
      above = λ j above. ground (arith, s.mirrored.above j above);
      no_misuse = s.mirrored.no_misuse;
    };
    entries = s.entries;
    no_more_entries = s.no_more_entries;
    no_more_chunks = λ j beyond. ground (arith, s.no_more_chunks j beyond);
  }

  pub init_chunks-IsInStep :
      (n i : ℕ) (b : Npb) (k : Kernel)
      → i + n ≡ chunks
      → IsInStep b k
      → Filled i b
      → Initialised k (Filled chunks) (init_chunks env n i b k)
  unfolding init_chunks
  init_chunks-IsInStep zero i b k e s full = (s, refl, λ r j h. full j (omega arith))
  init_chunks-IsInStep (suc n) i b k e s full = elim (Bool-cases (env.alloc_pages i)) [
    | inr failed ↦ rw failed (s, refl, λ r. cc)
    | inl got ↦ elim (Bool-cases (env.dma_map_single i)) [
      | inr failed ↦ rw (got, failed) (grow i b k false (omega arith) s, refl, λ r. cc)
      | inl mapped ↦
          rw (got, mapped)
            (init_chunks-IsInStep n (i + 1) _ _ (omega arith) (grow i b k true (omega arith) s)
              (λ j h. ground (arith, full j)))
    ]
  ]
