-- ===== src/Driver/Device/Probe.antt =====
-- A failed probe leaves nothing behind.
use pciebench_nfp.Common.{
  ℕ, ◌≤◌, ◌≡◌, refl, arith, Bool, true, false, none, some, Option, ◌∙◌, Bool-cases, inl, inr,
}
use pciebench_nfp.Driver.Device.{
  Kernel, Npb, Env, Err, Device, other, Pointer, valid, null, err_ptr, probe_steps, chunks,
  init_procs, npb_init, zeroed, finish_init, after_chunks, Probed, after_init, probe_device,
  probe_cpp, npb_pci_probe, disable_device, release_regions, cpp_free, platform_device_unregister,
  kfree, err_init, init_chunks,
}
use pciebench_nfp.Driver.Device.Chunks.{
  IsInStep, IsReleased, outer, npb_remove-IsReleased, Initialised, Filled, init_chunks-IsInStep,
}

-- Every chunk and every procfs entry is there.
abbrev pub IsComplete : Npb → Type 0
IsComplete b =
    Filled chunks b × (b.proc_dma_addrs ≡ true) × (b.proc_buf_sz ≡ true) × (b.proc_buffer ≡ true)

zeroed-IsInStep : (k : Kernel) → IsReleased k → IsInStep zeroed k
zeroed-IsInStep k r = record {
  mirrored = record {
    below = λ j h. elim h [ ];
    above = λ j h. r.no_chunk j;
    no_misuse = r.no_misuse;
  };
  entries = (r.no_entry 0, r.no_entry 1, r.no_entry 2);
  no_more_entries = λ j h. r.no_entry j;
  no_more_chunks = λ j h. (refl, refl);
}

-- What `npb_init` promises.
abbrev pub InitDone : Kernel → Npb × Kernel × Option Err → Type 0
InitDone k (b', k', none) = IsInStep b' k' × IsComplete b' × (outer k' ≡ outer k)
InitDone k (b', k', some e) = IsReleased k' × (outer k' ≡ outer k)

relist :
    (b : Npb) (k : Kernel) (a c d : Bool) (p : ℕ → Bool)
    → IsInStep b k
    → (p 0 ≡ a) × (p 1 ≡ c) × (p 2 ≡ d)
    → ((j : ℕ) → 3 ≤ j → p j ≡ false)
    → IsInStep
        (record b { proc_dma_addrs = a; proc_buf_sz = c; proc_buffer = d })
        (record k { procs = p })
relist b k a c d p s listed rest = record {
  mirrored = record {
    below = s.mirrored.below;
    above = s.mirrored.above;
    no_misuse = s.mirrored.no_misuse;
  };
  entries = listed;
  no_more_entries = rest;
  no_more_chunks = s.no_more_chunks;
}

module _ (env : Env) where
  init_procs-IsInStep :
      (b : Npb) (k : Kernel)
      → IsInStep b k
      → Filled chunks b
      → Initialised k IsComplete (init_procs env b k)
  unfolding init_procs
  init_procs-IsInStep b k s full = elim (Bool-cases (env.proc_create 0)) [
    | inr failed ↦ rw failed (s, refl, λ r. cc)
    | inl got0 ↦ elim (Bool-cases (env.proc_create 1)) [
      | inr failed ↦
          rw (got0, failed)
            (
              relist b k true b.proc_buf_sz b.proc_buffer _ s (ground (arith, s.entries))
                  (λ j h. ground (arith, s.no_more_entries j h)),
              refl,
              λ r. cc,
            )
      | inl got1 ↦ elim (Bool-cases (env.proc_create 2)) [
        | inr failed ↦
            rw (got0, got1, failed)
              (
                relist b k true true b.proc_buffer _ s (ground (arith, s.entries))
                    (λ j h. ground (arith, s.no_more_entries j h)),
                refl,
                λ r. cc,
              )
        | inl got2 ↦
            rw (got0, got1, got2)
              (
                relist b k true true true _ s (ground (arith, s.entries))
                    (λ j h. ground (arith, s.no_more_entries j h)),
                refl,
                λ r. (full, refl, refl, refl),
              )
      ]
    ]
  ]

  finish_init-InitDone :
      (k : Kernel) (r : Npb × Kernel × Option Err)
      → Initialised k IsComplete r
      → InitDone k (finish_init r)
  unfolding finish_init
  finish_init-InitDone k (b', k', none) (s, o, done) = (s, done refl, o)
  finish_init-InitDone k (b', k', some e) (s, o, done) =
      let (released, same) = npb_remove-IsReleased b' k' s in (released, same ∙ o)

  after_chunks-IsInStep :
      (k : Kernel) (r : Npb × Kernel × Option Err)
      → Initialised k (Filled chunks) r
      → Initialised k IsComplete (after_chunks env r)
  unfolding after_chunks
  after_chunks-IsInStep k (b', k', none) (s, o, full) =
      let (s', o', done) = init_procs-IsInStep b' k' s (full refl) in (s', o' ∙ o, done)
  after_chunks-IsInStep k (b', k', some e) (s, o, full) = (s, o, λ r. cc)

  -- From a state in which no page, mapping or entry is held, `npb_init` either completes the
  -- structure, in step with what is then held, or fails and has released all that it acquired.
  pub npb_init-InitDone : (k : Kernel) → IsReleased k → InitDone k (npb_init env zeroed k)
  unfolding npb_init
  npb_init-InitDone k r = finish_init-InitDone k _ (
      after_chunks-IsInStep k (init_chunks env chunks 0 zeroed k)
        (init_chunks-IsInStep env chunks 0 zeroed k refl (zeroed-IsInStep k r) (λ j h. elim h [ ])))

-- Nothing at all is held.
pub record IsIdle (k : Kernel) : Type 0 where
  pub released : IsReleased k
  pub nothing : outer k ≡ (false, false, false, false, false)

pub idle :
    (k : Kernel)
    → ((j : ℕ) → (k.pages j ≡ false) × (k.maps j ≡ false))
    → ((j : ℕ) → k.procs j ≡ false)
    → k.misuse ≡ false
    → outer k ≡ (false, false, false, false, false)
    → IsIdle k
idle k no_chunk no_entry clean none_held = record {
  released = record { no_chunk = no_chunk; no_entry = no_entry; no_misuse = clean };
  nothing = none_held;
}

-- What `npb_pci_probe` promises.
abbrev pub ProbeDone : Probed → Type 0
ProbeDone (k', some b, none) =
    IsInStep b k' × IsComplete b × (outer k' ≡ (true, true, true, true, true))
ProbeDone (k', none, some e) = IsIdle k'
ProbeDone (k', _, _) = ⊥

module _ (env : Env) where
  after_init-ProbeDone :
      (k : Kernel) (r : Npb × Kernel × Option Err)
      → outer k ≡ (true, true, true, true, true)
      → InitDone k r
      → ProbeDone (after_init r)
  unfolding after_init err_init disable_device release_regions cpp_free platform_device_unregister
      kfree
  after_init-ProbeDone k (b', k', none) held (s, c, o) = (s, c, o ∙ held)
  after_init-ProbeDone k (b', k', some e) held (r, o) = record {
    released = record {
      no_chunk = r.no_chunk;
      no_entry = r.no_entry;
      no_misuse = ground (arith, r.no_misuse, o, held);
    };
    nothing = refl;
  }

  probe_device-ProbeDone :
      (k : Kernel)
      → IsReleased k
      → outer k ≡ (true, true, true, false, false)
      → ProbeDone (probe_device env k)
  unfolding probe_device disable_device release_regions cpp_free platform_device_unregister
  probe_device-ProbeDone k r held = elim (Bool-cases env.platform_device_register) [
    | inr failed ↦
        rw failed
          (idle _ r.no_chunk r.no_entry (ground (arith, r.no_misuse, held)) (ground (arith, held)))
    | inl registered ↦ elim (Bool-cases env.kzalloc) [
      | inr failed ↦
          rw (registered, failed)
            (idle _ r.no_chunk r.no_entry (ground (arith, r.no_misuse, held))
              (ground (arith, held)))
      | inl allocated ↦
          simp (registered, allocated)
            (after_init-ProbeDone (record k { dev_cpp = true; npb = true }) _ (ground (arith, held))
              (npb_init-InitDone env (record k { dev_cpp = true; npb = true })
                (record { no_chunk = r.no_chunk; no_entry = r.no_entry; no_misuse = r.no_misuse })))
    ]
  ]

  probe_cpp-ProbeDone :
      (d : Device) (p : Pointer) (k : Kernel)
      → IsReleased k
      → outer k ≡ (true, true, false, false, false)
      → ProbeDone (probe_cpp env d p k)
  unfolding probe_cpp disable_device release_regions
  probe_cpp-ProbeDone other p k r held =
      idle _ r.no_chunk r.no_entry (ground (arith, r.no_misuse, held)) (ground (arith, held))
  probe_cpp-ProbeDone d valid k r held =
      probe_device-ProbeDone (record k { cpp = true })
        (record { no_chunk = r.no_chunk; no_entry = r.no_entry; no_misuse = r.no_misuse })
        (ground (arith, held))
  probe_cpp-ProbeDone d null k r held =
      idle _ r.no_chunk r.no_entry (ground (arith, r.no_misuse, held)) (ground (arith, held))
  probe_cpp-ProbeDone d (err_ptr e) k r held =
      idle _ r.no_chunk r.no_entry (ground (arith, r.no_misuse, held)) (ground (arith, held))

  probe_steps-ProbeDone :
      (a b c d : Option ℕ) (k : Kernel) → IsIdle k → ProbeDone (probe_steps env a b c d k)
  unfolding probe_steps disable_device
  probe_steps-ProbeDone (some e) b c d k i = i
  probe_steps-ProbeDone none (some e) c d k i =
      idle _ i.released.no_chunk i.released.no_entry (ground (arith, i.released.no_misuse))
        (ground (arith, i.nothing))
  probe_steps-ProbeDone none none (some e) d k i =
      idle _ i.released.no_chunk i.released.no_entry (ground (arith, i.released.no_misuse))
        (ground (arith, i.nothing))
  probe_steps-ProbeDone none none none (some e) k i =
      idle _ i.released.no_chunk i.released.no_entry (ground (arith, i.released.no_misuse))
        (ground (arith, i.nothing))
  probe_steps-ProbeDone none none none none k i =
      probe_cpp-ProbeDone env.device env.cpp_from_pcie (record k { enabled = true; regions = true })
        (record {
          no_chunk = i.released.no_chunk;
          no_entry = i.released.no_entry;
          no_misuse = i.released.no_misuse;
        })
        (ground (arith, i.nothing))

  -- However the kernel's calls end, from a state in which nothing is held: a probe that succeeds sets
  -- driver data that are complete and in step with what is held, and one that fails has released
  -- all that it acquired, each thing once, and sets none.
  pub npb_pci_probe-ProbeDone : (k : Kernel) → IsIdle k → ProbeDone (npb_pci_probe env k)
  unfolding npb_pci_probe
  npb_pci_probe-ProbeDone k i = probe_steps-ProbeDone _ _ _ _ k i
