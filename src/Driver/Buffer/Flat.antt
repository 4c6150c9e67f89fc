-- ===== src/Driver/Buffer/Flat.antt =====
-- The buffer as user space sees it, one flat file, and what the kernel documents of its copies.
use pciebench_nfp.Common.{ℕ, ◌+◌, ◌-◌, ◌/◌, ◌%◌, ◌≤◌, ◌<◌, ◌≡◌, ◌≢◌, ◌⊎◌, ap, ◌∙◌, arith}
use pciebench_nfp.Driver.Buffer.{Bytes, Copy, chunk_sz}

abbrev pub flat : (ℕ → Bytes) → Bytes
flat buf a = buf (a / chunk_sz) (a % chunk_sz)

-- A copy with nothing left uncopied moves `n` bytes; any copy leaves the bytes around alone.
pub record IsCopy (copy : Copy) : Type 0 where
  pub copied :
      (d : Bytes) (i : ℕ) (s : Bytes) (j n k : ℕ)
      → (copy d i s j n).1 ≡ 0
      → i ≤ k
      → k < i + n
      → (copy d i s j n).0 k ≡ s (j + (k - i))
  pub kept :
      (d : Bytes) (i : ℕ) (s : Bytes) (j n k : ℕ)
      → (k < i) ⊎ (i + n ≤ k)
      → (copy d i s j n).0 k ≡ d k

-- Some copy leaves bytes uncopied.
abbrev pub Fails : Copy → Type 0
Fails copy = (d : Bytes) × (i : ℕ) × (s : Bytes) × (j : ℕ) × (n : ℕ) × ((copy d i s j n).1 ≢ 0)

-- Within a chunk, the flat file runs as the chunk does.
pub flat_in_chunk :
    (buf : ℕ → Bytes) (a k : ℕ)
    → a % chunk_sz + k < chunk_sz
    → flat buf (a + k) ≡ buf (a / chunk_sz) (a % chunk_sz + k)
flat_in_chunk buf a k h = ap (λ i. buf i ((a + k) % chunk_sz)) same ∙ ap (buf (a / chunk_sz)) inside
  where
    same : (a + k) / chunk_sz ≡ a / chunk_sz
    same = omega arith

    inside : (a + k) % chunk_sz ≡ a % chunk_sz + k
    inside = omega arith
