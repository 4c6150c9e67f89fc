-- ===== src/Driver/Buffer/Whole.antt =====
-- `npb_buf_read` where the copies to user space never fail.
use pciebench_nfp.Common.{ℕ, ◌+◌, ◌<◌, ◌≡◌, ◌^◌, ap, ◌∙◌, arith}
use pciebench_nfp.Driver.Buffer.{Copy, Memory, Result, bytes, efault, broken, npb_buf_read}
use pciebench_nfp.Driver.Buffer.Flat.{flat, IsCopy, Fails}
use pciebench_nfp.Driver.Buffer.File.{amount, ReadsFile, npb_buf_read-ReadsFile}

-- A read that moves all there is, the byte at position `a` of the file being `byte a`.
abbrev pub ReadsAll : (ℕ → ℕ) → ℕ → ℕ → Memory × ℕ × Result → Type 0
ReadsAll byte count offp (m', offp', r) =
    (r ≡ bytes (amount count offp))
    × (offp' ≡ offp + amount count offp)
    × ((k : ℕ) → k < amount count offp → m'.user k ≡ byte (offp + k))

module _ (copy : Copy) (sound : ¬ (Fails copy)) (byte : ℕ → ℕ) (count offp : ℕ) (m : Memory)
    (holds : (k : ℕ) → k < amount count offp → flat m.buf (offp + k) ≡ byte (offp + k)) where
  reads_all : (r : Memory × ℕ × Result) → ReadsFile copy count offp m r → ReadsAll byte count offp r
  reads_all (m', offp', bytes n) (all_, next, same, inside, outside) = (
    ap (λ (i : ℕ). bytes i) all_,
    next ∙ ap (λ (i : ℕ). offp + i) all_,
    λ k h. inside k (omega (arith, all_)) ∙ holds k h,
  )
  reads_all (m', offp', efault) (next, same, outside, failing) = absurd (sound failing)
  reads_all (m', offp', broken) h = absurd h

pub npb_buf_read-ReadsAll :
    (copy_from_user copy_to_user : Copy)
    → IsCopy copy_to_user
    → ¬ (Fails copy_to_user)
    → (byte : ℕ → ℕ) (count offp : ℕ) (m : Memory) → count < 2 ^ 63
    → ((k : ℕ) → k < amount count offp → flat m.buf (offp + k) ≡ byte (offp + k))
    → ReadsAll byte count offp (npb_buf_read copy_from_user copy_to_user m count offp)
npb_buf_read-ReadsAll copy_from_user copy_to_user law sound byte count offp m small holds =
    reads_all copy_to_user sound byte count offp m holds
      (npb_buf_read copy_from_user copy_to_user m count offp)
      (npb_buf_read-ReadsFile copy_from_user copy_to_user count offp m law small)
