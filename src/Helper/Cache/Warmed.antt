-- ===== src/Helper/Cache/Warmed.antt =====
-- What `warm_cache` leaves in the host's buffer, through the kernel module's `npb_buf_write`.
use mathlib.Core.Path.{subst}
use native.Mathlib.Decide.{dec_lt}
use pciebench_nfp.Common.{
  ℕ, zero, suc, ◌+◌, ◌-◌, ◌*◌, ◌/◌, ◌%◌, ◌^◌, ◌≤◌, ◌<◌, min, ◌≡◌, inl, inr, refl, ap, sym, ◌∙◌,
  arith,
}
use pciebench_nfp.Driver.Buffer.{
  Memory, Copy, Bytes, Result, bytes, efault, broken, max_mem, npb_buf_write,
}
use pciebench_nfp.Driver.Buffer.Flat.{flat, IsCopy, Fails}
use pciebench_nfp.Driver.Buffer.File.{WritesFile, npb_buf_write-WritesFile}
use pciebench_nfp.Helper.Cache.{page, num_pages, write_pages, passes, warm_cache}

-- The first `len` bytes of the file hold pages, and the others are those of `m0`.
pub record IsFilled (m0 : ℕ → Bytes) (len : ℕ) (m : Memory) : Type 0 where
  pub user : m.user ≡ page
  pub filled : (a : ℕ) → a < len → flat m.buf a ≡ page (a % 4096)
  pub kept : (a : ℕ) → len ≤ a → flat m.buf a ≡ flat m0 a

page_offset : (a len : ℕ) → len % 4096 ≡ 0 → len ≤ a → page (a - len) ≡ page (a % 4096)
page_offset a len aligned beyond =
    let same : (a - len) % 4 ≡ a % 4096 % 4 = omega arith in
    ap (λ (k : ℕ). 0xf00d0001 / 2 ^ (8 * k) % 2 ^ 8) same

-- How far `n` more pages reach from `len` on.
abbrev reach : ℕ → ℕ → ℕ
reach len n = min (len + n * 4096) max_mem

module _ (copy_from_user copy_to_user : Copy) (copies : IsCopy copy_from_user)
    (succeeds : ¬ (Fails copy_from_user)) where
  written :
      (m0 : ℕ → Bytes) (len : ℕ) (m : Memory) (r : Memory × ℕ × Result)
      → len ≤ max_mem
      → len % 4096 ≡ 0
      → IsFilled m0 len m
      → WritesFile copy_from_user 4096 len m r
      → (r.1 ≡ reach len 1) × IsFilled m0 (reach len 1) r.0
  written m0 len m (m', off, bytes n) room aligned f (all_, moved, same, inside, outside) = (
    omega (arith, all_, moved),
    record {
      user = same ∙ f.user;
      filled = λ a h. elim (dec_lt a len) [
        | yes old ↦ outside a (inl old) ∙ f.filled a old
        | no new ↦
            inside a (omega (arith, new)) (omega (arith, all_, new, h))
            ∙ ap (λ (u : Bytes). u (a - len)) f.user
            ∙ page_offset a len aligned (omega (arith, new))
      ];
      kept = λ a h. outside a (inr (omega (arith, all_, h))) ∙ f.kept a (omega (arith, h));
    },
  )
  written m0 len m (m', off, efault) room aligned f (same_off, same, outside, failed) =
      absurd (succeeds failed)
  written m0 len m (m', off, broken) room aligned f h = absurd h

  write_pages-IsFilled :
      (m0 : ℕ → Bytes) (n len : ℕ) (m : Memory)
      → len ≤ max_mem
      → len % 4096 ≡ 0
      → IsFilled m0 len m
      → IsFilled m0 (reach len n) (write_pages copy_from_user copy_to_user n len m)
  unfolding write_pages
  write_pages-IsFilled m0 zero len m room aligned f =
      let here : len ≡ reach len 0 = omega arith in subst (λ k. IsFilled m0 k m) here f
  write_pages-IsFilled m0 (suc n) len m room aligned f =
      let r = npb_buf_write copy_from_user copy_to_user m 4096 len in
      let (moved, f') =
        written m0 len m r room aligned f
          (npb_buf_write-WritesFile copy_from_user copy_to_user 4096 len m copies (omega arith)) in
      let total : reach (reach len 1) n ≡ reach len (suc n) = omega arith in
      subst (λ k. IsFilled m0 (reach len (suc n)) (write_pages copy_from_user copy_to_user n k r.0))
        (sym moved)
        (subst (λ k. IsFilled m0 k (write_pages copy_from_user copy_to_user n (reach len 1) r.0))
          total (write_pages-IsFilled m0 n (reach len 1) r.0 (omega arith) (omega arith) f'))

  -- A pass from the start of the file.
  pass-IsFilled :
      (pages : ℕ) (m : Memory)
      → m.user ≡ page
      → IsFilled m.buf (reach 0 pages) (write_pages copy_from_user copy_to_user pages 0 m)
  pass-IsFilled pages m user =
      write_pages-IsFilled m.buf pages 0 m (omega arith) (omega arith)
        (record { user = user; filled = λ a h. elim h [ ]; kept = λ a h. refl })

  refill :
      (m0 : ℕ → Bytes) (len : ℕ) (m m' : Memory)
      → IsFilled m0 len m
      → IsFilled m.buf len m'
      → IsFilled m0 len m'
  refill m0 len m m' f f' = record {
    user = f'.user;
    filled = f'.filled;
    kept = λ a h. f'.kept a h ∙ f.kept a h;
  }

  passes-IsFilled :
      (m0 : ℕ → Bytes) (n pages : ℕ) (m : Memory)
      → IsFilled m0 (reach 0 pages) m
      → IsFilled m0 (reach 0 pages) (passes copy_from_user copy_to_user n pages m)
  unfolding passes
  passes-IsFilled m0 zero pages m f = f
  passes-IsFilled m0 (suc n) pages m f =
      passes-IsFilled m0 n pages (write_pages copy_from_user copy_to_user pages 0 m)
        (refill m0 (reach 0 pages) m _ f (pass-IsFilled pages m f.user))

  -- If the copies from user space do not fail: for a window of at least one byte, `warm_cache` fills with
  -- its page the window rounded up to whole pages, as far as the buffer reaches, and leaves the rest of
  -- the buffer alone.
  pub warm_cache-IsFilled :
      (win_sz : ℕ) (m : Memory)
      → 0 < win_sz
      → win_sz < 2 ^ 31
      → IsFilled m.buf
          (min ((win_sz + 4095) / 4096 * 4096) max_mem)
          (warm_cache copy_from_user copy_to_user win_sz m)
  unfolding warm_cache num_pages passes
  warm_cache-IsFilled win_sz m pos fits =
      let up : reach 0 (num_pages win_sz) ≡ min ((win_sz + 4095) / 4096 * 4096) max_mem =
        ground arith in
      let m1 : Memory = record m { user = page } in
      subst (λ k. IsFilled m.buf k (warm_cache copy_from_user copy_to_user win_sz m)) up
        (passes-IsFilled m.buf 3 (num_pages win_sz)
          (write_pages copy_from_user copy_to_user (num_pages win_sz) 0 m1)
          (pass-IsFilled (num_pages win_sz) m1 refl))
