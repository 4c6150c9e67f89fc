-- ===== src/Tests/Files.antt =====
-- Tests of the model of the procfs files.
use pciebench_nfp.Common.{ℕ, zero, suc, ◌≡◌, ◌+◌, ◌*◌, refl, ap, [], List, length, replicate}
use pciebench_nfp.Driver.Files.{npb_dma_addrs_show}
use pciebench_nfp.Driver.Files.Lines.{
  lines, numbers, addresses, HasNoNewline, npb_dma_addrs_show_roundtrip,
}

-- A notation that prints a number as that many strokes.
abbrev strokes : ℕ → List ℕ
strokes n = replicate n b'1'

strokes-HasNoNewline : (n : ℕ) → HasNoNewline (strokes n)
strokes-HasNoNewline zero = tt
strokes-HasNoNewline (suc n) = (refl, strokes-HasNoNewline n)

length-strokes : (n : ℕ) → length (strokes n) ≡ n
length-strokes zero = refl
length-strokes (suc n) = ap suc (length-strokes n)

npb_dma_addrs_show_roundtrip_example :
    numbers length (lines [] (npb_dma_addrs_show strokes (λ i. i * 3 + 2)))
    ≡ addresses (λ i. i * 3 + 2) 16 0
npb_dma_addrs_show_roundtrip_example =
    npb_dma_addrs_show_roundtrip strokes length strokes-HasNoNewline length-strokes (λ i. i * 3 + 2)
