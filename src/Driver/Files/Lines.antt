-- ===== src/Driver/Files/Lines.antt =====
-- The file with the DMA addresses, read line by line, gives them back.
use mathlib.Core.List.{append_assoc, append-nil}
use pciebench_nfp.Common.{
  ℕ, zero, suc, ◌+◌, ◌≡◌, refl, sym, ap, ◌∙◌, false, ◌==◌, if◌then◌else◌, List, [], ◌∷◌, ◌++◌, drop,
}
use pciebench_nfp.Driver.Buffer.{chunks}
use pciebench_nfp.Driver.Files.{newline, show_from, npb_dma_addrs_show}

-- The lines of a text that ends each line by a newline, after the start `line` of the first.
abbrev pub lines : List ℕ → List ℕ → List (List ℕ)
lines line [] = []
lines line (c ∷ cs) = if c == newline then line ∷ lines [] cs else lines (line ++ c ∷ []) cs

abbrev pub HasNoNewline : List ℕ → Type 0
HasNoNewline [] = Unit {0}
HasNoNewline (c ∷ cs) = (c == newline ≡ false) × HasNoNewline cs

-- The numbers on the lines, read by `strtoll` behind the two characters of the prefix.
abbrev pub numbers : (List ℕ → ℕ) → List (List ℕ) → List ℕ
numbers strtoll [] = []
numbers strtoll (l ∷ ls) = strtoll (drop 2 l) ∷ numbers strtoll ls

abbrev pub addresses : (ℕ → ℕ) → ℕ → ℕ → List ℕ
addresses buf_dma_addrs zero i = []
addresses buf_dma_addrs (suc n) i = buf_dma_addrs i ∷ addresses buf_dma_addrs n (i + 1)

lines-append :
    (line cs rest : List ℕ)
    → HasNoNewline cs
    → lines line (cs ++ newline ∷ rest) ≡ (line ++ cs) ∷ lines [] rest
lines-append line [] rest none_left = ap (λ l. l ∷ lines [] rest) (sym (append-nil line))
lines-append line (c ∷ cs) rest (other, more) = rw other (
    lines-append (line ++ c ∷ []) cs rest more
    ∙ ap (λ l. l ∷ lines [] rest) (append_assoc line (c ∷ []) cs))

module _ (llx : ℕ → List ℕ) (strtoll : List ℕ → ℕ) (prints : (a : ℕ) → HasNoNewline (llx a))
    (reads : (a : ℕ) → strtoll (llx a) ≡ a) (buf_dma_addrs : ℕ → ℕ) where
  show_from-lines :
      (n i : ℕ)
      → numbers strtoll (lines [] (show_from llx buf_dma_addrs n i)) ≡ addresses buf_dma_addrs n i
  unfolding show_from
  show_from-lines zero i = refl
  show_from-lines (suc n) i =
      ap (numbers strtoll) (
        lines-append (b'0' ∷ b'x' ∷ []) (llx (buf_dma_addrs i))
          (show_from llx buf_dma_addrs n (i + 1)) (prints (buf_dma_addrs i)))
      ∙ rw (reads (buf_dma_addrs i), show_from-lines n (i + 1)) refl

  -- If `%llx` prints no newline and what it prints is read back as the number: the lines of the file
  -- read back are the addresses of the 16 chunks, in order.
  pub npb_dma_addrs_show_roundtrip :
      numbers strtoll (lines [] (npb_dma_addrs_show llx buf_dma_addrs))
      ≡ addresses buf_dma_addrs chunks 0
  unfolding npb_dma_addrs_show
  npb_dma_addrs_show_roundtrip = show_from-lines chunks 0
