-- ===== src/Warming/ReadBack.antt =====
-- `host_warm_cache` on the card and `npb_buf_read` on the host, together.
use pciebench_nfp.Common.{
  ℕ, ◌+◌, ◌/◌, ◌%◌, ◌≤◌, ◌<◌, ◌≡◌, ◌≢◌, sym, ap, ◌∙◌, arith, List, [], get_or, Outcome, done,
}
use mathlib.Core.List.{append-nil}
use pciebench_nfp.Nfp.{Chip}
use pciebench_nfp.Addresses.{max_mem}
use pciebench_nfp.Addresses.Table.{IsMapped}
use pciebench_nfp.Warming.{HostOp, word, host_warm_cache}
use pciebench_nfp.Warming.Sweep.{IsAligned, host_address, written}
use pciebench_nfp.Warming.Warm.{pass, host_warm_cache-Sweeps}
use pciebench_nfp.Warming.Memory.{IsApart, stores, pass_stored, pass_kept}
use pciebench_nfp.Driver.Buffer.{Bytes, Copy, npb_buf_read}
use pciebench_nfp.Driver.Buffer.Flat.{IsCopy, Fails}
use pciebench_nfp.Driver.Buffer.Whole.{ReadsAll, npb_buf_read-ReadsAll}

-- `npb->buf` in the host's memory, by the addresses at which the chunks are mapped.
abbrev pub buffers : List ℕ → Bytes → ℕ → Bytes
buffers chunks mem i o = mem (get_or chunks i 0 + o)

-- Byte `a` of a window that was warmed: the second pass over the lines.
abbrev pub warm_byte : (ℕ → ℕ → ℕ) → ℕ → ℕ → ℕ
warm_byte arrive win_sz a = arrive (word 0xcafe0000 (win_sz / 64 + a / 64)) (a % 4)

-- The routine ends; a read of `count` bytes of the file gives the words that the card wrote, and
-- memory outside of the window is as it was.
abbrev pub IsReadBack :
    Chip
    → ℕ
    → (ℕ → ℕ → ℕ)
    → List ℕ
    → ℕ
    → Bytes
    → Copy
    → Copy
    → Bytes
    → ℕ
    → ℕ
    → Outcome (List HostOp)
    → Type 0
IsReadBack c start arrive chunks win_sz mem copy_from_user copy_to_user user count offp routine =
    (ops : List HostOp) × (routine ≡ done ops)
    × ReadsAll (warm_byte arrive win_sz) count offp (
        npb_buf_read copy_from_user copy_to_user
          (record { buf = buffers chunks (stores arrive (written c start ops) mem); user = user })
          count offp)
    × ((x : ℕ)
        → ((o : ℕ) → o < win_sz → x ≢ host_address chunks o)
        → stores arrive (written c start ops) mem x ≡ mem x)

-- For chunks that are mapped, aligned and apart, a window of whole lines that fits in memory,
-- copies to user space that never fail, and a range of the window: once `host_warm_cache` has run,
-- its writes going where the BAR and the commands lead, whatever the BAR held before, a read of the
-- range from the file gives the words of the card's second pass, each in its place; and no memory
-- outside of the window has changed. This holds for any way in which the bus stores the bytes of a
-- word, on either chip.
pub host_warm_cache-IsReadBack :
    (c : Chip) (start : ℕ) (arrive : ℕ → ℕ → ℕ) (rand : ℕ → ℕ) (chunks : List ℕ) (win_sz : ℕ)
    → IsMapped chunks
    → IsAligned chunks
    → IsApart chunks
    → 0 < win_sz
    → win_sz ≤ max_mem
    → win_sz % 64 ≡ 0
    → (copy_from_user copy_to_user : Copy) → IsCopy copy_to_user
    → ¬ (Fails copy_to_user)
    → (mem user : Bytes) (count offp : ℕ) → offp + count ≤ win_sz
    → IsReadBack c start arrive chunks win_sz mem copy_from_user copy_to_user user count offp
        (host_warm_cache rand chunks win_sz)
host_warm_cache-IsReadBack c start arrive rand chunks win_sz mapped aligned apart pos small whole
      copy_from_user copy_to_user law sound mem user count offp inside =
    let (ops, ended, lines) =
      host_warm_cache-Sweeps rand chunks win_sz pos small whole c start mapped aligned in
    let first : List (ℕ × ℕ) = pass chunks 0 (win_sz / 64) in
    let stored : (a : ℕ)
        → a < win_sz
        → stores arrive (written c start ops) mem (host_address chunks a)
          ≡ warm_byte arrive win_sz a =
      λ a h.
        ap (λ l. stores arrive l mem (host_address chunks a)) lines
        ∙ pass_stored chunks mapped aligned apart arrive (win_sz / 64) first mem (win_sz / 64) a
            (omega arith) (omega arith) in
    (
      ops,
      ended,
      npb_buf_read-ReadsAll copy_from_user copy_to_user law sound (warm_byte arrive win_sz) count
          offp
          (record { buf = buffers chunks (stores arrive (written c start ops) mem); user = user })
          (omega arith) (λ k h. stored (offp + k) (omega arith)),
      λ x out.
          ap (λ l. stores arrive l mem x) lines
          ∙ pass_kept chunks mapped aligned apart arrive (win_sz / 64) first mem (win_sz / 64) x
              (omega arith) (λ o h. out o (omega arith))
          ∙ ap (λ l. stores arrive l mem x) (sym (append-nil first))
          ∙ pass_kept chunks mapped aligned apart arrive 0 [] mem (win_sz / 64) x (omega arith)
              (λ o h. out o (omega arith)),
    )
