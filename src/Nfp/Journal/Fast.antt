-- ===== src/Nfp/Journal/Fast.antt =====
-- `mem_ring_journal_fast` of me/libnfp.c and the macro `MEM_JOURNAL_FAST` of me/libnfp.h: the command that
-- appends a value to a journal.
use pciebench_nfp.Common.{
  ℕ, ◌+◌, ◌-◌, ◌*◌, ◌/◌, ◌%◌, ◌^◌, ◌<◌, ◌≡◌, ◌<<<◌, ◌>>>◌, u32, bit_and, refl, arith,
}
use pciebench_nfp.Common.Bits.{and_low, and_high}
use pciebench_nfp.Nfp.{Chip, nfp3200, nfp6000}

-- The override word of the command, the high part of its address, and the value.
record FastJournal : Type 0 where
  override : ℕ
  hi : ℕ
  value : ℕ

-- `data16` and `ove_data` on the NFP-6000.
mem_ring_journal_fast : Chip → ℕ → ℕ → ℕ → FastJournal
mem_ring_journal_fast nfp3200 rnum addr_hi value = record {
  override = u32 (rnum <<< 5);
  hi = 0;
  value = value;
}
mem_ring_journal_fast nfp6000 rnum addr_hi value = record {
  override = ((rnum % 2 ^ 16) <<< 16) + (1 <<< 3);
  hi = addr_hi;
  value = value;
}

-- `_name##_addr_hi`, from the address that the linker gives a journal.
abbrev journal_addr_hi : ℕ → ℕ
journal_addr_hi link_sym = bit_and (link_sym >>> 8) 0xff000000

mem_journal_fast : Chip → ℕ → ℕ → ℕ → FastJournal
mem_journal_fast c ring_no link_sym value =
    mem_ring_journal_fast c ring_no (journal_addr_hi link_sym) value

-- For a ring number of 16 bits and a journal within 40 bits of address, on the NFP-6000: the override word
-- holds the ring number and asks for its use, and the high part holds the top byte of the address.
mem_journal_fast_fields :
    (ring_no link_sym value : ℕ)
    → ring_no < 2 ^ 16
    → link_sym < 2 ^ 40
    → ((mem_journal_fast nfp6000 ring_no link_sym value).override / 2 ^ 16 ≡ ring_no)
      × ((mem_journal_fast nfp6000 ring_no link_sym value).override / 2 ^ 3 % 2 ^ 3 ≡ 1)
      × ((mem_journal_fast nfp6000 ring_no link_sym value).hi ≡ link_sym / 2 ^ 32 * 2 ^ 24)
      × ((mem_journal_fast nfp6000 ring_no link_sym value).value ≡ value)
unfolding mem_journal_fast mem_ring_journal_fast
mem_journal_fast_fields ring_no link_sym value narrow near = (
  omega arith,
  omega arith,
  omega (arith, and_high 24 (link_sym >>> 8) (2 ^ 8 - 1), and_low 8 ((link_sym >>> 8) / 2 ^ 24)),
  refl,
)
