-- ===== src/Tests/Buffer.antt =====
-- Tests of the model of the kernel module's buffer file.
use pciebench_nfp.Common.{refl, ◌+◌, ◌-◌, arith, ltb, leb, ◌&&◌, if◌then◌else◌, ◌*◌}
use pciebench_nfp.Driver.Buffer.{Memory, Copy, npb_buf_read, npb_buf_write, max_mem}
use pciebench_nfp.Driver.Buffer.Flat.{IsCopy, Fails}
use pciebench_nfp.Driver.Buffer.File.{
  ReadsFile, WritesFile, npb_buf_read-ReadsFile, npb_buf_write-WritesFile,
}
use pciebench_nfp.Driver.Buffer.Whole.{ReadsAll}
use pciebench_nfp.Driver.Buffer.Fresh.{fresh, pattern_byte, fresh-ReadsAll}

-- A copy that never fails, and one that fails on user addresses from 8 on.
abbrev pub whole_copy : Copy
whole_copy d i s j n = ((λ k. if leb i k && ltb k (i + n) then s (j + (k - i)) else d k), 0)

abbrev short_copy : Copy
short_copy d i s j n = (
  (λ k. if leb i k && ltb k (i + n) then s (j + (k - i)) else d k),
  (if ltb 8 (i + n) then 1 else 0),
)

pub whole_copy-IsCopy : IsCopy whole_copy
whole_copy-IsCopy = record {
  copied = λ d i s j n k clean above below. ground arith;
  kept = λ d i s j n k out. ground arith;
}

short_copy-IsCopy : IsCopy short_copy
short_copy-IsCopy = record {
  copied = λ d i s j n k clean above below. ground arith;
  kept = λ d i s j n k out. ground arith;
}

-- Byte `o` of chunk `c` is `c * 1000 + o`.
abbrev pub ramp : Memory
ramp = record { buf = λ c o. c * 1000 + o; user = λ k. 7 }

npb_buf_read-ReadsFile_example :
    ReadsFile whole_copy 16 0x3f_fff8 ramp (npb_buf_read whole_copy whole_copy ramp 16 0x3f_fff8)
npb_buf_read-ReadsFile_example =
    npb_buf_read-ReadsFile whole_copy whole_copy 16 0x3f_fff8 ramp whole_copy-IsCopy (omega arith)

npb_buf_write-WritesFile_example :
    WritesFile short_copy 100
      (max_mem - 4)
      ramp
      (npb_buf_write short_copy whole_copy ramp 100 (max_mem - 4))
npb_buf_write-WritesFile_example =
    npb_buf_write-WritesFile short_copy whole_copy 100 (max_mem - 4) ramp short_copy-IsCopy
      (omega arith)

pub whole_copy_succeeds : ¬ (Fails whole_copy)
whole_copy_succeeds (d, i, s, j, n, fails) = fails refl

-- The last words of chunk 0 and the first of chunk 1.
fresh-ReadsAll_example :
    ReadsAll pattern_byte 16 0x3f_fff8
      (npb_buf_read whole_copy whole_copy (fresh (λ c o. c + o) (λ k. 7)) 16 0x3f_fff8)
fresh-ReadsAll_example =
    fresh-ReadsAll whole_copy whole_copy whole_copy-IsCopy whole_copy_succeeds (λ c o. c + o)
      (λ k. 7) 16 0x3f_fff8 (omega arith)
