-- ===== src/Tests/Unaligned.antt =====
-- Tests of the model of unaligned stores.
use pciebench_nfp.Common.{ℕ, ◌≡◌, ◌+◌, ◌-◌, ◌*◌, ◌/◌, ◌%◌, ◌^◌, refl, arith}
use pciebench_nfp.Runtime.Unaligned.{FourLong, shift_of, set_64_big, set_64_little}
use pciebench_nfp.Runtime.Unaligned.Store.{little, big, replaced}
use pciebench_nfp.Runtime.Unaligned.Little.{set_64_little-Stores}
use pciebench_nfp.Runtime.Unaligned.Big.{set_64_big-Stores}

abbrev unit : FourLong
unit = record { a = 0x1111_1111; b = 0x2222_2222; c = 0x3333_3333; d = 0x4444_4444 }

abbrev shl : ℕ → ℕ → ℕ → ℕ
shl hi lo s = (hi * 2 ^ 32 + lo) * 2 ^ s / 2 ^ 32 % 2 ^ 32

abbrev shr : ℕ → ℕ → ℕ → ℕ
shr hi lo s = (hi * 2 ^ 32 + lo) / 2 ^ s % 2 ^ 32

set_64_little-Stores_example :
    little (set_64_little shl (shift_of 0x1003) 0xaabb_ccdd_eeff_0011 unit)
    ≡ replaced (shift_of 0x1003) 0xaabb_ccdd_eeff_0011 (little unit)
set_64_little-Stores_example =
    set_64_little-Stores shl (λ hi lo s h. refl) 0xaabb_ccdd_eeff_0011 unit (omega arith)
      (omega arith) 0x1003

set_64_big-Stores_example :
    big (set_64_big shr (shift_of 0x1006) 0xaabb_ccdd_eeff_0011 unit)
    ≡ replaced (64 - shift_of 0x1006) 0xaabb_ccdd_eeff_0011 (big unit)
set_64_big-Stores_example =
    set_64_big-Stores shr (λ hi lo s h. refl) 0xaabb_ccdd_eeff_0011 unit (omega arith) (omega arith)
      0x1006
