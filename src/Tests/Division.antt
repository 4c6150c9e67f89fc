-- ===== src/Tests/Division.antt =====
-- Tests of the model of me/libnfcc.c's division.
use pciebench_nfp.Common.{◌≡◌, ◌/◌, ◌%◌, ◌^◌, ◌-◌, refl, arith, ◌==◌, if◌then◌else◌}
use pciebench_nfp.Runtime.Division.{div_mod_32}
use pciebench_nfp.Runtime.Division.Laws.{div_mod_32_lem}

seventeen_by_five : (div_mod_32 17 5 0 ≡ 3) × (div_mod_32 17 5 1 ≡ 2)
unfolding div_mod_32
seventeen_by_five = (refl, refl)

-- A divisor above `2 ^ 31`, where `lo` is negative from the start.
large_words :
    (div_mod_32 0xffff_ffff 0x8000_0001 0 ≡ 1)
    × (div_mod_32 0xffff_ffff 0x8000_0001 1 ≡ 0x7fff_fffe)
unfolding div_mod_32
large_words = (refl, refl)

div_mod_32_lem_example : div_mod_32 0xdead_beef 0x1234 1 ≡ (
    if 0x1234 == 0
    then 2 ^ 32 - 1
    else if 1 == 0
    then 0xdead_beef / 0x1234
    else 0xdead_beef % 0x1234)
div_mod_32_lem_example = div_mod_32_lem 0xdead_beef 0x1234 1 (omega arith) (omega arith)
