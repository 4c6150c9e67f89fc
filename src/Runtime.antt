-- ===== src/Runtime.antt =====
-- me/libnfcc.c: the run-time support that the ME compiler calls.
pub mod Division
pub mod Unaligned
