-- ===== src/Bandwidth/LastWorker.antt =====
-- Where the chain of start signals ends, with the ME numbers that `__ME` gives.
use pciebench_nfp.Common.{
  ℕ, ◌+◌, ◌/◌, ◌%◌, ◌^◌, ◌<◌, ◌≡◌, ◌==◌, arith, bit_and, Bool, true, false, if◌then◌else◌,
}
use pciebench_nfp.Nfp.{Chip, nfp3200, nfp6000}
use pciebench_nfp.Nfp.Me.{me_id}
use pciebench_nfp.Nfp.Me.Fields.{me_number_lem}
use pciebench_nfp.Bandwidth.{starts_next}

-- `PCIEBENCH_LAST_WORKER_ME`
abbrev pub last_worker_me : Chip → ℕ
last_worker_me nfp3200 = 7
last_worker_me nfp6000 = 11

-- `starts_next` where ME `m` reads the status word `ctxsts m`.
unfoldable pub starts_next_on : Chip → (ℕ → ℕ) → ℕ → Bool
starts_next_on c ctxsts = starts_next (λ m. bit_and (me_id c (ctxsts m)) 0xf) (last_worker_me c)

-- On the NFP-6000 every worker thread starts a next one, whatever the MEs' status words: no ME finds
-- that it is the last.
pub no_last_worker :
    (ctxsts : ℕ → ℕ)
    → ((m : ℕ) → ctxsts m < 2 ^ 32)
    → (i : ℕ) → starts_next_on nfp6000 ctxsts i ≡ true
unfolding starts_next_on starts_next
no_last_worker ctxsts word i =
    ground (arith, me_number_lem nfp6000 (ctxsts ((i + 1) / 8)), word ((i + 1) / 8))

-- On the NFP-3200, where ME `m` of eight finds `m + 4` in its status word, the chain ends with
-- context 7 of ME 7, and there only.
pub last_worker_3200 :
    (ctxsts : ℕ → ℕ)
    → ((m : ℕ) → ctxsts m < 2 ^ 32)
    → ((m : ℕ) → m < 8 → ctxsts m / 2 ^ 3 % 2 ^ 4 ≡ m + 4)
    → (i : ℕ) → i < 63
    → starts_next_on nfp3200 ctxsts i ≡ (if i == 62 then false else true)
unfolding starts_next_on starts_next
last_worker_3200 ctxsts word numbered i h = ground (
  arith,
  me_number_lem nfp3200 (ctxsts ((i + 1) / 8)),
  word ((i + 1) / 8),
  numbered ((i + 1) / 8),
)
