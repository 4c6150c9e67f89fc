-- ===== src/Addresses/Tabled.antt =====
-- The table of `dma_addr_init` as a test steps through it, in either order.
use mathlib.Core.Path.{subst}
use pciebench_nfp.Common.{
  ℕ, ◌+◌, ◌^◌, ◌<◌, ◌≡◌, ◌⊎◌, inl, inr, sym, ◌∙◌, true, false, List, leb, done, done-injective,
}
use pciebench_nfp.Addresses.{
  Window, Address, random, units_in_win, linear, avail, dma_addr_init, dma_addr_from_idx,
}
use pciebench_nfp.Addresses.Linear.{IsAccepted}
use pciebench_nfp.Addresses.Choice.{IsSlot}
use pciebench_nfp.Addresses.Table.{IsMapped, IsAt}
use pciebench_nfp.Addresses.Contract.{IsServed, sequential-IsServed, random-IsServed}

-- The order of a test, with enough fuel for the inner loop: in sequential order a round for each unit
-- of the window and one more, in random order as many as it takes to meet a transaction that fits.
abbrev pub IsOrdered : (ℕ → ℕ) → Window → ℕ → Type 0
IsOrdered rand w fuel =
    ((random w.flags ≡ false) × (units_in_win w < fuel))
    ⊎ ((random w.flags ≡ true)
        × ((n : ℕ)
            → (j : ℕ) × (j < fuel) × (leb w.trans_sz (avail (linear w (rand (n + j)))) ≡ true)))

-- The table that a test steps through: each entry is the address of a slot of the window.
pub record IsTabled (rand : ℕ → ℕ) (chunks : List ℕ) (w : Window) (fuel : ℕ) : Type 0 where
  pub addrs : List ℕ
  pub entry : ℕ → Address
  pub returns : dma_addr_init rand chunks w fuel ≡ done addrs
  pub found : (idx : ℕ) → dma_addr_from_idx addrs idx ≡ done (entry idx)
  pub slots : (idx : ℕ) → (lin : ℕ) × IsSlot w lin × IsAt chunks lin (entry idx)

served-IsTabled :
    (rand : ℕ → ℕ) (chunks : List ℕ) (w : Window) (fuel : ℕ)
    → ((idx : ℕ) → IsServed rand chunks w fuel idx (λ lin. Unit))
    → IsTabled rand chunks w fuel
served-IsTabled rand chunks w fuel served = record {
  addrs = (served 0).addrs;
  entry = λ idx. (served idx).address;
  returns = (served 0).returns;
  found = λ idx.
      subst (λ l. dma_addr_from_idx l idx ≡ done ((served idx).address))
        (done-injective _ _ (sym (served idx).returns ∙ (served 0).returns)) (served idx).finds;
  slots = λ idx. ((served idx).lin, (served idx).slot, (served idx).at);
}

pub ordered-IsTabled :
    (rand : ℕ → ℕ) (chunks : List ℕ) (w : Window) (fuel : ℕ)
    → IsAccepted w
    → IsMapped chunks
    → ((n : ℕ) → rand n < 2 ^ 32)
    → IsOrdered rand w fuel
    → IsTabled rand chunks w fuel
ordered-IsTabled rand chunks w fuel ok mapped word (inl (order, enough)) =
    served-IsTabled rand chunks w fuel
      (sequential-IsServed rand chunks w fuel ok mapped word order enough)
ordered-IsTabled rand chunks w fuel ok mapped word (inr (order, lucky)) =
    served-IsTabled rand chunks w fuel
      (random-IsServed rand chunks w fuel ok mapped word order lucky)
