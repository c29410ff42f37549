-- ===== src/Orders/Manager/Clearing.antt =====
-- `clear_offers_for_production`, `tentative_clear_offers_for_validation` and
-- `clear_offers_for_data_loading` (Orders/Manager). The scheduler splits the books into ranges that run
-- in parallel. The ranges of the two checks are an argument, as a list of lists of books, and run one
-- after the other; where production clears every book, its ranges are one. The logs of the threads are
-- one log.
use speedex_parallelize.Base.{
  ℕ, ◌>>=◌, Bool, true, false, not, ◌||◌, ◌++◌, Option, some, List, [], ◌∷◌, map, ltb, get_or,
}
use speedex_parallelize.Xdr.{OfferCategory, BlockStateUpdateStats, SingleWorkUnitStateCommitment}
use speedex_parallelize.Trie.{OfferTrie}
use speedex_parallelize.Orders.{MerkleWorkUnit}
use speedex_parallelize.Orders.Clear.{Terms, Accounts, process_clear_offers}
use speedex_parallelize.Orders.Clear.Validate.{tentative_clear_offers_for_validation}

-- The prices of the two assets of a book.
abbrev pub terms_of : List ℕ → ℕ → OfferCategory → Terms
terms_of prices tax_rate category = record {
  sell_price = get_or prices category.sell_asset 0;
  buy_price = get_or prices category.buy_asset 0;
  tax_rate = tax_rate;
}

-- The books and what they share.
pub record Books {ℓ} (T D : Type ℓ) : Type ℓ where
  pub units : List (MerkleWorkUnit T)
  pub accounts : Accounts D
  pub stats : BlockStateUpdateStats

-- The supply that is activated in each book comes with the list; the commitments come out.
unfoldable pub clear_offers_for_production {ℓ} :
    {T D : Type ℓ}
    → OfferTrie T
    → List ℕ
    → ℕ
    → List ℕ
    → Books T D
    → Option (List SingleWorkUnitStateCommitment × Books T D)
unfolding process_clear_offers
clear_offers_for_production ops prices tax_rate [] b = some ([], b)
clear_offers_for_production ops prices tax_rate (supply ∷ supplies) b = elim b.units [
  | [] ↦ some ([], b)
  | w ∷ ws ↦ do
    (commitment, c) ←
        process_clear_offers ops supply (terms_of prices tax_rate w.category)
          (record { work_unit = w; accounts = b.accounts; stats = b.stats })
    (commitments, rest) ←
        clear_offers_for_production ops prices tax_rate supplies
          (record { units = ws; accounts = c.accounts; stats = c.stats })
    some (commitment ∷ commitments, record rest { units = c.work_unit ∷ rest.units })
]

-- A book beside its commitment in the block and the supply that is activated in it so far.
abbrev pub Checked {ℓ} : Type ℓ → Type ℓ
Checked T = MerkleWorkUnit T × SingleWorkUnitStateCommitment × ℕ

-- The loop over a range of books, which stops at the first one that does not pass: the books after
-- the call, and whether one did not pass.
unfoldable pub clear_range {ℓ} :
    {T D : Type ℓ}
    → OfferTrie T
    → List ℕ
    → ℕ
    → List (Checked T)
    → Accounts D
    → BlockStateUpdateStats
    → Option (List (Checked T) × Accounts D × BlockStateUpdateStats × Bool)
unfolding tentative_clear_offers_for_validation
clear_range ops prices tax_rate [] a stats = some ([], a, stats, false)
clear_range ops prices tax_rate ((w, k, supply) ∷ rest) a stats = do
  r ←
      tentative_clear_offers_for_validation ops (terms_of prices tax_rate w.category) k supply
        (record { work_unit = w; accounts = a; stats = stats })
  let c = r.cleared
  elim r.result [
    | false ↦ some ((c.work_unit, k, r.activated_supply) ∷ rest, c.accounts, c.stats, true)
    | true ↦ do
      (others, a', stats', failed) ← clear_range ops prices tax_rate rest c.accounts c.stats
      some ((c.work_unit, k, r.activated_supply) ∷ others, a', stats', failed)
  ]

-- The ranges, each of which ends on its own.
unfoldable pub clear_ranges {ℓ} :
    {T D : Type ℓ}
    → OfferTrie T
    → List ℕ
    → ℕ
    → List (List (Checked T))
    → Accounts D
    → BlockStateUpdateStats
    → Option (List (Checked T) × Accounts D × BlockStateUpdateStats × Bool)
unfolding clear_range
clear_ranges ops prices tax_rate [] a stats = some ([], a, stats, false)
clear_ranges ops prices tax_rate (range ∷ ranges) a stats = do
  (units, a', stats', failed) ← clear_range ops prices tax_rate range a stats
  (others, a'', stats'', failed') ← clear_ranges ops prices tax_rate ranges a' stats'
  some (units ++ others, a'', stats'', failed || failed')

-- The result is `!exists_failure`.
unfoldable pub tentative_clear_all {ℓ} :
    {T D : Type ℓ}
    → OfferTrie T
    → List ℕ
    → ℕ
    → List (List (Checked T))
    → Accounts D
    → BlockStateUpdateStats
    → Option (List (Checked T) × Accounts D × BlockStateUpdateStats × Bool)
unfolding clear_ranges
tentative_clear_all ops prices tax_rate ranges a stats = do
  (units, a', stats', failed) ← clear_ranges ops prices tax_rate ranges a stats
  some (units, a', stats', not failed)

-- When a block is loaded: each book comes with the round that it has on disk, and only a book that is
-- behind is cleared. The flag `exists_failure` is set by a book that passes, which ends the loop over
-- its range.
unfoldable pub load_range {ℓ} :
    {T D : Type ℓ}
    → OfferTrie T
    → List ℕ
    → ℕ
    → ℕ
    → List (ℕ × Checked T)
    → Accounts D
    → BlockStateUpdateStats
    → Option (List (Checked T) × Accounts D × Bool)
unfolding tentative_clear_offers_for_validation
load_range ops prices tax_rate block [] a stats = some ([], a, false)
load_range ops prices tax_rate block ((persisted, (w, k, supply)) ∷ rest) a stats =
    elim (ltb persisted block) [
      | false ↦ do
        (others, a', flag) ← load_range ops prices tax_rate block rest a stats
        some ((w, k, supply) ∷ others, a', flag)
      | true ↦ do
        r ←
            tentative_clear_offers_for_validation ops (terms_of prices tax_rate w.category) k supply
              (record { work_unit = w; accounts = a; stats = stats })
        let c = r.cleared
        elim r.result [
          | true ↦
              some ((c.work_unit, k, r.activated_supply) ∷ map (λ x. x.1) rest, c.accounts, true)
          | false ↦ do
            (others, a', flag) ← load_range ops prices tax_rate block rest c.accounts c.stats
            some ((c.work_unit, k, r.activated_supply) ∷ others, a', flag)
        ]
    ]

-- `BlockStateUpdateStatsWrapper stats`, of each range its own.
abbrev pub no_stats : BlockStateUpdateStats
no_stats = record {
  new_offer_count = 0;
  cancel_offer_count = 0;
  fully_clear_offer_count = 0;
  partial_clear_offer_count = 0;
  payment_count = 0;
  new_account_count = 0;
}

-- The result is the flag.
unfoldable pub clear_offers_for_data_loading {ℓ} :
    {T D : Type ℓ}
    → OfferTrie T
    → List ℕ
    → ℕ
    → ℕ
    → List (List (ℕ × Checked T))
    → Accounts D
    → Option (List (Checked T) × Accounts D × Bool)
unfolding load_range
clear_offers_for_data_loading ops prices tax_rate block [] a = some ([], a, false)
clear_offers_for_data_loading ops prices tax_rate block (range ∷ ranges) a = do
  (units, a', flag) ← load_range ops prices tax_rate block range a no_stats
  (others, a'', flag') ← clear_offers_for_data_loading ops prices tax_rate block ranges a'
  some (units ++ others, a'', flag || flag')
