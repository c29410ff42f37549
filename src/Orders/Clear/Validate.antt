-- ===== src/Orders/Clear/Validate.antt =====
-- `tentative_clear_offers_for_validation` (merkle_work_unit.cc): a node checks the clearing of an order
-- book that another node made (Orders/Clear).
use speedex_parallelize.Base.{
  ℕ, ◌>>=◌, ◌-◌, Bool, true, false, ◌&&◌, ◌||◌, not, Option, none, some, List, [], ◌∷◌, ◌++◌, ltb,
  ◌==◌, if◌then◌else◌,
}
use speedex_parallelize.Xdr.{Offer, SingleWorkUnitStateCommitment}
use speedex_parallelize.Price.BigEndian.{read_unsigned_big_endian}
use speedex_parallelize.FixedPoint.{from_integral, add}
use speedex_parallelize.Clearing.{clear_offer_partial}
use speedex_parallelize.Database.{lookup_user_id}
use speedex_parallelize.Trie.{OfferTrie}
use speedex_parallelize.Orders.{no_partial_exec, partial_exec}
use speedex_parallelize.Orders.Clear.{
  Terms, clear_offers, on_top_thunk, count32, Cleared, put_back, pay,
}

-- `memcmp(key, zero_buf, WORKUNIT_KEY_LEN) == 0`.
unfoldable pub is_zero : List ℕ → Bool
is_zero [] = true
is_zero (b ∷ bs) = (b == 0) && is_zero bs

-- What a check of the clearing changes, and whether it passes. `activated_supply` is a raw fraction.
pub record Validated {ℓ} (T D : Type ℓ) : Type ℓ where
  pub cleared : Cleared T D
  pub activated_supply : ℕ
  pub result : Bool

abbrev with_committed {ℓ} : {T D : Type ℓ} → T → Cleared T D → Cleared T D
with_committed committed c = record c {
  work_unit = record c.work_unit { committed_offers = committed };
}

-- Where no offer has the key of the commitment: the whole book is cleared.
unfoldable pub validate_all {ℓ} :
    {T D : Type ℓ}
    → OfferTrie T
    → Terms
    → SingleWorkUnitStateCommitment
    → ℕ
    → Cleared T D
    → Option (Validated T D)
unfolding clear_offers on_top_thunk is_zero
validate_all ops t k activated_supply c =
    let committed = c.work_unit.committed_offers in
    let remaining = read_unsigned_big_endian 16 k.partial_exec_offer_activation_amount in
    if not (is_zero k.partial_exec_threshold_key) || not (remaining == 0)
    then some (record { cleared = c; activated_supply = activated_supply; result = false })
    else do
      accounts ← clear_offers t (ops.values committed) c.accounts
      thunks ←
          on_top_thunk (λ u. record u { partial = no_partial_exec; cleared_offers = committed })
            c.work_unit.thunks
      some (record {
        cleared = record {
          work_unit = record c.work_unit { committed_offers = ops.empty; thunks = thunks };
          accounts = accounts;
          stats = record c.stats {
            fully_clear_offer_count = count32 c.stats.fully_clear_offer_count (ops.size committed);
          };
        };
        activated_supply = add activated_supply (from_integral (ops.root_endow committed));
        result = true;
      })

-- Where `offer` has the key of the commitment, and has been taken out of the book: the offers with
-- lower keys, of `endow_below` in sum, are cleared.
unfoldable pub validate_part {ℓ} :
    {T D : Type ℓ}
    → OfferTrie T
    → Terms
    → SingleWorkUnitStateCommitment
    → ℕ
    → Offer
    → Cleared T D
    → Option (Bool × Cleared T D)
unfolding clear_offers on_top_thunk put_back lookup_user_id
validate_part ops t k endow_below offer c =
    let key = k.partial_exec_threshold_key in
    let remaining = read_unsigned_big_endian 16 k.partial_exec_offer_activation_amount in
    let logged : Cleared _ _ = record c {
      accounts = record c.accounts { log = c.accounts.log ++ (offer.owner, offer.offer_id) ∷ [] };
    } in
    let undeleted = ops.insert key offer c.work_unit.committed_offers in
    elim (lookup_user_id c.accounts.db offer.owner) [
      | none ↦ some (false, with_committed undeleted logged)
      | some idx ↦ do
        p ← clear_offer_partial offer t.sell_price t.buy_price t.tax_rate remaining
        db ← pay c.accounts.db idx p.transfer
        let paid : Cleared _ _ = record logged { accounts = record logged.accounts { db = db } }
        (if ltb offer.amount p.sell_amount then some (false, with_committed undeleted paid) else (do
          (committed, cleared) ← ops.endow_split endow_below c.work_unit.committed_offers
          accounts ← clear_offers t (ops.values cleared) paid.accounts
          thunks ←
              on_top_thunk
                (λ u. record u {
                  partial = partial_exec key p.sell_amount offer;
                  cleared_offers = cleared;
                })
                c.work_unit.thunks
          let amount = offer.amount - p.sell_amount
          let c' : Cleared _ _ = record {
            work_unit = record c.work_unit { committed_offers = committed; thunks = thunks };
            accounts = accounts;
            stats = record c.stats {
              fully_clear_offer_count = count32 c.stats.fully_clear_offer_count (ops.size cleared);
            };
          }
          some (
            true,
            (if amount == 0 then c' else put_back ops key (record offer { amount = amount }) c'),
          )))
    ]

unfoldable pub tentative_clear_offers_for_validation {ℓ} :
    {T D : Type ℓ}
    → OfferTrie T
    → Terms
    → SingleWorkUnitStateCommitment
    → ℕ
    → Cleared T D
    → Option (Validated T D)
unfolding validate_all validate_part
tentative_clear_offers_for_validation ops t k activated_supply c =
    let key = k.partial_exec_threshold_key in
    let endow_below = ops.endow_lt_key key c.work_unit.committed_offers in
    let supply = add activated_supply (from_integral endow_below) in
    let (committed, partial_exec_offer) = ops.perform_deletion key c.work_unit.committed_offers in
    elim partial_exec_offer [
      | none ↦ validate_all ops t k supply (with_committed committed c)
      | some offer ↦ do
        (ok, c') ← validate_part ops t k endow_below offer (with_committed committed c)
        some (record { cleared = c'; activated_supply = supply; result = ok })
    ]
