-- ===== src/Orders/Clear.antt =====
-- How an order book is cleared at the prices of a block (Orders): `CompleteClearingFunc`,
-- and `process_clear_offers` of the node that makes the block; the check of other nodes is in
-- Orders/Clear/Validate. The account modification log is the list of the calls of
-- `log_self_modification`; the checks of `INTEGRITY_CHECK` are not compiled in.
pub mod Validate
pub mod Laws
use speedex_parallelize.Base.{
  ℕ, ◌>>=◌, ◌+◌, ◌-◌, ◌%◌, ◌^◌, ◌||◌, Option, none, some, List, [], ◌∷◌, ◌++◌, ltb, ◌==◌,
  if◌then◌else◌, replicate, is_negative,
}
use speedex_parallelize.Xdr.{
  Offer, OfferCategory, BlockStateUpdateStats, SingleWorkUnitStateCommitment,
}
use speedex_parallelize.Price.{a_over_b_lt_c}
use speedex_parallelize.Price.BigEndian.{write_unsigned_big_endian, read_unsigned_big_endian}
use speedex_parallelize.FixedPoint.{from_integral, floor, subtract, add}
use speedex_parallelize.Clearing.{Transfer, PartialClearing, clear_offer_full, clear_offer_partial}
use speedex_parallelize.Database.{MemoryDatabase, lookup_user_id, transfer_available}
use speedex_parallelize.Trie.{OfferTrie}
use speedex_parallelize.Orders.{
  PartialExec, no_partial_exec, partial_exec, WorkUnitThunk, MerkleWorkUnit,
}

abbrev pub AccountLog : Type 0
AccountLog = List (ℕ × ℕ)

-- The database and the log.
pub record Accounts {ℓ} (D : Type ℓ) : Type ℓ where
  pub db : MemoryDatabase D
  pub log : AccountLog

-- The prices of the two assets and the tax rate.
pub record Terms : Type 0 where
  pub sell_price : ℕ
  pub buy_price : ℕ
  pub tax_rate : ℕ

abbrev pub pay {ℓ} : {D : Type ℓ} → MemoryDatabase D → ℕ → Transfer → Option (MemoryDatabase D)
pay db idx t = do (db', u) ← transfer_available db idx t.asset t.amount; some db'

-- `CompleteClearingFunc::operator()`; `none` is an exception.
unfoldable pub clear_offer {ℓ} : {D : Type ℓ} → Terms → Offer → Accounts D → Option (Accounts D)
unfolding transfer_available lookup_user_id
clear_offer t offer a =
    if a_over_b_lt_c t.sell_price t.buy_price offer.min_price || (offer.amount == 0)
    then none
    else do
      idx ← lookup_user_id a.db offer.owner
      transfer ← clear_offer_full offer t.sell_price t.buy_price t.tax_rate
      db ← pay a.db idx transfer
      some (record { db = db; log = a.log ++ (offer.owner, offer.offer_id) ∷ [] })

-- `trie.apply(func)`.
unfoldable pub clear_offers {ℓ} :
    {D : Type ℓ} → Terms → List Offer → Accounts D → Option (Accounts D)
unfolding clear_offer
clear_offers t [] a = some a
clear_offers t (offer ∷ rest) a = do a' ← clear_offer t offer a; clear_offers t rest a'

-- `get_top_thunk()` and a change of it; `none` is the exception where there is no thunk.
unfoldable pub on_top_thunk {ℓ} :
    {T : Type ℓ}
    → (WorkUnitThunk T → WorkUnitThunk T)
    → List (WorkUnitThunk T)
    → Option (List (WorkUnitThunk T))
on_top_thunk change [] = none
on_top_thunk change (t ∷ []) = some (change t ∷ [])
on_top_thunk change (t ∷ u ∷ ts) = do ts' ← on_top_thunk change (u ∷ ts); some (t ∷ ts')

abbrev pub count32 : ℕ → ℕ → ℕ
count32 a b = (a + b) % 2 ^ 32

-- Everything that a call changes.
pub record Cleared {ℓ} (T D : Type ℓ) : Type ℓ where
  pub work_unit : MerkleWorkUnit T
  pub accounts : Accounts D
  pub stats : BlockStateUpdateStats

-- Puts back what is left of an offer that was cleared in part.
unfoldable pub put_back {ℓ} :
    {T D : Type ℓ} → OfferTrie T → List ℕ → Offer → Cleared T D → Cleared T D
put_back ops key offer c = record c {
  work_unit = record c.work_unit {
    committed_offers = ops.insert key offer c.work_unit.committed_offers;
  };
  stats = record c.stats {
    partial_clear_offer_count = count32 c.stats.partial_clear_offer_count 1;
  };
}

-- The offers that `process_clear_offers` clears in full, in a trie that it moves into the thunk.
unfoldable pub clear_in_full {ℓ} :
    {T D : Type ℓ} → OfferTrie T → Terms → ℕ → Cleared T D → Option (T × Cleared T D)
unfolding clear_offers on_top_thunk
clear_in_full ops t clear_amount c = do
  (committed, cleared) ← ops.endow_split clear_amount c.work_unit.committed_offers
  accounts ← clear_offers t (ops.values cleared) c.accounts
  thunks ← on_top_thunk (λ u. record u { cleared_offers = cleared }) c.work_unit.thunks
  some (
    cleared,
    record {
      work_unit = record c.work_unit { committed_offers = committed; thunks = thunks };
      accounts = accounts;
      stats = record c.stats {
        fully_clear_offer_count = count32 c.stats.fully_clear_offer_count (ops.size cleared);
      };
    },
  )

-- The end of `process_clear_offers`, for the offer with the lowest key; `remaining_to_clear` is a raw
-- fraction.
unfoldable pub clear_in_part {ℓ} :
    {T D : Type ℓ} → OfferTrie T → Terms → List ℕ → ℕ → Cleared T D → Option (Cleared T D)
unfolding put_back on_top_thunk lookup_user_id
clear_in_part ops t key remaining_to_clear c =
    let (committed, try_delete) = ops.perform_deletion key c.work_unit.committed_offers in
    do
      offer ← try_delete
      idx ← lookup_user_id c.accounts.db offer.owner
      p ← clear_offer_partial offer t.sell_price t.buy_price t.tax_rate remaining_to_clear
      db ← pay c.accounts.db idx p.transfer
      thunks ←
          (if ltb offer.amount p.sell_amount
            then none
            else on_top_thunk (λ u. record u { partial = partial_exec key p.sell_amount offer })
                c.work_unit.thunks)
      let amount = offer.amount - p.sell_amount
      let c' : Cleared _ _ = record c {
        work_unit = record c.work_unit { committed_offers = committed; thunks = thunks };
        accounts = record { db = db; log = c.accounts.log ++ (offer.owner, offer.offer_id) ∷ [] };
      }
      (if amount == 0
          then some c'
          else if is_negative amount
          then none
          else some (put_back ops key (record offer { amount = amount }) c'))

abbrev commitment : ℕ → ℕ → List ℕ → ℕ → SingleWorkUnitStateCommitment
commitment supply_activated remaining key is_null = record {
  fractional_supply_activated = write_unsigned_big_endian 16 supply_activated;
  partial_exec_threshold_key = key;
  threshold_key_is_null = is_null;
  partial_exec_offer_activation_amount = write_unsigned_big_endian 16 remaining;
}

-- The commitment beside what the call changes; the root hash is filled in later.
unfoldable pub process_clear_offers {ℓ} :
    {T D : Type ℓ}
    → OfferTrie T
    → ℕ
    → Terms
    → Cleared T D
    → Option (SingleWorkUnitStateCommitment × Cleared T D)
unfolding clear_in_full clear_in_part
process_clear_offers ops supply_activated t c =
    let clear_amount = floor supply_activated in
    if ltb (2 ^ 63 - 1) clear_amount then none else do
      (cleared, c') ← clear_in_full ops t clear_amount c
      let remaining = subtract supply_activated (from_integral (ops.root_endow cleared))
      elim (ops.get_lowest_key c'.work_unit.committed_offers) [
        | none ↦
            if remaining == 0
            then (do
              thunks ←
                  on_top_thunk (λ u. record u { partial = no_partial_exec }) c'.work_unit.thunks
              some (
                commitment supply_activated remaining (replicate 22 0) 1,
                record c' { work_unit = record c'.work_unit { thunks = thunks } },
              ))
            else none
        | some key ↦ do
          c'' ← clear_in_part ops t key remaining c'
          some (commitment supply_activated remaining key 0, c'')
      ]
