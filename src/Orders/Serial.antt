-- ===== src/Orders/Serial.antt =====
-- `BaseSerialManager` and `ProcessingSerialManager` (implementation/src/merkle_work_unit_manager.h): one
-- thread's view of the order books while it processes transactions. New offers wait in tries of their
-- own until they are merged in; offers that are cancelled are marked in the books at once.
use speedex_parallelize.Base.{
  ℕ, ◌>>=◌, ◌+◌, ◌-◌, Option, none, some, List, [], ◌∷◌, ◌++◌, length, get_elem?, set, take,
  replicate,
}
use speedex_parallelize.Xdr.{Offer, OfferCategory}
use speedex_parallelize.Trie.{OfferTrie}
use speedex_parallelize.Orders.{generate_key, offer_key}
use speedex_parallelize.Orders.Manager
use speedex_parallelize.Orders.Manager.{
  MerkleWorkUnitManager, mark_for_deletion, unmark_for_deletion, add_offers, get_num_work_units,
}

-- `new_offers` has a trie for each order book, up to the highest index that was used.
pub record SerialManager {ℓ} (T : Type ℓ) : Type ℓ where
  pub main_manager : MerkleWorkUnitManager T
  pub new_offers : List T

-- `while (idx >= new_offers.size()) new_offers.emplace_back()`.
unfoldable pub ensure_sufficient_new_offers_sz {ℓ} : {T : Type ℓ} → T → ℕ → List T → List T
ensure_sufficient_new_offers_sz empty idx tries = tries ++ replicate (idx + 1 - length tries) empty

unfoldable pub get_num_assets {ℓ} : {T : Type ℓ} → SerialManager T → ℕ
get_num_assets s = s.main_manager.num_assets

unfoldable pub look_up_idx {ℓ} : {T : Type ℓ} → SerialManager T → OfferCategory → Option ℕ
unfolding Manager.look_up_idx
look_up_idx s id = Manager.look_up_idx s.main_manager id

-- Only offers of the books can be deleted, not those that wait.
unfoldable pub delete_offer {ℓ} :
    {T : Type ℓ}
    → OfferTrie T
    → SerialManager T
    → ℕ
    → ℕ
    → ℕ
    → ℕ
    → Option (SerialManager T × Option Offer)
unfolding ensure_sufficient_new_offers_sz generate_key mark_for_deletion
delete_offer ops s idx min_price owner offer_id = do
  (main, found) ← mark_for_deletion ops s.main_manager idx (generate_key min_price owner offer_id)
  some (
    record {
      main_manager = main;
      new_offers = ensure_sufficient_new_offers_sz ops.empty idx s.new_offers;
    },
    found,
  )

unfoldable pub undelete_offer {ℓ} :
    {T : Type ℓ} → OfferTrie T → SerialManager T → ℕ → ℕ → ℕ → ℕ → Option (SerialManager T)
unfolding generate_key unmark_for_deletion
undelete_offer ops s idx min_price owner offer_id = do
  (main, found) ← unmark_for_deletion ops s.main_manager idx (generate_key min_price owner offer_id)
  some (record s { main_manager = main })

-- `new_offers.at(idx)`; `none` is its exception.
abbrev pub on_new_offers {ℓ} :
    {T : Type ℓ} → (T → T) → SerialManager T → ℕ → Option (SerialManager T)
on_new_offers change s idx = elim (get_elem? s.new_offers idx) [
  | none ↦ none
  | some trie ↦ some (record s { new_offers = set s.new_offers idx (change trie) })
]

unfoldable pub add_offer {ℓ} :
    {T : Type ℓ} → OfferTrie T → SerialManager T → ℕ → Offer → Option (SerialManager T)
unfolding ensure_sufficient_new_offers_sz offer_key
add_offer ops s idx offer =
    let grown = record s {
      new_offers = ensure_sufficient_new_offers_sz ops.empty idx s.new_offers;
    } in
    on_new_offers (ops.insert (offer_key offer) offer) grown idx

unfoldable pub unwind_add_offer {ℓ} :
    {T : Type ℓ} → OfferTrie T → SerialManager T → ℕ → Offer → Option (SerialManager T)
unfolding offer_key
unwind_add_offer ops s idx offer =
    on_new_offers (λ trie. (ops.perform_deletion (offer_key offer) trie).0) s idx

-- The loop of `finish_merge` over the books, from index `i`, with the tries left; the source starts at
-- an offset and goes round.
unfoldable pub merge_from {ℓ} :
    {T : Type ℓ}
    → OfferTrie T
    → ℕ
    → List T
    → MerkleWorkUnitManager T
    → Option (MerkleWorkUnitManager T)
unfolding add_offers
merge_from ops i [] m = some m
merge_from ops i (trie ∷ rest) m = do
  (m', u) ← add_offers ops m i trie
  merge_from ops (i + 1) rest m'

unfoldable pub finish_merge {ℓ} :
    {T : Type ℓ} → OfferTrie T → SerialManager T → Option (SerialManager T)
unfolding merge_from get_num_work_units
finish_merge ops s = do
  main ← merge_from ops 0 (take (get_num_work_units s.main_manager) s.new_offers) s.main_manager
  some (record { main_manager = main; new_offers = [] })

unfoldable pub clear {ℓ} : {T : Type ℓ} → SerialManager T → SerialManager T
clear s = record s { new_offers = [] }
