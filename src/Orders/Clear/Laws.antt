-- ===== src/Orders/Clear/Laws.antt =====
-- What a clearing of offers in full guarantees (Orders/Clear).
use mathlib.Core.Option.{some-injective}
use mathlib.Core.List.{append_assoc, append-nil}
use speedex_parallelize.Base.{
  >>=-eq-some, guarded, ℕ, ◌≡◌, refl, sym, ap, ◌∙◌, ◌≢◌, Bool, true, false, ◌||◌, some, List, [],
  ◌∷◌, ◌++◌, arith, ◌==◌,
}
use speedex_parallelize.Xdr.{Offer}
use speedex_parallelize.Price.{a_over_b_lt_c}
use speedex_parallelize.Clearing.{clear_offer_full}
use speedex_parallelize.Database.{lookup_user_id}
use speedex_parallelize.Orders.Clear.{AccountLog, Accounts, Terms, pay, clear_offer, clear_offers}

-- The exchange rate is not below the price that each offer asks for, and no amount is 0.
abbrev pub AllFair : Terms → List Offer → Type 0
AllFair t [] = Unit {0}
AllFair t (offer ∷ rest) =
    ((a_over_b_lt_c t.sell_price t.buy_price offer.min_price ≡ false) × (offer.amount ≢ 0))
    × AllFair t rest

-- The entries of the log for a list of offers.
abbrev pub entries : List Offer → AccountLog
entries [] = []
entries (offer ∷ rest) = (offer.owner, offer.offer_id) ∷ entries rest

fair : (a : Bool) (n : ℕ) → (a || (n == 0)) ≡ false → (a ≡ false) × (n ≢ 0)
fair true n e = cc
fair false n e = (refl, ground arith)

clear_offer_lem {ℓ} :
    {D : Type ℓ} (t : Terms) (offer : Offer) (a : Accounts D) {a' : Accounts D}
    → clear_offer t offer a ≡ some a'
    → ((a_over_b_lt_c t.sell_price t.buy_price offer.min_price ≡ false) × (offer.amount ≢ 0))
      × (a'.log ≡ a.log ++ (offer.owner, offer.offer_id) ∷ [])
unfolding clear_offer
clear_offer_lem t offer a {a'} run =
    let worse = a_over_b_lt_c t.sell_price t.buy_price offer.min_price in
    let (ok, run1) = guarded (worse || (offer.amount == 0)) _ run in
    let (idx, found, run2) = >>=-eq-some (lookup_user_id a.db offer.owner) _ run1 in
    let (transfer, cleared, run3) =
      >>=-eq-some (clear_offer_full offer t.sell_price t.buy_price t.tax_rate) _ run2 in
    let (db, paid, run4) = >>=-eq-some (pay a.db idx transfer) _ run3 in
    (fair worse offer.amount ok, ap (λ x. x.log) (sym (some-injective _ a' run4)))

-- If the offers of a trie are cleared without an exception, then the exchange rate is not below the
-- price that any of them asks for, none of them has the amount 0, and the log has one entry more for
-- each of them, in order.
pub clear_offers_lem {ℓ} :
    {D : Type ℓ} (t : Terms) (offers : List Offer) (a : Accounts D) {a' : Accounts D}
    → clear_offers t offers a ≡ some a'
    → AllFair t offers × (a'.log ≡ a.log ++ entries offers)
unfolding clear_offers
clear_offers_lem t [] a {a'} run =
    (tt, ap (λ x. x.log) (sym (some-injective a a' run)) ∙ sym (append-nil a.log))
clear_offers_lem t (offer ∷ rest) a {a'} run =
    let (a₁, first, run1) = >>=-eq-some (clear_offer t offer a) _ run in
    let (now, logged) = clear_offer_lem t offer a first in
    let (others, more) = clear_offers_lem t rest a₁ run1 in
    (
      (now, others),
      more
          ∙ ap (λ l. l ++ entries rest) logged
          ∙ append_assoc a.log ((offer.owner, offer.offer_id) ∷ []) (entries rest),
    )
