-- ===== src/Transaction/Laws.antt =====
-- A transaction that fails changes no balance of the table (Transaction/Process).
use mathlib.Core.Option.{some-injective}
use speedex_parallelize.Base.{
  ℕ, ◌>>=◌, ◌≡◌, refl, ap, inl, inr, Bool, true, false, not, Option, none, some, ◌==◌,
  if◌then◌else◌, Option-cases, neg64, is_negative,
}
use speedex_parallelize.Xdr.{
  TransactionProcessingStatus, Operation, CreateAccountOp, CreateSellOfferOp, CancelSellOfferOp,
  PaymentOp, MoneyPrinterOp, create_account, create_sell_offer, cancel_sell_offer, payment,
  money_printer, create_account_min_starting_balance,
}
use speedex_parallelize.Category.{validate_category}
use speedex_parallelize.Price.{is_valid_price}
use speedex_parallelize.View.Buffered.{
  BufferedView, Called, succeeded, find_user_id, create_new_account,
}
use speedex_parallelize.View.Buffered
use speedex_parallelize.View.Buffered.Restore.{
  Before, Restores, transfer_available-Restores, escrow-Restores, create_new_account-Restores,
}
use speedex_parallelize.Trie.{OfferTrie}
use speedex_parallelize.Base.{signed_ltb}
use speedex_parallelize.Orders.Serial.{
  get_num_assets, look_up_idx, add_offer, unwind_add_offer, delete_offer, undelete_offer,
}
use speedex_parallelize.Transaction.{
  DatabaseView, OperationMetadata, Operating, Processed, with_called, on_success, make_offer,
  process_create_account, process_create_sell_offer, process_cancel_sell_offer, process_payment,
  process_money_printer, process_operation,
}

-- `BufferedMemoryDatabaseView`.
abbrev pub buffered {ℓ} : {D : Type ℓ} → DatabaseView D
buffered = record { transfer_available = Buffered.transfer_available; escrow = Buffered.escrow }

module _ {ℓ} {T D : Type ℓ} (ops : OfferTrie T) (orig : Before) where
  abbrev IsRestorable : Operating T D → Type ℓ
  IsRestorable o = Restores orig o.db o.view

  -- Every state that comes out can be restored.
  abbrev Ends : Processed T D → Type ℓ
  Ends none = Unit
  Ends (some (s, o)) = IsRestorable o

  Ends-if : (test : Bool) (x y : Processed T D) → Ends x → Ends y → Ends (if test then x else y)
  Ends-if true x y hx hy = hx
  Ends-if false x y hx hy = hy

  Ends-bind {κ} :
      {A : Type κ} (m : Option A) (f : A → Processed T D)
      → ((a : A) → m ≡ some a → Ends (f a))
      → Ends (m >>= f)
  Ends-bind none f h = tt
  Ends-bind (some a) f h = h a refl

  -- A call of the view, and what follows it on success.
  Ends-on_success :
      (o : Operating T D) (call : Option (Called D)) (rest : Operating T D → Processed T D)
      → ((c : Called D) → call ≡ some c → Restores orig c.db c.view)
      → ((o₁ : Operating T D) → IsRestorable o₁ → Ends (rest o₁))
      → Ends (on_success o call rest)
  Ends-on_success o none rest keeps next = tt
  Ends-on_success o (some c) rest keeps next =
      let r = keeps c refl in
      Ends-if (succeeded c.status) (rest (with_called o c)) (some (c.status, with_called o c))
        (next (with_called o c) r) r

  Ends-transfer :
      (o : Operating T D) (idx asset amount : ℕ) (rest : Operating T D → Processed T D)
      → IsRestorable o
      → ((o₁ : Operating T D) → IsRestorable o₁ → Ends (rest o₁))
      → Ends (on_success o (Buffered.transfer_available o.db o.view idx asset amount) rest)
  Ends-transfer o idx asset amount rest r next =
      Ends-on_success o (Buffered.transfer_available o.db o.view idx asset amount) rest
        (λ c run. transfer_available-Restores orig o.db o.view idx asset amount run r) next

  payment-Ends :
      (metadata : OperationMetadata) (op : PaymentOp) (o : Operating T D)
      → IsRestorable o
      → Ends (process_payment ops buffered metadata op o)
  unfolding process_payment
  payment-Ends metadata op o r = elim (Option-cases (find_user_id o.db o.view op.receiver)) [
    | inl missing ↦ rw (process_payment, missing) r
    | inr (target, found) ↦
        rw (process_payment, found)
          (Ends-transfer o metadata.source_account_idx op.asset (neg64 op.amount) _ r
            λ o₁ r₁. Ends-transfer o₁ target op.asset op.amount _ r₁ λ o₂ r₂. r₂)
  ]

  money_printer-Ends :
      (metadata : OperationMetadata) (op : MoneyPrinterOp) (o : Operating T D)
      → IsRestorable o
      → Ends (process_money_printer ops buffered metadata op o)
  unfolding process_money_printer
  money_printer-Ends metadata op o r =
      let call =
        Buffered.transfer_available o.db o.view metadata.source_account_idx op.asset op.amount in
      Ends-if (is_negative op.amount) _ _ r (
        Ends-bind call _ (λ c run.
          transfer_available-Restores orig o.db o.view metadata.source_account_idx op.asset
            op.amount run r))

  create_account-Ends :
      (metadata : OperationMetadata) (op : CreateAccountOp) (o : Operating T D)
      → IsRestorable o
      → Ends (process_create_account ops buffered metadata op o)
  unfolding process_create_account
  create_account-Ends metadata op o r =
      let c = create_new_account o.db o.view op.new_account_id op.new_account_public_key in
      let made : Operating T D = record o { db = c.db; view = c.view } in
      let r' =
        create_new_account-Restores orig o.db o.view op.new_account_id op.new_account_public_key
          r in
      Ends-if (signed_ltb op.starting_balance create_account_min_starting_balance) _ _ r (
        Ends-if (not (succeeded c.status)) _ _ r' (elim (Option-cases c.out) [
          | inl missing ↦ rw missing tt
          | inr (idx, found) ↦ rw found (
              Ends-transfer made metadata.source_account_idx 0 (neg64 op.starting_balance) _ r'
                λ o₁ r₁. Ends-transfer o₁ idx 0 op.starting_balance _ r₁ λ o₂ r₂. r₂)
        ]))

  create_sell_offer-Ends :
      (metadata : OperationMetadata) (op : CreateSellOfferOp) (o : Operating T D)
      → IsRestorable o
      → Ends (process_create_sell_offer ops buffered metadata op o)
  unfolding process_create_sell_offer
  create_sell_offer-Ends metadata op o r =
      Ends-if (not (validate_category op.category (get_num_assets o.serial_manager))) _ _ r (
        Ends-if (not (is_valid_price op.min_price)) _ _ r (
          Ends-if (op.amount == 0) _ _ r (
            Ends-bind (look_up_idx o.serial_manager op.category) _ λ idx _.
              Ends-bind (add_offer ops o.serial_manager idx (make_offer op metadata)) _ λ added _.
                Ends-bind
                  (Buffered.escrow o.db o.view metadata.source_account_idx op.category.sell_asset
                    op.amount)
                  _
                  λ c run.
                    let r' : Restores orig c.db c.view =
                      escrow-Restores orig o.db o.view metadata.source_account_idx
                        op.category.sell_asset op.amount run r in
                    Ends-if (succeeded c.status) _ _ r' (
                      Ends-bind (unwind_add_offer ops added idx (make_offer op metadata)) _
                        λ s _. r'))))

  cancel_sell_offer-Ends :
      (metadata : OperationMetadata) (op : CancelSellOfferOp) (o : Operating T D)
      → IsRestorable o
      → Ends (process_cancel_sell_offer ops buffered metadata op o)
  unfolding process_cancel_sell_offer
  cancel_sell_offer-Ends metadata op o r =
      let owner = metadata.tx_metadata.source_account in
      Ends-bind (look_up_idx o.serial_manager op.category) _ λ idx _.
        Ends-bind (delete_offer ops o.serial_manager idx op.min_price owner op.offer_id) _ λ d _.
          elim (Option-cases d.1) [
            | inl missing ↦ rw missing r
            | inr (offer, found) ↦ rw found (
                Ends-bind
                  (Buffered.escrow o.db o.view metadata.source_account_idx op.category.sell_asset
                    (neg64 offer.amount))
                  _
                  λ c run.
                    let r' : Restores orig c.db c.view =
                      escrow-Restores orig o.db o.view metadata.source_account_idx
                        op.category.sell_asset (neg64 offer.amount) run r in
                    Ends-if (succeeded c.status) _ _ r' (
                      Ends-bind (undelete_offer ops d.0 idx op.min_price owner op.offer_id) _
                        λ s _. r'))
          ]

  pub process_operation-Ends :
      (metadata : OperationMetadata) (op : Operation) (o : Operating T D)
      → IsRestorable o
      → Ends (process_operation ops buffered metadata op o)
  unfolding process_operation
  process_operation-Ends metadata (create_account op) o r = create_account-Ends metadata op o r
  process_operation-Ends metadata (create_sell_offer op) o r =
      create_sell_offer-Ends metadata op o r
  process_operation-Ends metadata (cancel_sell_offer op) o r =
      cancel_sell_offer-Ends metadata op o r
  process_operation-Ends metadata (payment op) o r = payment-Ends metadata op o r
  process_operation-Ends metadata (money_printer op) o r = money_printer-Ends metadata op o r

  pub Ends-result :
      (m : Processed T D) {s : TransactionProcessingStatus} {o : Operating T D}
      → Ends m
      → m ≡ some (s, o)
      → Restores orig o.db o.view
  Ends-result none ends run = cc
  Ends-result (some (s', o')) {s} {o} ends run =
      rw (← ap (λ x. x.1) (some-injective (s', o') (s, o) run)) ends
