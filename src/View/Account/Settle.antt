-- ===== src/View/Account/Settle.antt =====
-- The common end of both calls of a view of one account, over the balances that it shows
-- (View/Account).
use speedex_parallelize.Base.{
  refl, not, ℕ, ◌≡◌, ◌∙◌, inl, inr, Bool, true, false, arith, ◌==◌, if◌then◌else◌, Bool-cases,
  add64, is_negative,
}
use speedex_parallelize.Base.Maps.{
  Map, at_or_zero, index, insert, Unique, at_or_zero-insert, index_lem, index-Unique, insert-Unique,
}
use speedex_parallelize.Xdr.{success, insufficient_balance}
use speedex_parallelize.Account.{UserAccount, operate_on_asset}
use speedex_parallelize.Account
use speedex_parallelize.Account.Laws.{available, available-conditional_transfer}
use speedex_parallelize.View.Account.{UserAccountView, add_to, settle}
use speedex_parallelize.View.Account.Balances.{covers, seen, IsViewOf, Moves, plus}

module _ (orig : ℕ → ℕ) (main : UserAccount) (view : UserAccountView) (v : IsViewOf orig main view)
    (asset amount : ℕ) where
  unfoldable pub buffer : Map ℕ
  buffer = (index asset view.available_buffer).0

  unfoldable pub new_buffer : ℕ
  new_buffer = add64 (index asset view.available_buffer).1 amount

  unfoldable pub taken : UserAccount × Bool
  taken = Account.conditional_transfer_available main asset new_buffer

  buffer_lem : (b : ℕ) → at_or_zero b buffer ≡ at_or_zero b view.available_buffer
  unfolding buffer
  buffer_lem b = (index_lem asset b view.available_buffer).1

  buffer-Unique : Unique buffer
  unfolding buffer
  buffer-Unique = index-Unique asset view.available_buffer v.buffer_unique

  new_buffer_lem : new_buffer ≡ add64 (at_or_zero asset view.available_buffer) amount
  unfolding new_buffer
  new_buffer_lem = rw ((index_lem asset 0 view.available_buffer).0)

  taken_enough :
      taken.1 ≡ true
      → (b : ℕ)
      → available taken.0 b
        ≡ (if asset == b then add64 (available main b) new_buffer else available main b)
  unfolding taken
  taken_enough e b =
      let (answer, same) = available-conditional_transfer main asset new_buffer in
      ground (arith, same b)

  taken_refused : taken.1 ≡ false → (b : ℕ) → available taken.0 b ≡ available main b
  unfolding taken
  taken_refused e b =
      let (answer, same) = available-conditional_transfer main asset new_buffer in
      ground (arith, same b)

  settle_enough :
      taken.1 ≡ true
      → Moves orig (seen main view) (plus (seen main view) asset amount) true (record {
        main = taken.0;
        view = record {
          available_buffer = insert asset 0 buffer;
          available_side_effects = add_to asset new_buffer view.available_side_effects;
        };
        status = success;
      })
  unfolding seen add_to
  settle_enough enough =
      let effects = view.available_side_effects in
      let added = add64 (at_or_zero asset effects) new_buffer in
      record {
        is_view = record {
          buffer_unique = insert-Unique asset 0 buffer buffer-Unique;
          effects_unique = insert-Unique asset added effects v.effects_unique;
          orig_word = v.orig_word;
          buffer_word = λ b.
              ground (arith, at_or_zero-insert asset b 0 buffer, buffer_lem b, v.buffer_word b);
          effects_word =
              λ b. ground (arith, at_or_zero-insert asset b added effects, v.effects_word b);
          accounted = λ b. ground (
            arith,
            at_or_zero-insert asset b added effects,
            taken_enough enough b,
            v.accounted b,
          );
        };
        answered = refl;
        shown = λ b. ground (
          arith,
          at_or_zero-insert asset b 0 buffer,
          buffer_lem b,
          taken_enough enough b,
          new_buffer_lem,
        );
      }

  settle_refused :
      taken.1 ≡ false
      → Moves orig (seen main view) (plus (seen main view) asset amount) false (record {
        main = taken.0;
        view = record view { available_buffer = buffer };
        status = insufficient_balance;
      })
  unfolding seen
  settle_refused refused = record {
    is_view = record {
      buffer_unique = buffer-Unique;
      effects_unique = v.effects_unique;
      orig_word = v.orig_word;
      buffer_word = λ b. rw (buffer_lem b) (v.buffer_word b);
      effects_word = v.effects_word;
      accounted = λ b. taken_refused refused b ∙ v.accounted b;
    };
    answered = refl;
    shown = λ b. rw (buffer_lem b, taken_refused refused b);
  }

  pub settle_covered :
      Moves orig (seen main view) (plus (seen main view) asset amount) true (record {
        main = main;
        view = record view { available_buffer = insert asset new_buffer buffer };
        status = success;
      })
  unfolding seen
  settle_covered = record {
    is_view = record {
      buffer_unique = insert-Unique asset new_buffer buffer buffer-Unique;
      effects_unique = v.effects_unique;
      orig_word = v.orig_word;
      buffer_word = λ b. ground (
        arith,
        at_or_zero-insert asset b new_buffer buffer,
        buffer_lem b,
        v.buffer_word b,
        new_buffer_lem,
      );
      effects_word = v.effects_word;
      accounted = v.accounted;
    };
    answered = refl;
    shown = λ b.
        ground (arith, at_or_zero-insert asset b new_buffer buffer, buffer_lem b, new_buffer_lem);
  }

  lacking : is_negative (add64 (available main asset) new_buffer) ≡ not taken.1
  unfolding taken
  lacking =
      let (answer, _) = available-conditional_transfer main asset new_buffer in
      rw answer (ground arith)

  pub settle-Moves :
      Moves orig
        (seen main view)
        (plus (seen main view) asset amount)
        (covers main asset new_buffer)
        (settle taken main view buffer asset new_buffer)
  settle-Moves = elim (Bool-cases (is_negative new_buffer)) [
    | inl short ↦ elim (Bool-cases taken.1) [
      | inl enough ↦ rw (short, lacking, enough) (settle_enough enough)
      | inr refused ↦ rw (short, lacking, refused) (settle_refused refused)
    ]
    | inr covered ↦ rw covered settle_covered
  ]
