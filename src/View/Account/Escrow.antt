-- ===== src/View/Account/Escrow.antt =====
-- A view of one account belongs to its account after every escrow, also one of an amount that is out
-- of the ordinary (View/Account).
use speedex_parallelize.Base.{
  ℕ, ◌^◌, ◌<◌, ◌≡◌, refl, ◌∙◌, inl, inr, ◌&&◌, arith, ◌==◌, if◌then◌else◌, Bool-cases, add64, neg64,
  is_negative, IsWord,
}
use speedex_parallelize.Base.Maps.{
  at_or_zero, index, insert, at_or_zero-insert, index_lem, index-Unique, insert-Unique,
}
use speedex_parallelize.Asset.{RevertableAsset}
use speedex_parallelize.Asset
use speedex_parallelize.Account.{UserAccount, operate_on_asset}
use speedex_parallelize.Account
use speedex_parallelize.Account.Laws.{available}
use speedex_parallelize.Account.Slots.{operate_on_asset_lem}
use speedex_parallelize.View.Account.{UserAccountView, add_to, conditional_escrow}
use speedex_parallelize.View.Account.Balances.{IsViewOf}

-- Escrow of any amount takes it out of the asset, modulo 2 ^ 64, or fails and changes nothing.
pub available-conditional_escrow :
    (acc : UserAccount) (asset amount b : ℕ)
    → let r = Account.conditional_escrow acc asset amount in
      available r.0 b
      ≡ (if r.1 && (asset == b) then add64 (available acc b) (neg64 amount) else available acc b)
unfolding available Account.conditional_escrow Asset.conditional_escrow
    Asset.conditional_transfer_available Asset.transfer_available
available-conditional_escrow acc asset amount b =
    let (same, answer) = operate_on_asset_lem Asset.conditional_escrow acc asset amount in
    ground (arith, same b)

module _ (orig : ℕ → ℕ) (main : UserAccount) (view : UserAccountView) (v : IsViewOf orig main view)
    (asset : ℕ) where
  buffer-IsWord :
      (n b : ℕ)
      → n < 2 ^ 64
      → IsWord (at_or_zero b (insert asset n (index asset view.available_buffer).0))
  buffer-IsWord n b word = ground (
    arith,
    at_or_zero-insert asset b n (index asset view.available_buffer).0,
    (index_lem asset b view.available_buffer).1,
    v.buffer_word b,
  )

  -- The account gave `n`, which is noted.
  given :
      (main' : UserAccount) (n : ℕ)
      → ((b : ℕ)
          → available main' b
            ≡ (if asset == b then add64 (available main b) n else available main b))
      → IsViewOf orig main' (record {
        available_buffer = insert asset 0 (index asset view.available_buffer).0;
        available_side_effects = add_to asset n view.available_side_effects;
      })
  unfolding add_to
  given main' n gave =
      let effects = view.available_side_effects in
      let added = add64 (at_or_zero asset effects) n in
      record {
        buffer_unique =
            insert-Unique asset 0 _ (index-Unique asset view.available_buffer v.buffer_unique);
        effects_unique = insert-Unique asset added effects v.effects_unique;
        orig_word = v.orig_word;
        buffer_word = λ b. buffer-IsWord 0 b (omega arith);
        effects_word =
            λ b. ground (arith, at_or_zero-insert asset b added effects, v.effects_word b);
        accounted =
            λ b. ground (arith, at_or_zero-insert asset b added effects, gave b, v.accounted b);
      }

  -- The account gave nothing.
  refused :
      (main' : UserAccount)
      → ((b : ℕ) → available main' b ≡ available main b)
      → IsViewOf orig main'
          (record view { available_buffer = (index asset view.available_buffer).0 })
  refused main' same = record {
    buffer_unique = index-Unique asset view.available_buffer v.buffer_unique;
    effects_unique = v.effects_unique;
    orig_word = v.orig_word;
    buffer_word = λ b. rw ((index_lem asset b view.available_buffer).1) (v.buffer_word b);
    effects_word = v.effects_word;
    accounted = λ b. same b ∙ v.accounted b;
  }

  -- The buffer covers the amount.
  covered :
      (n : ℕ)
      → n < 2 ^ 64
      → IsViewOf orig main
          (record view { available_buffer = insert asset n (index asset view.available_buffer).0 })
  covered n word = record {
    buffer_unique =
        insert-Unique asset n _ (index-Unique asset view.available_buffer v.buffer_unique);
    effects_unique = v.effects_unique;
    orig_word = v.orig_word;
    buffer_word = λ b. buffer-IsWord n b word;
    effects_word = v.effects_word;
    accounted = v.accounted;
  }

  -- Freed escrow goes to the buffer.
  put_back :
      (n : ℕ)
      → IsViewOf orig main (record view { available_buffer = add_to asset n view.available_buffer })
  unfolding add_to
  put_back n =
      let held = view.available_buffer in
      let freed = add64 (at_or_zero asset held) n in
      record {
        buffer_unique = insert-Unique asset freed held v.buffer_unique;
        effects_unique = v.effects_unique;
        orig_word = v.orig_word;
        buffer_word = λ b. ground (arith, at_or_zero-insert asset b freed held, v.buffer_word b);
        effects_word = v.effects_word;
        accounted = v.accounted;
      }

  pub conditional_escrow-IsViewOf :
      (amount : ℕ)
      → let o = conditional_escrow main view asset amount in IsViewOf orig o.main o.view
  unfolding conditional_escrow
  conditional_escrow-IsViewOf amount =
      let n = add64 (index asset view.available_buffer).1 (neg64 amount) in
      let r = Account.conditional_escrow main asset (neg64 n) in
      let back : neg64 (neg64 n) ≡ n = omega arith in
      let moved = available-conditional_escrow main asset (neg64 n) in
      elim (Bool-cases (is_negative amount)) [
        | inl freed ↦ rw (conditional_escrow, freed) (put_back (neg64 amount))
        | inr takes ↦ elim (Bool-cases (is_negative n)) [
          | inl short ↦ elim (Bool-cases r.1) [
            | inl enough ↦
                rw (conditional_escrow, takes, short, enough)
                  (given r.0 n (λ b. moved b ∙ rw (enough, back) refl))
            | inr fails ↦
                rw (conditional_escrow, takes, short, fails)
                  (refused r.0 (λ b. moved b ∙ rw fails refl))
          ]
          | inr long ↦ rw (conditional_escrow, takes, long) (covered n (omega arith))
        ]
      ]
