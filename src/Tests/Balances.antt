-- ===== src/Tests/Balances.antt =====
-- Balances of a concrete asset, account and view.
use speedex_parallelize.Base.{
  ℕ, zero, suc, ◌≡◌, refl, ◌↔◌, true, false, ◌&&◌, not, List, [], ◌∷◌, arith, ◌==◌, if◌then◌else◌,
  add64, neg64, is_negative, IsWord, IsNonneg,
}
use speedex_parallelize.Base.Maps.{at_or_zero, find}
use speedex_parallelize.Asset.{RevertableAsset, make}
use speedex_parallelize.Asset
use speedex_parallelize.Asset.CasLoop.{
  Round, last_store, cas_loop, Seen, AtomicAt, cas_loop-AtomicAt, cas_loop-IsNonneg,
}
use speedex_parallelize.Asset.Laws.{conditional_escrow_lem, conditional_transfer_available-cas_loop}
use speedex_parallelize.Account.{
  UserAccount, conditional_transfer_available, transfer_available, in_valid_state,
}
use speedex_parallelize.Account.Commit.{commit, rollback}
use speedex_parallelize.Account.Laws.{
  available, committed, available-transfer_available, available-conditional_transfer,
  available-commit, rollback-apply_ops-commit, in_valid_state_iff, apply_ops, transfers, escrows,
  lookups,
}
use speedex_parallelize.View.Account.{UserAccountView}
use speedex_parallelize.View
use speedex_parallelize.Account.Slots.{slot}
use speedex_parallelize.View.Account.Balances.{covers, seen, IsViewOf, Moves, plus}
use speedex_parallelize.View.Account.Laws.{transfer_available-Moves, conditional_escrow-Moves}
use speedex_parallelize.View.Account.Close.{commit-seen, unwind-orig}

-- An account that holds 100 of asset 0 and 7 of asset 2, one of them new since the last commit.
abbrev bob : UserAccount
bob = record {
  owned_assets = make 100 ∷ make 0 ∷ [];
  uncommitted_assets = make 7 ∷ [];
  sequence_number_vec = 0;
  last_committed_id = 256;
  owner = 8;
  pk = 1 ∷ 2 ∷ [];
}

-- Another thread takes 30 of 100 before the first compare-and-swap.
abbrev disturbed : List Round
disturbed =
    record { stores = 70 ∷ []; spurious = false } ∷ record { stores = []; spurious = true } ∷ []

cas_loop-AtomicAt_example :
    (v : ℕ) × (w : ℕ) × Seen disturbed 100 v w
    × AtomicAt v w (neg64 20) (cas_loop disturbed 100 (neg64 20))
cas_loop-AtomicAt_example = cas_loop-AtomicAt disturbed 100 (neg64 20)

disturbed_result : cas_loop disturbed 100 (neg64 20) ≡ (50, true)
unfolding cas_loop last_store
disturbed_result = refl

cas_loop-IsNonneg_example : IsNonneg (cas_loop disturbed 100 (neg64 20)).0
cas_loop-IsNonneg_example =
    cas_loop-IsNonneg disturbed 100 (neg64 20) (omega arith) ((omega arith, tt), (tt, tt))

conditional_escrow_lem_example : (Asset.conditional_escrow (make 100) 101) ≡ (make 100, false)
unfolding make
conditional_escrow_lem_example = conditional_escrow_lem (make 100) 101 (omega arith) (omega arith)

conditional_transfer_available-cas_loop_example :
    let r = Asset.conditional_transfer_available (make 100) (neg64 20) in
    cas_loop [] 100 (neg64 20) ≡ (r.0.available, r.1)
unfolding make
conditional_transfer_available-cas_loop_example =
    conditional_transfer_available-cas_loop (make 100) (neg64 20)

-- Asset 5 is used for the first time.
available-transfer_available_example :
    available (transfer_available bob 5 40) 5 ≡ add64 (available bob 5) 40
available-transfer_available_example = available-transfer_available bob 5 40 5

available-conditional_transfer_example :
    let r = conditional_transfer_available bob 2 (neg64 8) in
    let covered = not (is_negative (add64 (available bob 2) (neg64 8))) in
    (r.1 ≡ covered)
    × ((b : ℕ)
        → available r.0 b
          ≡ (if covered && (2 == b) then add64 (available bob 2) (neg64 8) else available bob b))
available-conditional_transfer_example = available-conditional_transfer bob 2 (neg64 8)

available-commit_example :
    (available (commit bob) 2 ≡ available bob 2) × (committed (commit bob) 2 ≡ available bob 2)
available-commit_example = available-commit bob 2

rollback-apply_ops-commit_example :
    available (rollback (apply_ops (commit bob) (transfers 0 5 ∷ escrows 2 3 ∷ lookups 9 ∷ []))) 2
    ≡ available bob 2
rollback-apply_ops-commit_example =
    rollback-apply_ops-commit bob (transfers 0 5 ∷ escrows 2 3 ∷ lookups 9 ∷ []) 2

in_valid_state_iff_example :
    (in_valid_state bob ≡ true) ↔ ((asset : ℕ) → IsNonneg (available bob asset))
in_valid_state_iff_example = in_valid_state_iff bob

-- A view of bob that has received 30 of asset 0 and has taken 10 of asset 2 from the account.
abbrev after_take : UserAccount
after_take = record bob { uncommitted_assets = record (make 7) { available = 4 } ∷ [] }

abbrev bob_view : UserAccountView
bob_view = record {
  available_buffer = (0, 30) ∷ (2, 0) ∷ [];
  available_side_effects = (2, neg64 3) ∷ [];
}

-- The amounts that bob had when the view was made.
abbrev bob_had : ℕ → ℕ
bob_had zero = 100
bob_had (suc (suc zero)) = 7
bob_had _ = 0

bob_view-IsViewOf : IsViewOf bob_had after_take bob_view
unfolding at_or_zero find available slot make
bob_view-IsViewOf = record {
  buffer_unique = (refl, (refl, tt));
  effects_unique = (refl, tt);
  orig_word = words;
  buffer_word = λ a. ground arith;
  effects_word = λ a. ground arith;
  accounted = accounts;
}
  where
    words : (a : ℕ) → IsWord (bob_had a)
    words zero = omega arith
    words (suc zero) = omega arith
    words (suc (suc zero)) = omega arith
    words (suc (suc (suc a))) = omega arith

    accounts :
        (a : ℕ)
        → available after_take a ≡ add64 (bob_had a) (at_or_zero a bob_view.available_side_effects)
    accounts zero = refl
    accounts (suc zero) = refl
    accounts (suc (suc zero)) = refl
    accounts (suc (suc (suc a))) = ground arith

transfer_available-Moves_example :
    Moves bob_had
      (seen after_take bob_view)
      (plus (seen after_take bob_view) 0 (neg64 50))
      (covers after_take 0 (neg64 20))
      (View.Account.transfer_available after_take bob_view 0 (neg64 50))
unfolding at_or_zero find
transfer_available-Moves_example =
    transfer_available-Moves bob_had after_take bob_view bob_view-IsViewOf 0 (neg64 50)

conditional_escrow-Moves_example :
    Moves bob_had
      (seen after_take bob_view)
      (plus (seen after_take bob_view) 0 (neg64 131))
      (covers after_take 0 (neg64 101))
      (View.Account.conditional_escrow after_take bob_view 0 131)
unfolding at_or_zero find
conditional_escrow-Moves_example =
    conditional_escrow-Moves bob_had after_take bob_view bob_view-IsViewOf 0 131 (omega arith)
      (omega arith)

commit-seen_example :
    available (View.Account.commit after_take bob_view) 0 ≡ seen after_take bob_view 0
commit-seen_example = commit-seen bob_had after_take bob_view bob_view-IsViewOf 0

unwind-orig_example : available (View.Account.unwind after_take bob_view) 2 ≡ 7
unwind-orig_example = unwind-orig bob_had after_take bob_view bob_view-IsViewOf 2
