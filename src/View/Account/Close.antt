-- ===== src/View/Account/Close.antt =====
-- The ends of a view of one account: commit and unwind (View/Account).
use speedex_parallelize.Base.{ℕ, ◌^◌, ◌<◌, ◌≡◌, [], ◌∷◌, arith, add64, neg64, IsWord}
use speedex_parallelize.Base.Maps.{Map, at_or_zero, find, Unique, sum_at, sum_at-at_or_zero}
use speedex_parallelize.Account.{UserAccount}
use speedex_parallelize.Account
use speedex_parallelize.Account.Laws.{available, available-transfer_available}
use speedex_parallelize.View.Account.{
  UserAccountView, new, commit, commit_entries, unwind, unwind_entries,
}
use speedex_parallelize.View.Account.Balances.{IsViewOf, seen}

commit_entries_lem :
    (m : Map ℕ) (main : UserAccount) (b : ℕ)
    → IsWord (available main b)
    → available (commit_entries main m) b ≡ add64 (available main b) (sum_at b m)
unfolding commit_entries
commit_entries_lem [] main b word = omega arith
commit_entries_lem ((j, v) ∷ m) main b word =
    let moved = available-transfer_available main j v b in
    ground (
      arith,
      moved,
      commit_entries_lem m (Account.transfer_available main j v) b (ground (arith, moved)),
    )

rest_words :
    (j v : ℕ) (m : Map ℕ)
    → Unique ((j, v) ∷ m)
    → ((a : ℕ) → IsWord (at_or_zero a ((j, v) ∷ m)))
    → (v < 2 ^ 64) × ((a : ℕ) → IsWord (at_or_zero a m))
unfolding at_or_zero find
rest_words j v m u word = (ground (arith, word j), λ a. ground (arith, word a))

unwind_entries_lem :
    (m : Map ℕ) (main : UserAccount) (b : ℕ)
    → Unique m
    → ((a : ℕ) → IsWord (at_or_zero a m))
    → IsWord (available main b)
    → IsWord (available (unwind_entries main m) b)
      × (add64 (available (unwind_entries main m) b) (sum_at b m) ≡ available main b)
unfolding unwind_entries
unwind_entries_lem [] main b u words word = (word, omega arith)
unwind_entries_lem ((j, v) ∷ m) main b u words word =
    let moved = available-transfer_available main j (neg64 v) b in
    let (v_word, rest) = rest_words j v m u words in
    let (ends, sums) =
      unwind_entries_lem m (Account.transfer_available main j (neg64 v)) b u.1 rest
        (ground (arith, moved)) in
    (ends, ground (arith, moved, sums))

-- For a view that belongs to its account, commit makes every balance that the transaction saw the
-- balance of the account.
pub commit-seen :
    (orig : ℕ → ℕ) (main : UserAccount) (view : UserAccountView)
    → IsViewOf orig main view
    → (b : ℕ) → available (commit main view) b ≡ seen main view b
unfolding commit seen
commit-seen orig main view v b =
    rw (← sum_at-at_or_zero b view.available_buffer v.buffer_unique)
      (commit_entries_lem view.available_buffer main b (ground (arith, v.accounted b)))

-- For a view that belongs to its account, unwind gives back every balance that the account had
-- when the view was made.
pub unwind-orig :
    (orig : ℕ → ℕ) (main : UserAccount) (view : UserAccountView)
    → IsViewOf orig main view
    → (b : ℕ) → available (unwind main view) b ≡ orig b
unfolding unwind
unwind-orig orig main view v b =
    let effects = view.available_side_effects in
    let (ends, sums) =
      unwind_entries_lem effects main b v.effects_unique v.effects_word
        (ground (arith, v.accounted b)) in
    ground (
      arith,
      ends,
      sums,
      v.accounted b,
      v.orig_word b,
      v.effects_word b,
      sum_at-at_or_zero b effects v.effects_unique,
    )

-- A new view belongs to the account and shows the balances that the account has.
pub new-IsViewOf :
    (main : UserAccount)
    → ((a : ℕ) → IsWord (available main a))
    → IsViewOf (available main) main new × ((a : ℕ) → seen main new a ≡ available main a)
unfolding new seen at_or_zero find
new-IsViewOf main word = (
  record {
    buffer_unique = tt;
    effects_unique = tt;
    orig_word = word;
    buffer_word = λ a. omega arith;
    effects_word = λ a. omega arith;
    accounted = λ a. (let w = word a in omega arith);
  },
  λ a. (let w = word a in omega arith),
)
