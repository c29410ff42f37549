-- ===== src/Account/Laws.antt =====
-- An account as a function from assets to amounts: what transfers, commit, rollback and the
-- validity check mean for that function.
use mathlib.Core.List.{append-nil}
use speedex_parallelize.Base.{
  ℕ, zero, suc, ◌≡◌, refl, ◌∙◌, ◌↔◌, inl, inr, true, ◌&&◌, not, List, [], ◌∷◌, ◌++◌, map, arith,
  leb, ◌==◌, if◌then◌else◌, Bool-cases, length, get_or, add64, neg64, is_negative, IsNonneg,
  get_or-set,
}
use speedex_parallelize.Asset.{RevertableAsset, make}
use speedex_parallelize.Asset
use speedex_parallelize.Account.{
  UserAccount, operate_on_asset, transfer_available, escrow, conditional_transfer_available,
  conditional_escrow, lookup_available_balance, all_valid, in_valid_state,
}
use speedex_parallelize.Account.Slots.{slot, operate_on_asset_lem}
use speedex_parallelize.Account.Commit.{commit, rollback, committed_new}

-- The amount that the account holds of an asset now.
unfoldable pub available : UserAccount → ℕ → ℕ
available acc asset = (slot acc asset).available

-- The amount that the last commit fixed.
unfoldable pub committed : UserAccount → ℕ → ℕ
committed acc asset = (get_or acc.owned_assets asset (make 0)).committed_available

-- A transfer adds the amount, modulo 2 ^ 64, to that asset and changes no other.
pub available-transfer_available :
    (acc : UserAccount) (asset amount b : ℕ)
    → available (transfer_available acc asset amount) b
      ≡ (if asset == b then add64 (available acc asset) amount else available acc b)
unfolding available transfer_available Asset.transfer_available
available-transfer_available acc asset amount b =
    let func : RevertableAsset → ℕ → RevertableAsset × Unit {0} =
      λ a n. (Asset.transfer_available a n, tt) in
    ground (arith, (operate_on_asset_lem func acc asset amount).0 b)

-- Escrow takes the amount, modulo 2 ^ 64, out of that asset and changes no other.
pub available-escrow :
    (acc : UserAccount) (asset amount b : ℕ)
    → available (escrow acc asset amount) b
      ≡ (if asset == b then add64 (available acc asset) (neg64 amount) else available acc b)
unfolding available escrow Asset.escrow
available-escrow acc asset amount b =
    let func : RevertableAsset → ℕ → RevertableAsset × Unit {0} = λ a n. (Asset.escrow a n, tt) in
    ground (arith, (operate_on_asset_lem func acc asset amount).0 b)

-- A conditional transfer succeeds exactly when the new amount of the asset is not negative, and
-- then it is that transfer; when it fails no asset changes.
pub available-conditional_transfer :
    (acc : UserAccount) (asset amount : ℕ)
    → let r = conditional_transfer_available acc asset amount in
      let covered = not (is_negative (add64 (available acc asset) amount)) in
      (r.1 ≡ covered)
      × ((b : ℕ)
          → available r.0 b ≡ (
              if covered && (asset == b)
              then add64 (available acc asset) amount
              else available acc b))
unfolding available conditional_transfer_available Asset.conditional_transfer_available
available-conditional_transfer acc asset amount =
    let (same, answer) =
      operate_on_asset_lem Asset.conditional_transfer_available acc asset amount in
    (ground arith, λ b. ground (arith, same b))

-- A lookup returns the amount of the asset and changes none.
pub available-lookup :
    (acc : UserAccount) (asset : ℕ)
    → let r = lookup_available_balance acc asset in
      (r.1 ≡ available acc asset) × ((b : ℕ) → available r.0 b ≡ available acc b)
unfolding available lookup_available_balance Asset.lookup_available_balance
available-lookup acc asset =
    let func : RevertableAsset → ℕ → RevertableAsset × ℕ = λ a _. (a, a.available) in
    let (same, answer) = operate_on_asset_lem func acc asset 0 in
    (answer, λ b. ground (arith, same b))

commit_slots :
    (owned unc : List RevertableAsset) (i : ℕ)
    → let a = get_or (owned ++ unc) i (make 0) in
      let c = get_or (map (λ x. (Asset.commit x).0) owned ++ committed_new unc) i (make 0) in
      (c.available ≡ a.available) × (c.committed_available ≡ a.available)
unfolding committed_new Asset.commit make
commit_slots [] [] i = (refl, refl)
commit_slots [] (x ∷ unc) zero = ground arith
commit_slots [] (x ∷ unc) (suc i) = commit_slots [] unc i
commit_slots (x ∷ owned) unc zero = ground arith
commit_slots (x ∷ owned) unc (suc i) = commit_slots owned unc i

-- A commit changes no amount, and makes every amount the committed one.
pub available-commit :
    (acc : UserAccount) (b : ℕ)
    → (available (commit acc) b ≡ available acc b) × (committed (commit acc) b ≡ available acc b)
unfolding available committed slot commit
available-commit acc b =
    rw
      (
        available,
        committed,
        slot,
        commit,
        append-nil (
            map (λ x. (Asset.commit x).0) acc.owned_assets ++ committed_new acc.uncommitted_assets),
      )
      (commit_slots acc.owned_assets acc.uncommitted_assets b)

rollback_slots :
    (owned : List RevertableAsset) (i : ℕ)
    → (get_or (map Asset.rollback owned) i (make 0)).available
      ≡ (get_or owned i (make 0)).committed_available
unfolding Asset.rollback make
rollback_slots [] i = refl
rollback_slots (x ∷ owned) zero = refl
rollback_slots (x ∷ owned) (suc i) = rollback_slots owned i

pub available-rollback : (acc : UserAccount) (b : ℕ) → available (rollback acc) b ≡ committed acc b
unfolding available committed slot rollback
available-rollback acc b =
    rw (available, committed, slot, rollback, append-nil (map Asset.rollback acc.owned_assets))
      (rollback_slots acc.owned_assets b)

-- The calls that change amounts.
pub data AccountOp : Type 0 where
  transfers escrows conditional_transfers conditional_escrows : ℕ → ℕ → AccountOp
  lookups : ℕ → AccountOp

unfoldable pub apply_op : UserAccount → AccountOp → UserAccount
apply_op acc (transfers asset n) = transfer_available acc asset n
apply_op acc (escrows asset n) = escrow acc asset n
apply_op acc (conditional_transfers asset n) = (conditional_transfer_available acc asset n).0
apply_op acc (conditional_escrows asset n) = (conditional_escrow acc asset n).0
apply_op acc (lookups asset) = (lookup_available_balance acc asset).0

unfoldable pub apply_ops : UserAccount → List AccountOp → UserAccount
apply_ops acc [] = acc
apply_ops acc (op ∷ ops) = apply_ops (apply_op acc op) ops

operate-committed {ℓ} :
    {R : Type ℓ} (func : RevertableAsset → ℕ → RevertableAsset × R)
    → ((a : RevertableAsset) (n : ℕ) → (func a n).0.committed_available ≡ a.committed_available)
    → (acc : UserAccount) (asset n b : ℕ)
    → committed (operate_on_asset acc asset n func).0 b ≡ committed acc b
unfolding operate_on_asset committed
operate-committed func keep acc asset n b =
    elim (Bool-cases (leb (length acc.owned_assets) asset)) [
      | inl beyond ↦ rw beyond
      | inr within ↦ rw within (
          ground (
            arith,
            get_or-set acc.owned_assets asset b (func (get_or acc.owned_assets asset (make 0)) n).0
                (make 0) (ground arith),
            keep (get_or acc.owned_assets asset (make 0)) n,
          ))
    ]

apply_op-committed :
    (acc : UserAccount) (op : AccountOp) (b : ℕ) → committed (apply_op acc op) b ≡ committed acc b
unfolding apply_op transfer_available escrow conditional_transfer_available conditional_escrow
    lookup_available_balance Asset.transfer_available Asset.escrow
    Asset.conditional_transfer_available Asset.conditional_escrow
apply_op-committed acc (transfers asset n) b =
    operate-committed {0} (λ a m. (Asset.transfer_available a m, tt)) (λ a m. refl) acc asset n b
apply_op-committed acc (escrows asset n) b =
    operate-committed {0} (λ a m. (Asset.escrow a m, tt)) (λ a m. refl) acc asset n b
apply_op-committed acc (conditional_transfers asset n) b =
    operate-committed Asset.conditional_transfer_available (λ a m. ground arith) acc asset n b
apply_op-committed acc (conditional_escrows asset n) b =
    operate-committed Asset.conditional_escrow (λ a m. ground arith) acc asset n b
apply_op-committed acc (lookups asset) b =
    operate-committed (λ a _. (a, Asset.lookup_available_balance a)) (λ a m. refl) acc asset 0 b

apply_ops-committed :
    (acc : UserAccount) (ops : List AccountOp) (b : ℕ)
    → committed (apply_ops acc ops) b ≡ committed acc b
unfolding apply_ops
apply_ops-committed acc [] b = refl
apply_ops-committed acc (op ∷ ops) b =
    apply_ops-committed (apply_op acc op) ops b ∙ apply_op-committed acc op b

-- Commit an account, then apply any list of operations on its balances, then roll it back: every
-- balance is the one before the commit.
pub rollback-apply_ops-commit :
    (acc : UserAccount) (ops : List AccountOp) (b : ℕ)
    → available (rollback (apply_ops (commit acc) ops)) b ≡ available acc b
rollback-apply_ops-commit acc ops b =
    available-rollback (apply_ops (commit acc) ops) b
    ∙ (apply_ops-committed (commit acc) ops b ∙ (available-commit acc b).1)

all_valid-append :
    (xs ys : List RevertableAsset) → all_valid (xs ++ ys) ≡ all_valid xs && all_valid ys
unfolding all_valid
all_valid-append [] ys = refl
all_valid-append (x ∷ xs) ys = ground (arith, all_valid-append xs ys)

all_valid_iff :
    (xs : List RevertableAsset)
    → (all_valid xs ≡ true) ↔ ((i : ℕ) → IsNonneg (get_or xs i (make 0)).available)
unfolding all_valid Asset.in_valid_state make
all_valid_iff [] = (λ h i. omega arith, λ h. refl)
all_valid_iff (x ∷ xs) = (
  (λ h. elim [ zero ↦ ground arith | suc i ↦ (all_valid_iff xs).0 (ground arith) i ]),
  λ h.
      let head : IsNonneg x.available = h 0 in
      let rest = (all_valid_iff xs).1 (λ i. h (suc i)) in ground arith,
)

-- The validity check passes exactly when the amount of every asset is not negative.
pub in_valid_state_iff :
    (acc : UserAccount)
    → (in_valid_state acc ≡ true) ↔ ((asset : ℕ) → IsNonneg (available acc asset))
unfolding in_valid_state available slot
in_valid_state_iff acc =
    rw (← all_valid-append acc.owned_assets acc.uncommitted_assets)
      (all_valid_iff (acc.owned_assets ++ acc.uncommitted_assets))
