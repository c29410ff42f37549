-- ===== src/Account.antt =====
-- implementation/src/user_account.h and user_account.cc: the balances of one account (this file) and
-- its sequence numbers (Account/SeqNum). `owned_assets` are those of the last commit, and
-- `uncommitted_assets` the ones first used since then; an asset is an index into the two.
-- The mutex round the second vector is not modelled: each call here is one atomic step.
pub mod SeqNum
pub mod Commit
pub mod Replay
pub mod Reservation
pub mod Slots
pub mod Laws
pub mod Commitment
use speedex_parallelize.Base.{
  ℕ, zero, suc, ◌+◌, ◌-◌, Bool, true, false, ◌&&◌, List, [], ◌∷◌, ◌++◌, leb, ltb, if◌then◌else◌,
  length, get_or, set, map, add64,
}
use speedex_parallelize.Asset.{RevertableAsset, make}
use speedex_parallelize.Asset

pub record UserAccount : Type 0 where
  pub owned_assets : List RevertableAsset
  pub uncommitted_assets : List RevertableAsset
  pub sequence_number_vec : ℕ
  pub last_committed_id : ℕ
  pub owner : ℕ
  pub pk : List ℕ

-- `UserAccount(AccountID owner, PublicKey public_key)`. The source leaves the atomic
-- `sequence_number_vec` to its default constructor, which gives 0 since C++20.
unfoldable pub new : ℕ → List ℕ → UserAccount
new owner pk = record {
  owned_assets = [];
  uncommitted_assets = [];
  sequence_number_vec = 0;
  last_committed_id = 0;
  owner = owner;
  pk = pk;
}

-- `while (asset >= owned_assets_size + uncommitted_assets.size()) emplace_back()`; the fuel is
-- `asset + 1`, which is at least the number of rounds.
unfoldable pub grow : ℕ → ℕ → ℕ → List RevertableAsset → List RevertableAsset
grow zero asset owned_size xs = xs
grow (suc fuel) asset owned_size xs =
    let rest = grow fuel asset owned_size (xs ++ make 0 ∷ []) in
    if leb (owned_size + length xs) asset then rest else xs

-- `vec[i] = func(vec[i], amount)`, for an index that is in range.
abbrev pub operate_at {ℓ} :
    {R : Type ℓ}
    → List RevertableAsset
    → ℕ
    → (RevertableAsset → RevertableAsset × R)
    → List RevertableAsset × R
operate_at xs i func = let (a, r) = func (get_or xs i (make 0)) in (set xs i a, r)

unfoldable pub operate_on_asset {ℓ} :
    {R : Type ℓ}
    → UserAccount
    → ℕ
    → ℕ
    → (RevertableAsset → ℕ → RevertableAsset × R)
    → UserAccount × R
operate_on_asset acc asset amount func =
    let owned_assets_size = length acc.owned_assets in
    if leb owned_assets_size asset
    then (let grown = grow (suc asset) asset owned_assets_size acc.uncommitted_assets in
        let (xs, r) = operate_at grown (asset - owned_assets_size) (λ a. func a amount) in
        (record acc { uncommitted_assets = xs }, r))
    else (let (xs, r) = operate_at acc.owned_assets asset (λ a. func a amount) in
        (record acc { owned_assets = xs }, r))

unfoldable pub transfer_available : UserAccount → ℕ → ℕ → UserAccount
transfer_available acc asset amount =
    (operate_on_asset {0} acc asset amount (λ a n. (Asset.transfer_available a n, tt))).0

unfoldable pub escrow : UserAccount → ℕ → ℕ → UserAccount
escrow acc asset amount = (operate_on_asset {0} acc asset amount (λ a n. (Asset.escrow a n, tt))).0

unfoldable pub conditional_transfer_available : UserAccount → ℕ → ℕ → UserAccount × Bool
conditional_transfer_available acc asset amount =
    operate_on_asset acc asset amount Asset.conditional_transfer_available

unfoldable pub conditional_escrow : UserAccount → ℕ → ℕ → UserAccount × Bool
conditional_escrow acc asset amount = operate_on_asset acc asset amount Asset.conditional_escrow

-- A lookup past the end makes the missing balances.
unfoldable pub lookup_available_balance : UserAccount → ℕ → UserAccount × ℕ
lookup_available_balance acc asset =
    operate_on_asset acc asset 0 (λ a _. (a, Asset.lookup_available_balance a))

unfoldable pub all_valid : List RevertableAsset → Bool
all_valid [] = true
all_valid (a ∷ as') = Asset.in_valid_state a && all_valid as'

unfoldable pub in_valid_state : UserAccount → Bool
in_valid_state acc = all_valid acc.owned_assets && all_valid acc.uncommitted_assets
