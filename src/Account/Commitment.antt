-- ===== src/Account/Commitment.antt =====
-- The commitment of an account, which is what a block's state hash and the database on disk hold,
-- and the account that is read back from one.
pub mod RoundTrip
use mathlib.Core.List.{append-nil, append_assoc}
use speedex_parallelize.Base.{
  ℕ, zero, suc, ◌+◌, ◌%◌, ◌^◌, Option, none, some, List, [], ◌∷◌, ◌++◌, ltb, if◌then◌else◌, length,
  get_or, add64,
}
use speedex_parallelize.Xdr.{AssetCommitment, AccountCommitment}
use speedex_parallelize.Asset.{RevertableAsset, make}
use speedex_parallelize.Account.{UserAccount}
use speedex_parallelize.Account.SeqNum.{get_seq_num_increment}

-- `RevertableAsset::produce_commitment`.
unfoldable pub produce_asset : RevertableAsset → ℕ → AssetCommitment
produce_asset a asset = record { asset = asset; amount_available = a.committed_available }

-- `RevertableAsset::tentative_commitment`.
unfoldable pub tentative_asset : RevertableAsset → ℕ → AssetCommitment
tentative_asset a asset = record { asset = asset; amount_available = a.available }

-- `for (uint8_t i = 0; i < v.size(); i++) out.push_back(f(v[i], i))`; `none` when the fuel runs out.
-- The index wraps at 256.
unfoldable pub push_commitments :
    (RevertableAsset → ℕ → AssetCommitment)
    → ℕ
    → ℕ
    → List RevertableAsset
    → List AssetCommitment
    → Option (List AssetCommitment)
push_commitments f zero i v out = none
push_commitments f (suc fuel) i v out =
    let rest = push_commitments f fuel ((i + 1) % 256) v (out ++ f (get_or v i (make 0)) i ∷ []) in
    if ltb i (length v) then rest else some out

-- The fuel of both loops: an index of 8 bits has no more values.
abbrev pub loop_fuel : ℕ
loop_fuel = 256

unfoldable pub produce_commitment : UserAccount → Option AccountCommitment
produce_commitment acc = elim (push_commitments produce_asset loop_fuel 0 acc.owned_assets []) [
  | none ↦ none
  | some assets ↦ some (record {
    owner = acc.owner;
    assets = assets;
    last_committed_id = acc.last_committed_id;
    pk = acc.pk;
  })
]

-- The second loop shifts the index by the number of owned assets, to a `uint32`.
unfoldable pub tentative_assets : UserAccount → Option (List AssetCommitment)
tentative_assets acc = elim (push_commitments tentative_asset loop_fuel 0 acc.owned_assets []) [
  | none ↦ none
  | some assets ↦
      push_commitments (λ a i. tentative_asset a ((i + length acc.owned_assets) % 2 ^ 32)) loop_fuel
        0 acc.uncommitted_assets assets
]

unfoldable pub tentative_commitment : UserAccount → Option AccountCommitment
tentative_commitment acc = elim (tentative_assets acc) [
  | none ↦ none
  | some assets ↦ some (record {
    owner = acc.owner;
    assets = assets;
    last_committed_id = add64 acc.last_committed_id (get_seq_num_increment acc.sequence_number_vec);
    pk = acc.pk;
  })
]

-- `while (owned_assets.size() < asset) owned_assets.emplace_back(0)`, with the asset as fuel.
unfoldable pub pad : ℕ → ℕ → List RevertableAsset → List RevertableAsset
pad zero asset owned = owned
pad (suc fuel) asset owned =
    let rest = pad fuel asset (owned ++ make 0 ∷ []) in
    if ltb (length owned) asset then rest else owned

-- The loop of the constructor; `none` is its exception on assets that are not sorted.
unfoldable pub add_assets :
    List AssetCommitment → List RevertableAsset → Option (List RevertableAsset)
add_assets [] owned = some owned
add_assets (c ∷ cs) owned =
    let rest = add_assets cs (pad c.asset c.asset owned ++ make c.amount_available ∷ []) in
    if ltb c.asset (length owned) then none else rest

-- `UserAccount(const AccountCommitment& commitment)`.
unfoldable pub from_commitment : AccountCommitment → Option UserAccount
from_commitment c = elim (add_assets c.assets []) [
  | none ↦ none
  | some owned ↦ some (record {
    owned_assets = owned;
    uncommitted_assets = [];
    sequence_number_vec = 0;
    last_committed_id = c.last_committed_id;
    owner = c.owner;
    pk = c.pk;
  })
]
