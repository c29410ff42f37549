-- ===== src/Account/Commitment/RoundTrip.antt =====
-- The account that is read back from a commitment, and the 8-bit index of the loop
-- (Account/Commitment).
use mathlib.Core.List.{append-nil, append_assoc}
use speedex_parallelize.Base.{
  ℕ, zero, suc, ◌+◌, ◌%◌, ◌≤◌, ◌<◌, ◌≡◌, refl, true, false, none, some, List, [], ◌∷◌, ◌++◌, map,
  arith, ltb, length, get_or, length-append,
}
use speedex_parallelize.Xdr.{AssetCommitment, AccountCommitment}
use speedex_parallelize.Asset.{RevertableAsset, make}
use speedex_parallelize.Account.{UserAccount}
use speedex_parallelize.Account.Commitment.{
  produce_asset, push_commitments, produce_commitment, pad, add_assets, from_commitment,
}

-- The commitments of a list of balances, numbered from `i`.
abbrev pub numbered :
    (RevertableAsset → ℕ → AssetCommitment) → ℕ → List RevertableAsset → List AssetCommitment
numbered f i [] = []
numbered f i (a ∷ rest) = f a i ∷ numbered f (i + 1) rest

get_or-append_head :
    (done : List RevertableAsset) (a : RevertableAsset) (rest : List RevertableAsset)
    → get_or (done ++ a ∷ rest) (length done) (make 0) ≡ a
get_or-append_head [] a rest = refl
get_or-append_head (x ∷ done) a rest = get_or-append_head done a rest

push_commitments_lem :
    (f : RevertableAsset → ℕ → AssetCommitment) (fuel : ℕ) (done rest : List RevertableAsset)
    (out : List AssetCommitment)
    → length rest < fuel
    → length done + length rest < 256
    → push_commitments f fuel (length done) (done ++ rest) out
      ≡ some (out ++ numbered f (length done) rest)
unfolding push_commitments
push_commitments_lem f zero done rest out h k = absurd (omega arith)
push_commitments_lem f (suc fuel) done [] out h k = ground (arith, append-nil done, append-nil out)
push_commitments_lem f (suc fuel) done (a ∷ rest) out h k =
    let n : length (done ++ a ∷ []) ≡ length done + 1 = length-append done (a ∷ []) in
    let more : ltb (length done) (length (done ++ a ∷ rest)) ≡ true =
      ground (arith, length-append done (a ∷ rest)) in
    let next : (length done + 1) % 256 ≡ length (done ++ a ∷ []) = omega (arith, n) in
    let ih =
      push_commitments_lem f fuel (done ++ a ∷ []) rest (out ++ f a (length done) ∷ [])
        (omega arith) (omega (arith, n)) in
    rw (
      more,
      get_or-append_head done a rest,
      next,
      ← append_assoc done (a ∷ []) rest,
      ih,
      n,
      append_assoc out (f a (length done) ∷ []) (numbered f (length done + 1) rest),
    )

pad-replicate :
    (fuel asset : ℕ) (owned : List RevertableAsset)
    → length owned ≡ asset
    → pad fuel asset owned ≡ owned
unfolding pad
pad-replicate zero asset owned h = refl
pad-replicate (suc fuel) asset owned h = ground arith

-- What `from_commitment` makes of a balance.
abbrev pub restored : List RevertableAsset → List RevertableAsset
restored = map (λ a. make a.committed_available)

add_assets-numbered :
    (owned rest : List RevertableAsset)
    → add_assets (numbered produce_asset (length owned) rest) owned ≡ some (owned ++ restored rest)
unfolding add_assets produce_asset
add_assets-numbered owned [] = rw (append-nil owned)
add_assets-numbered owned (a ∷ rest) =
    let m = make a.committed_available in
    let n : length (owned ++ m ∷ []) ≡ length owned + 1 = length-append owned (m ∷ []) in
    let sorted : ltb (length owned) (length owned) ≡ false = ground arith in
    let ih = add_assets-numbered (owned ++ m ∷ []) rest in
    rw (sorted, pad-replicate (length owned) (length owned) owned refl, ← n, ih)
      (rw (append_assoc owned (m ∷ []) (restored rest)) refl)

produce_commitment_lem :
    (acc : UserAccount)
    → length acc.owned_assets < 256
    → produce_commitment acc
      ≡ some (record {
        owner = acc.owner;
        assets = numbered produce_asset 0 acc.owned_assets;
        last_committed_id = acc.last_committed_id;
        pk = acc.pk;
      })
unfolding produce_commitment
produce_commitment_lem acc h = rw (
  produce_commitment,
  push_commitments_lem produce_asset 256 [] acc.owned_assets [] h (omega arith),
)

-- With fewer than 256 assets the commitment of an account is produced, and the account that is read
-- back from it has the owner, the key, the last committed number and, asset for asset, the
-- committed amounts; it has no reservation and no uncommitted asset.
pub from_commitment-produce_commitment :
    (acc : UserAccount)
    → length acc.owned_assets < 256
    → (c : AccountCommitment) × (produce_commitment acc ≡ some c)
      × (from_commitment c
          ≡ some (record acc {
            owned_assets = restored acc.owned_assets;
            uncommitted_assets = [];
            sequence_number_vec = 0;
          }))
unfolding from_commitment
from_commitment-produce_commitment acc h =
    (_, produce_commitment_lem acc h, rw (from_commitment, add_assets-numbered [] acc.owned_assets))

push_commitments-none :
    (f : RevertableAsset → ℕ → AssetCommitment) (fuel i : ℕ) (v : List RevertableAsset)
    (out : List AssetCommitment)
    → 256 ≤ length v
    → i < 256
    → push_commitments f fuel i v out ≡ none
unfolding push_commitments
push_commitments-none f zero i v out h k = refl
push_commitments-none f (suc fuel) i v out h k =
    let more : ltb i (length v) ≡ true = ground arith in
    rw more (push_commitments-none f fuel ((i + 1) % 256) v _ h (omega arith))

-- With 256 balances or more the loop does not end within any number of rounds.
pub push_commitments_diverges :
    (acc : UserAccount)
    → 256 ≤ length acc.owned_assets
    → (fuel : ℕ) → push_commitments produce_asset fuel 0 acc.owned_assets [] ≡ none
push_commitments_diverges acc h fuel =
    push_commitments-none produce_asset fuel 0 acc.owned_assets [] h (omega arith)
