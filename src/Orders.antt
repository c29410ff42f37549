-- ===== src/Orders.antt =====
-- implementation/src/merkle_work_unit.h, merkle_work_unit.cc, merkle_work_unit_thunk.h: one order
-- book, with the offers of one ordered pair of assets. Its tries are used through the interface of
-- Trie; what it reads from and writes to disk is not modelled, but for the number of the round that
-- is on disk, which is an argument. The mutex round the thunks is not modelled: each call is one step.
pub mod Commit
pub mod Index
pub mod Smooth
pub mod Demand
pub mod Clear
pub mod Manager
pub mod Serial
use speedex_parallelize.Base.{ℕ, List, [], ◌++◌}
use speedex_parallelize.Xdr.{Offer, OfferCategory}
use speedex_parallelize.Price.BigEndian.{write_price_big_endian, write_unsigned_big_endian}

-- What a thunk knows of the offer that its block cleared in part. The source leaves the members unset
-- until the offers are cleared.
pub data PartialExec : Type 0 where
  unset no_partial_exec : PartialExec
  partial_exec : List ℕ → ℕ → Offer → PartialExec

pub record WorkUnitThunk {ℓ} (T : Type ℓ) : Type ℓ where
  pub partial : PartialExec
  pub uncommitted_offers_vec : List Offer
  pub cleared_offers : T
  pub deleted_keys : List (List ℕ × Offer)
  pub current_block_number : ℕ

unfoldable pub new_thunk {ℓ} : {T : Type ℓ} → T → ℕ → WorkUnitThunk T
new_thunk empty current_block_number = record {
  partial = unset;
  uncommitted_offers_vec = [];
  cleared_offers = empty;
  deleted_keys = [];
  current_block_number = current_block_number;
}

-- `EndowAccumulator`: an `int64` and an `int128`.
pub record EndowAccumulator : Type 0 where
  pub endow : ℕ
  pub endow_times_price : ℕ

-- `IndexedMetadata`.
pub record IndexedMetadata : Type 0 where
  pub key : ℕ
  pub metadata : EndowAccumulator

-- `thunks` has the oldest one first.
pub record MerkleWorkUnit {ℓ} (T : Type ℓ) : Type ℓ where
  pub category : OfferCategory
  pub committed_offers : T
  pub uncommitted_offers : T
  pub thunks : List (WorkUnitThunk T)
  pub indexed_metadata : List IndexedMetadata

unfoldable pub new {ℓ} : {T : Type ℓ} → T → OfferCategory → MerkleWorkUnit T
new empty category = record {
  category = category;
  committed_offers = empty;
  uncommitted_offers = empty;
  thunks = [];
  indexed_metadata = [];
}

unfoldable pub clear_ {ℓ} : {T : Type ℓ} → T → MerkleWorkUnit T → MerkleWorkUnit T
clear_ empty w = record w {
  committed_offers = empty;
  uncommitted_offers = empty;
  thunks = [];
  indexed_metadata = [];
}

-- `generate_key(minPrice, owner, offer_id, buf)`.
unfoldable pub generate_key : ℕ → ℕ → ℕ → List ℕ
generate_key min_price owner offer_id =
    write_price_big_endian min_price
    ++ write_unsigned_big_endian 8 owner
    ++ write_unsigned_big_endian 8 offer_id

unfoldable pub offer_key : Offer → List ℕ
unfolding generate_key
offer_key offer = generate_key offer.min_price offer.owner offer.offer_id
