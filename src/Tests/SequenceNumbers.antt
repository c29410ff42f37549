-- ===== src/Tests/SequenceNumbers.antt =====
-- Sequence numbers and the commitment of a concrete account.
use speedex_parallelize.Base.{
  ℕ, ◌+◌, ◌*◌, ◌<◌, ◌≡◌, refl, List, [], ◌∷◌, arith, some, none, zero, suc,
}
use speedex_parallelize.Base.Bits.{bit_at}
use speedex_parallelize.Xdr.{success, seq_num_temp_in_use, seq_num_too_low, AccountCommitment}
use speedex_parallelize.Asset.{RevertableAsset, make}
use speedex_parallelize.Account.{UserAccount}
use speedex_parallelize.Account.SeqNum.{reserve_sequence_number, release_sequence_number}
use speedex_parallelize.Account.Commit.{commit}
use speedex_parallelize.Account.Replay.{
  SeqNumsFit, InWindow, reserve_all, reserve_once, reserve-commit_too_low,
}
use speedex_parallelize.Account.Reservation.{release-reserve, commit_highest, reserve_too_far}
use speedex_parallelize.Account.Commitment.{
  produce_commitment, from_commitment, push_commitments, produce_asset,
}
use speedex_parallelize.Account.Commitment.RoundTrip.{
  from_commitment-produce_commitment, push_commitments_diverges,
}

-- An account that holds 100 of asset 0 and 7 of asset 2, and has committed number 256.
abbrev alice : UserAccount
alice = record {
  owned_assets = make 100 ∷ make 0 ∷ make 7 ∷ [];
  uncommitted_assets = [];
  sequence_number_vec = 0;
  last_committed_id = 256;
  owner = 7;
  pk = 1 ∷ 2 ∷ [];
}

-- The same with the numbers 512 and 1024 reserved.
abbrev busy_alice : UserAccount
busy_alice = record alice { sequence_number_vec = 5 }

alice_fits : SeqNumsFit alice
alice_fits = record { vec_word = omega arith; last_fits = omega arith }

busy_alice_fits : SeqNumsFit busy_alice
busy_alice_fits = record { vec_word = omega arith; last_fits = omega arith }

window_512 : InWindow 256 512
window_512 = record { above = omega arith; below = omega arith }

reserve_once_example :
    ((reserve_sequence_number alice 512).1 ≡ success)
    × ((reserve_sequence_number
          (reserve_all (reserve_sequence_number alice 512).0 (768 ∷ 512 ∷ []))
          512).1
        ≡ seq_num_temp_in_use)
unfolding bit_at
reserve_once_example = reserve_once alice 512 (768 ∷ 512 ∷ []) alice_fits window_512

reserve-commit_too_low_example :
    (reserve_sequence_number
      (commit (reserve_all (reserve_sequence_number alice 512).0 (768 ∷ [])))
      512).1
    ≡ seq_num_too_low
reserve-commit_too_low_example =
    reserve-commit_too_low alice 512 (768 ∷ []) alice_fits window_512 refl refl

reserves_512 : (reserve_sequence_number alice 512).1 ≡ success
reserves_512 = reserve_once_example.0

release-reserve_example :
    (acc' : UserAccount) × (release_sequence_number (reserve_sequence_number alice 512).0 512
      ≡ some acc')
    × ((k : ℕ) → bit_at k acc'.sequence_number_vec ≡ bit_at k 0)
    × ((reserve_sequence_number acc' 512).1 ≡ success)
release-reserve_example = release-reserve alice 512 alice_fits window_512 reserves_512

bits_of_0 : (k : ℕ) → bit_at k 0 ≡ 0
unfolding bit_at
bits_of_0 zero = refl
bits_of_0 (suc k) = bits_of_0 k

bits_above_2 : (j : ℕ) → 2 < j → bit_at j 5 ≡ 0
unfolding bit_at
bits_above_2 zero h = absurd (omega arith)
bits_above_2 (suc zero) h = absurd (omega arith)
bits_above_2 (suc (suc zero)) h = absurd (omega arith)
bits_above_2 (suc (suc (suc k))) h = bits_of_0 k

busy_bit : bit_at 2 5 ≡ 1
unfolding bit_at
busy_bit = refl

commit_highest_example : (commit busy_alice).last_committed_id ≡ 1024
commit_highest_example = commit_highest busy_alice 2 busy_alice_fits busy_bit bits_above_2

free_bit : bit_at 0 0 ≡ 0
unfolding bit_at
free_bit = refl

reserve_too_far_example :
    ((reserve_sequence_number alice (512 + 65536 * 1)).1 ≡ success)
    × ((commit (reserve_sequence_number alice (512 + 65536 * 1)).0).last_committed_id
        < 512 + 65536 * 1)
reserve_too_far_example =
    reserve_too_far alice 512 1 alice_fits window_512 (omega arith) (omega arith) free_bit

from_commitment-produce_commitment_example :
    (c : AccountCommitment) × (produce_commitment alice ≡ some c) × (from_commitment c ≡ some alice)
unfolding make
from_commitment-produce_commitment_example = from_commitment-produce_commitment alice (omega arith)

abbrev many : ℕ → List RevertableAsset
many zero = []
many (suc n) = make 1 ∷ many n

-- An account with 256 assets.
abbrev crowded : UserAccount
crowded = record alice { owned_assets = many 256 }

push_commitments_diverges_example :
    push_commitments produce_asset 1000 0 crowded.owned_assets [] ≡ none
push_commitments_diverges_example = push_commitments_diverges crowded (omega arith) 1000
