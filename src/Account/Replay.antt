-- ===== src/Account/Replay.antt =====
-- Reservations of one sequence number, in a block and across a commit (Account/SeqNum).
use Prim.Native.Nat.{bit_or}
use speedex_parallelize.Account.Commit.{commit}
use speedex_parallelize.Base.{
  ◌%◌, List, [], ◌∷◌, ℕ, ◌+◌, ◌-◌, ◌*◌, ◌/◌, ◌^◌, ◌≤◌, ◌<◌, ◌≡◌, arith, ◌==◌, if◌then◌else◌, IsWord,
}
use speedex_parallelize.Base.Bits.{
  bit_length-of_zero, bit_length, bit_length-le, bit_at-lt-bit_length, bit_at-bit_or, bit_or-lt,
  bit_at, bit_and_test,
}
use speedex_parallelize.Xdr.{seq_num_too_low, success, seq_num_temp_in_use}
use speedex_parallelize.Account.{UserAccount}
use speedex_parallelize.Account.SeqNum.{
  get_seq_num_increment, get_seq_num_offset, reserve_sequence_number,
}

-- The two words of the account, and no sum of them near the end of the range.
pub record SeqNumsFit (acc : UserAccount) : Type 0 where
  pub vec_word : IsWord acc.sequence_number_vec
  pub last_fits : acc.last_committed_id + 65 * 256 ≤ 2 ^ 64

-- A sequence number that is one of the next 64 of the account.
pub record InWindow (last sequence_number : ℕ) : Type 0 where
  pub above : last + 256 ≤ sequence_number
  pub below : sequence_number < last + 65 * 256

-- The bit that stands for a number.
abbrev pub offset_of : ℕ → ℕ → ℕ
offset_of last sequence_number = (sequence_number - last) / 256 - 1

pub offset-InWindow :
    (last s : ℕ)
    → last + 65 * 256 ≤ 2 ^ 64
    → InWindow last s
    → (get_seq_num_offset s last ≡ offset_of last s) × (offset_of last s < 64)
unfolding get_seq_num_offset
offset-InWindow last s fits w = omega arith

pub reserve_cases :
    (acc : UserAccount) (s : ℕ)
    → SeqNumsFit acc
    → InWindow acc.last_committed_id s
    → ((reserve_sequence_number acc s).0 ≡ record acc {
      sequence_number_vec = bit_or acc.sequence_number_vec (2 ^ offset_of acc.last_committed_id s);
    })
      × ((reserve_sequence_number acc s).1 ≡ (
          if bit_at (offset_of acc.last_committed_id s) acc.sequence_number_vec == 0
          then success
          else seq_num_temp_in_use))
unfolding reserve_sequence_number
reserve_cases acc s fit w =
    let (e, lt) = offset-InWindow acc.last_committed_id s fit.last_fits w in
    rw e (ground (arith, bit_and_test (offset_of acc.last_committed_id s) acc.sequence_number_vec))

reserve_low :
    (acc : UserAccount) (s : ℕ)
    → s ≤ acc.last_committed_id
    → (reserve_sequence_number acc s).1 ≡ seq_num_too_low
unfolding reserve_sequence_number
reserve_low acc s h = ground arith

-- What a commit adds to the last committed number.
pub commit-last :
    (acc : UserAccount)
    → SeqNumsFit acc
    → (commit acc).last_committed_id
      ≡ acc.last_committed_id + bit_length 64 acc.sequence_number_vec * 256
unfolding commit get_seq_num_increment
commit-last acc fit =
    ground (arith, bit_length-le 64 acc.sequence_number_vec, bit_length-of_zero 64)

pub reserve-last :
    (acc : UserAccount) (s : ℕ)
    → (reserve_sequence_number acc s).0.last_committed_id ≡ acc.last_committed_id
unfolding reserve_sequence_number
reserve-last acc s = ground arith

-- Any call of reserve keeps the words in range.
pub reserve-SeqNumsFit :
    (acc : UserAccount) (s : ℕ) → SeqNumsFit acc → SeqNumsFit (reserve_sequence_number acc s).0
unfolding reserve_sequence_number
reserve-SeqNumsFit acc s fit =
    ground
      (arith, bit_or-lt 64 (get_seq_num_offset s acc.last_committed_id) acc.sequence_number_vec)

-- Any call of reserve keeps the bits that are set.
reserve_keeps :
    (acc : UserAccount) (s k : ℕ)
    → bit_at k acc.sequence_number_vec ≡ 1
    → bit_at k (reserve_sequence_number acc s).0.sequence_number_vec ≡ 1
unfolding reserve_sequence_number
reserve_keeps acc s k e =
    ground
      (arith, bit_at-bit_or (get_seq_num_offset s acc.last_committed_id) k acc.sequence_number_vec)

-- Reservations one after the other.
abbrev pub reserve_all : UserAccount → List ℕ → UserAccount
reserve_all acc [] = acc
reserve_all acc (s ∷ ss) = reserve_all (reserve_sequence_number acc s).0 ss

-- What holds of an account on which number `s` of the window at `last` has been reserved.
record Holds (last s : ℕ) (acc : UserAccount) : Type 0 where
  fit : SeqNumsFit acc
  same_last : acc.last_committed_id ≡ last
  taken : bit_at (offset_of last s) acc.sequence_number_vec ≡ 1

reserve_all-Holds :
    (last s : ℕ) (acc : UserAccount) (ss : List ℕ)
    → Holds last s acc
    → Holds last s (reserve_all acc ss)
reserve_all-Holds last s acc [] h = h
reserve_all-Holds last s acc (x ∷ ss) h =
    reserve_all-Holds last s (reserve_sequence_number acc x).0 ss (record {
      fit = reserve-SeqNumsFit acc x h.fit;
      same_last = rw (reserve-last acc x) h.same_last;
      taken = reserve_keeps acc x (offset_of last s) h.taken;
    })

reserve-Holds :
    (acc : UserAccount) (s : ℕ)
    → SeqNumsFit acc
    → InWindow acc.last_committed_id s
    → Holds acc.last_committed_id s (reserve_sequence_number acc s).0
reserve-Holds acc s fit w = record {
  fit = reserve-SeqNumsFit acc s fit;
  same_last = reserve-last acc s;
  taken = rw ((reserve_cases acc s fit w).0) (
      ground (
        arith,
        bit_at-bit_or (offset_of acc.last_committed_id s) (offset_of acc.last_committed_id s)
            acc.sequence_number_vec,
      ));
}

module _ (acc : UserAccount) (s : ℕ) (others : List ℕ) (fit : SeqNumsFit acc)
    (w : InWindow acc.last_committed_id s) where
  held : Holds acc.last_committed_id s (reserve_all (reserve_sequence_number acc s).0 others)
  held = reserve_all-Holds acc.last_committed_id s _ others (reserve-Holds acc s fit w)

  -- Take an account whose words are in range, and a sequence number that is one of its next 64.
  -- Reserving the number succeeds if its bit is clear and is refused as in use otherwise. After
  -- that, and whatever other numbers are reserved, reserving it again is refused as in use.
  pub reserve_once :
      ((reserve_sequence_number acc s).1 ≡ (
        if bit_at (offset_of acc.last_committed_id s) acc.sequence_number_vec == 0
        then success
        else seq_num_temp_in_use))
      × ((reserve_sequence_number (reserve_all (reserve_sequence_number acc s).0 others) s).1
          ≡ seq_num_temp_in_use)
  reserve_once =
      let h = held in
      let after = reserve_all (reserve_sequence_number acc s).0 others in
      let (_, e) = reserve_cases after s h.fit (rw h.same_last w) in
      ((reserve_cases acc s fit w).1, rw (e, h.same_last, h.taken))

  -- Take an account whose words are in range, a sequence number that is one of its next 64, and
  -- both this number and the last committed one multiples of 256. After the number has been
  -- reserved, others after it, and the account committed, reserving the number again is refused
  -- as too low.
  pub reserve-commit_too_low :
      acc.last_committed_id % 256 ≡ 0
      → s % 256 ≡ 0
      → (reserve_sequence_number
          (commit (reserve_all (reserve_sequence_number acc s).0 others))
          s).1
        ≡ seq_num_too_low
  reserve-commit_too_low p q =
      let h = held in
      let after = reserve_all (reserve_sequence_number acc s).0 others in
      reserve_low (commit after) s (
        omega (
          arith,
          commit-last after h.fit,
          h.same_last,
          bit_at-lt-bit_length 64 (offset_of acc.last_committed_id s) after.sequence_number_vec
              h.fit.vec_word h.taken,
        ))
