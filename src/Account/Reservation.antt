-- ===== src/Account/Reservation.antt =====
-- Release, commit, and numbers beyond the window (Account/SeqNum).
use Prim.Native.Nat.{bit_or}
use speedex_parallelize.Base.{ℕ, suc, ◌+◌, ◌-◌, ◌*◌, ◌^◌, ◌≤◌, ◌<◌, ◌≡◌, some, arith, set, IsWord}
use speedex_parallelize.Base.{bit_and}
use speedex_parallelize.Base.Bits.{
  bit_and-le, bit_at_top, bit_at-bit_and_clear, bit_length, bit_length-le, bit_at-lt-bit_length,
  bit_at-bit_or, bit_or-lt, bit_at, bit_and_test,
}
use speedex_parallelize.Xdr.{success}
use speedex_parallelize.Account.SeqNum.{
  release_sequence_number, get_seq_num_offset, reserve_sequence_number,
}
use speedex_parallelize.Account.{UserAccount}
use speedex_parallelize.Account.Commit.{commit}
use speedex_parallelize.Account.Replay.{
  SeqNumsFit, InWindow, offset_of, offset-InWindow, reserve_cases, reserve-last, reserve-SeqNumsFit,
  commit-last,
}

release_cases :
    (acc : UserAccount) (s : ℕ)
    → SeqNumsFit acc
    → InWindow acc.last_committed_id s
    → release_sequence_number acc s
      ≡ some (record acc {
        sequence_number_vec =
            bit_and acc.sequence_number_vec (2 ^ 64 - 1 - 2 ^ offset_of acc.last_committed_id s);
      })
unfolding release_sequence_number
release_cases acc s fit w =
    let (e, lt) = offset-InWindow acc.last_committed_id s fit.last_fits w in rw e (ground arith)

-- Take an account whose words are in range, and a sequence number, one of its next 64, whose
-- reservation succeeds. Then the release that follows returns, every bit is as before the
-- reservation, and the number can be reserved again with success.
pub release-reserve :
    (acc : UserAccount) (s : ℕ)
    → SeqNumsFit acc
    → InWindow acc.last_committed_id s
    → (reserve_sequence_number acc s).1 ≡ success
    → (acc' : UserAccount) × (release_sequence_number (reserve_sequence_number acc s).0 s
        ≡ some acc')
      × ((k : ℕ) → bit_at k acc'.sequence_number_vec ≡ bit_at k acc.sequence_number_vec)
      × ((reserve_sequence_number acc' s).1 ≡ success)
release-reserve acc s fit w ok =
    let (e, st) = reserve_cases acc s fit w in
    let o = offset_of acc.last_committed_id s in
    let lt : o < 64 = omega (arith, w.below, w.above) in
    let v = acc.sequence_number_vec in
    let fit' : SeqNumsFit (reserve_sequence_number acc s).0 = reserve-SeqNumsFit acc s fit in
    let word : bit_or v (2 ^ o) < 2 ^ 64 = bit_or-lt 64 o v lt fit.vec_word in
    let free : bit_at o v ≡ 0 = ground arith in
    let reserved : UserAccount = record acc { sequence_number_vec = bit_or v (2 ^ o) } in
    let freed : ℕ = bit_and (bit_or v (2 ^ o)) (2 ^ 64 - 1 - 2 ^ o) in
    let acc' : UserAccount = record acc { sequence_number_vec = freed } in
    let same : (k : ℕ) → bit_at k freed ≡ bit_at k v =
      λ k. ground (arith, bit_at-bit_and_clear 64 o k (bit_or v (2 ^ o)), bit_at-bit_or o k v) in
    let fit'' : SeqNumsFit acc' = record {
      vec_word = omega (
        arith,
        bit_and-le (bit_or v (2 ^ o)) (bit_or v (2 ^ o)) (2 ^ 64 - 1 - 2 ^ o) (omega arith),
      );
      last_fits = fit.last_fits;
    } in
    (
      acc',
      rw e (release_cases reserved s (record { vec_word = word; last_fits = fit.last_fits }) w),
      same,
      (let (_, st') = reserve_cases acc' s fit'' w in rw (st', same o, free)),
    )

-- Take an account whose words are in range, and the highest bit k of its vector that is set. The
-- commit adds 256 to the last committed number for this bit and for each bit below it.
pub commit_highest :
    (acc : UserAccount) (k : ℕ)
    → SeqNumsFit acc
    → bit_at k acc.sequence_number_vec ≡ 1
    → ((j : ℕ) → k < j → bit_at j acc.sequence_number_vec ≡ 0)
    → (commit acc).last_committed_id ≡ acc.last_committed_id + (k + 1) * 256
commit_highest acc k fit set clear = rw (commit-last acc fit) (omega (arith, exact))
  where
    above : k < bit_length 64 acc.sequence_number_vec
    above = bit_at-lt-bit_length 64 k acc.sequence_number_vec fit.vec_word set

    not_above : (l : ℕ) → bit_length 64 acc.sequence_number_vec ≡ suc l → l ≤ k
    not_above l e = ground (arith, clear l, bit_at_top 64 acc.sequence_number_vec l fit.vec_word e)

    exact : bit_length 64 acc.sequence_number_vec ≡ k + 1
    exact =
        omega (
          arith,
          above,
          not_above (bit_length 64 acc.sequence_number_vec - 1) (omega (arith, above)),
        )

offset_too_far :
    (last s j : ℕ)
    → last + 65 * 256 ≤ 2 ^ 64
    → InWindow last s
    → s + 65536 * j < 2 ^ 64
    → get_seq_num_offset (s + 65536 * j) last ≡ offset_of last s
unfolding get_seq_num_offset
offset_too_far last s j fits w word = omega arith

-- Take an account whose words are in range, a number that is one of its next 64 and whose bit is
-- clear, and a second number that lies a positive multiple of 65536 above the first. Then
-- reserving the second number succeeds, though it is far above the window, and the commit that
-- follows leaves the last committed number below it.
pub reserve_too_far :
    (acc : UserAccount) (s j : ℕ)
    → SeqNumsFit acc
    → InWindow acc.last_committed_id s
    → 1 ≤ j
    → IsWord (s + 65536 * j)
    → bit_at (offset_of acc.last_committed_id s) acc.sequence_number_vec ≡ 0
    → ((reserve_sequence_number acc (s + 65536 * j)).1 ≡ success)
      × ((commit (reserve_sequence_number acc (s + 65536 * j)).0).last_committed_id < s + 65536 * j)
reserve_too_far acc s j fit w pos word clear = (
  accepted,
  omega (
    arith,
    commit-last _ (reserve-SeqNumsFit acc (s + 65536 * j) fit),
    reserve-last acc (s + 65536 * j),
    bit_length-le 64 (reserve_sequence_number acc (s + 65536 * j)).0.sequence_number_vec,
  ),
)
  where
    accepted : (reserve_sequence_number acc (s + 65536 * j)).1 ≡ success
    accepted =
        unfold reserve_sequence_number in
        rw (offset_too_far acc.last_committed_id s j fit.last_fits w word)
          (ground (arith, bit_and_test (offset_of acc.last_committed_id s) acc.sequence_number_vec))
