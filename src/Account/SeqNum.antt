-- ===== src/Account/SeqNum.antt =====
-- The sequence numbers of an account: a transaction reserves one, which sets a bit of
-- `sequence_number_vec`; bit `k` stands for the number `last_committed_id + (k + 1) * 256`, and a
-- commit moves `last_committed_id` up to the highest bit.
use Prim.Native.Nat.{bit_and, bit_or}
use speedex_parallelize.Base.{
  ℕ, ◌-◌, ◌*◌, ◌/◌, ◌%◌, ◌^◌, Option, none, some, ◌==◌, leb, if◌then◌else◌, sub64,
}
use speedex_parallelize.Base.Bits.{bit_length}
use speedex_parallelize.Xdr.{
  TransactionProcessingStatus, success, seq_num_too_low, seq_num_too_high, seq_num_temp_in_use,
  max_ops_per_tx,
}
use speedex_parallelize.Account.{UserAccount}

-- The result is a `uint8_t`: the quotient, less one modulo 2 ^ 64, is cut to 8 bits.
unfoldable pub get_seq_num_offset : ℕ → ℕ → ℕ
get_seq_num_offset sequence_number last_committed_id =
    sub64 (sub64 sequence_number last_committed_id / max_ops_per_tx) 1 % 2 ^ 8

-- `64 - __builtin_clzll(bv)` is the number of binary digits of `bv`.
unfoldable pub get_seq_num_increment : ℕ → ℕ
get_seq_num_increment bv = if bv == 0 then 0 else bit_length 64 bv * max_ops_per_tx

unfoldable pub reserve_sequence_number : UserAccount → ℕ → UserAccount × TransactionProcessingStatus
reserve_sequence_number acc sequence_number =
    let offset = get_seq_num_offset sequence_number acc.last_committed_id in
    let bit_mask = 2 ^ offset in
    let prev = acc.sequence_number_vec in
    let fetched = record acc { sequence_number_vec = bit_or prev bit_mask } in
    if leb sequence_number acc.last_committed_id
    then (acc, seq_num_too_low)
    else if leb 64 offset
    then (acc, seq_num_too_high)
    else if bit_and prev bit_mask == 0
    then (fetched, success)
    else (fetched, seq_num_temp_in_use)

-- `none` is an exception.
unfoldable pub release_sequence_number : UserAccount → ℕ → Option UserAccount
release_sequence_number acc sequence_number =
    let offset = get_seq_num_offset sequence_number acc.last_committed_id in
    let bit_mask = 2 ^ 64 - 1 - 2 ^ offset in
    if leb sequence_number acc.last_committed_id
    then none
    else if leb 64 offset
    then none
    else some (record acc { sequence_number_vec = bit_and acc.sequence_number_vec bit_mask })

-- The body of the source is commented out.
unfoldable pub commit_sequence_number : UserAccount → ℕ → UserAccount
commit_sequence_number acc sequence_number = acc
