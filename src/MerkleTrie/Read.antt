-- ===== src/MerkleTrie/Read.antt =====
-- The queries of a trie (implementation/src/merkle_trie.h).
pub mod Laws
pub mod Amounts
pub mod Values
use speedex_parallelize.Base.{
  ℕ, zero, ◌>>=◌, suc, ◌+◌, ◌-◌, ◌*◌, ◌/◌, ◌%◌, ◌^◌, ◌≤◌, ◌<◌, ◌≡◌, refl, sym, ap, ◌∙◌, ◌≢◌, ◌↔◌,
  ◌⊎◌, inl, inr, Bool, true, false, ◌&&◌, ◌||◌, not, Option, none, some, List, [], ◌∷◌, ◌++◌, map,
  arith, ltb, leb, ◌==◌, if◌then◌else◌, Bool-cases, Option-cases, length, get_elem?, set, get_or,
  take, drop, replicate, length-append, length-set, length-map, length-replicate, u64, add64, sub64,
  neg64, is_negative, IsWord, IsNonneg, get_or-set, get_or-append-replicate, get_or-append_right,
  get_or-append_left, set-append_right, set-append_left,
}
use speedex_parallelize.MerkleTrie.{
  Metadata, no_metadata, add, negate, match_len, less, Node, leaf, branch, Children, no_more, child,
  make_empty_node, metadata_of, prefix_of, is_empty, contract, Entry, count,
}
use speedex_parallelize.Xdr.{Offer}

-- `truncate_prefix` clears the digits of the key behind the prefix, which the comparison of the two then
-- does not read.
unfoldable mutual
  unfolding match_len

  pub contains_key : List ℕ → Node → Bool
  contains_key key (leaf p m v) = match_len p key == length p
  contains_key key (branch p m cs) =
      if match_len p key == length p
      then elim (get_elem? key (length p)) [ none ↦ false | some b ↦ contains_below b key cs ]
      else false

  pub contains_below : ℕ → List ℕ → Children → Bool
  contains_below b key no_more = false
  contains_below b key (child c n cs) =
      let here = contains_key key n in
      let rest = contains_below b key cs in if b == c then here else rest

-- The prefixes on the way are not compared with the key.
unfoldable mutual
  pub get_value : List ℕ → Node → Option Offer
  get_value key (leaf p m v) = some v
  get_value key (branch p m cs) = elim (get_elem? key (length p)) [
    | none ↦ none
    | some b ↦ get_value_below b key cs
  ]

  pub get_value_below : ℕ → List ℕ → Children → Option Offer
  get_value_below b key no_more = none
  get_value_below b key (child c n cs) =
      let here = get_value key n in
      let rest = get_value_below b key cs in if b == c then here else rest

unfoldable mutual
  pub get_lowest_key : Node → Option (List ℕ)
  get_lowest_key (leaf p m v) = some p
  get_lowest_key (branch p m cs) = lowest_below cs

  pub lowest_below : Children → Option (List ℕ)
  lowest_below no_more = none
  lowest_below (child c n cs) = get_lowest_key n

-- `accumulate_values` and `accumulate_keys`.
unfoldable mutual
  pub accumulate_values : Node → List Offer
  accumulate_values (leaf p m v) = v ∷ []
  accumulate_values (branch p m cs) = values_below cs

  pub values_below : Children → List Offer
  values_below no_more = []
  values_below (child c n cs) = accumulate_values n ++ values_below cs

unfoldable mutual
  pub accumulate_keys : Node → List (List ℕ)
  accumulate_keys (leaf p m v) = p ∷ []
  accumulate_keys (branch p m cs) = keys_below cs

  pub keys_below : Children → List (List ℕ)
  keys_below no_more = []
  keys_below (child c n cs) = accumulate_keys n ++ keys_below cs

-- The sum is one of `unsigned int`.
unfoldable mutual
  pub uncached_size : Node → ℕ
  uncached_size (leaf p m v) = 1
  uncached_size (branch p m cs) = size_below cs

  pub size_below : Children → ℕ
  size_below no_more = 0
  size_below (child c n cs) = (uncached_size n + size_below cs) % 2 ^ 32

-- The sum of the amounts at the keys below `max_key`.
unfoldable mutual
  unfolding less

  pub endow_lt_key : List ℕ → Node → ℕ
  endow_lt_key max_key (leaf p m v) = if less p max_key then m.endow else 0
  endow_lt_key max_key (branch p m cs) =
      let max_key_truncated = take (length p) max_key in
      if less p max_key_truncated
      then m.endow
      else if less max_key_truncated p
      then 0
      else elim (get_elem? max_key (length p)) [
        | none ↦ 0
        | some max_branch_bits ↦ endow_below max_branch_bits max_key cs
      ]

  pub endow_below : ℕ → List ℕ → Children → ℕ
  endow_below max_branch_bits max_key no_more = 0
  endow_below max_branch_bits max_key (child c n cs) =
      let here = endow_lt_key max_key n in
      let rest = endow_below max_branch_bits max_key cs in
      if c == max_branch_bits
      then (here + rest) % 2 ^ 64
      else if ltb c max_branch_bits
      then ((metadata_of n).endow + rest) % 2 ^ 64
      else rest
