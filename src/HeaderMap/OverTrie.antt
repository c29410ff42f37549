-- ===== src/HeaderMap/OverTrie.antt =====
-- The header map over the trie of implementation/src/merkle_trie.h (MerkleTrie). The model of the trie
-- has offers as values, so the value of a key is the place of its hash in a list, as the `owner` of an
-- offer that offers nothing.
use speedex_parallelize.Base.{
  ℕ, ◌+◌, ◌*◌, ◌/◌, ◌%◌, ◌^◌, ◌<◌, ◌≡◌, refl, sym, ◌∙◌, ◌≢◌, inl, inr, false, Option, none, some,
  List, [], ◌∷◌, ◌++◌, arith, Bool-cases, length, get_elem?,
}
use speedex_parallelize.Xdr.{Offer, sell}
use speedex_parallelize.HeaderMap.{HashTrie}
use speedex_parallelize.HeaderMap.Laws.{EntryLaws}
use speedex_parallelize.MerkleTrie.{Node, Entry, metadata_of, new_metadata}
use speedex_parallelize.MerkleTrie.Invariant.{entries, IsTrie}
use speedex_parallelize.MerkleTrie.Keys.{same_key, same_key_sound, find_value}
use speedex_parallelize.MerkleTrie.Totals.{AreCounted}
use speedex_parallelize.MerkleTrie.Insert.{insert_node}
use speedex_parallelize.MerkleTrie.Insert.Laws.{insert_node_lem}
use speedex_parallelize.MerkleTrie.Delete.{delete_key}
use speedex_parallelize.MerkleTrie.Delete.Laws.{delete_key_lem, length-remove, remove-AreCounted}
use speedex_parallelize.MerkleTrie.Read.{get_value}
use speedex_parallelize.MerkleTrie.Read.Values.{get_value-find_value}
use speedex_parallelize.MerkleTrie.Changes.{
  find_value-put, length-put, put-AreCounted, find_value-remove,
}

-- The 4-bit digits of a key, two for each byte.
unfoldable pub digits : List ℕ → List ℕ
digits [] = []
digits (b ∷ bytes) = b / 16 ∷ b % 16 ∷ digits bytes

length-digits : (bytes : List ℕ) → length (digits bytes) ≡ 2 * length bytes
unfolding digits
length-digits [] = refl
length-digits (b ∷ bytes) = omega (arith, length-digits bytes)

digits-injective : (j k : List ℕ) → digits j ≡ digits k → j ≡ k
unfolding digits
digits-injective [] [] e = refl
digits-injective [] (b ∷ k) e = absurd (cc)
digits-injective (a ∷ j) [] e = absurd (cc)
digits-injective (a ∷ j) (b ∷ k) e =
    let high : a / 16 ≡ b / 16 = ground arith in
    let low : a % 16 ≡ b % 16 = ground arith in
    let first : a ≡ b = omega arith in
    let rest : j ≡ k = digits-injective j k (ground arith) in rw (first, rest)

pub record HashStore : Type 0 where
  pub root : Node
  pub hashes : List (List ℕ)

abbrev place_of : ℕ → Offer
place_of place = record {
  category = record { sell_asset = 0; buy_asset = 0; type = sell };
  offer_id = 0;
  owner = place;
  amount = 0;
  min_price = 0;
}

-- An insertion that throws changes nothing here; with keys of one length there is none.
unfoldable pub insert_hash : List ℕ → List ℕ → HashStore → HashStore
insert_hash key hash t = elim (insert_node false (digits key) (place_of (length t.hashes)) t.root) [
  | none ↦ t
  | some (root', delta) ↦ record { root = root'; hashes = t.hashes ++ hash ∷ [] }
]

unfoldable pub find_hash : List ℕ → HashStore → Option (List ℕ)
find_hash key t = elim (get_value (digits key) t.root) [
  | none ↦ none
  | some o ↦ get_elem? t.hashes o.owner
]

abbrev pub over_trie : HashTrie HashStore
over_trie = record {
  insert = insert_hash;
  perform_deletion = λ key t. record t { root = (delete_key (digits key) t.root).0 };
  get_value = find_hash;
  trie_size = λ t. (metadata_of t.root).size;
}

-- A trie that has room for a key.
abbrev pub IsOpen : HashStore → Type 0
IsOpen t = IsTrie 16 t.root × AreCounted (entries t.root) × (length (entries t.root) + 1 < 2 ^ 64)

pub record HasHash (t : HashStore) (key hash : List ℕ) : Type 0 where
  is_trie : IsTrie 16 t.root
  counted : AreCounted (entries t.root)
  few : length (entries t.root) < 2 ^ 64
  whole : length key ≡ 8
  offer : Offer
  found : find_value (digits key) (entries t.root) ≡ some offer
  kept : get_elem? t.hashes offer.owner ≡ some hash

get_elem?-last : (xs : List (List ℕ)) (v : List ℕ) → get_elem? (xs ++ v ∷ []) (length xs) ≡ some v
get_elem?-last [] v = refl
get_elem?-last (x ∷ xs) v = get_elem?-last xs v

pub insert_hash-HasHash :
    (k v : List ℕ) (t : HashStore) → length k ≡ 8 → IsOpen t → HasHash (insert_hash k v t) k v
unfolding insert_hash new_metadata
insert_hash-HasHash k v t whole (is_trie, counted, few) =
    let o = place_of (length t.hashes) in
    let full : length (digits k) ≡ 16 = omega (arith, length-digits k, whole) in
    let e : Entry = record { key = digits k; metadata = new_metadata false o; value = o } in
    let (root', delta, run, w, held) =
      insert_node_lem 16 false (digits k) o t.root full (omega arith) is_trie in
    let old = entries t.root in
    rw (insert_hash, run)
      (record {
        is_trie = inr w;
        counted = rw held (put-AreCounted e old refl counted);
        few = rw held (omega (arith, length-put e old, few));
        whole = whole;
        offer = o;
        found = rw held (find_value-put e old);
        kept = get_elem?-last t.hashes v;
      })

not_same : (k j : List ℕ) → k ≢ j → same_key (digits j) (digits k) ≡ false
not_same k j ne = elim (Bool-cases (same_key (digits j) (digits k))) [
  | inr other ↦ other
  | inl same ↦
      let e : j ≡ k = digits-injective j k (same_key_sound (digits j) (digits k) same) in
      absurd (ne (sym e))
]

pub delete-HasHash :
    (k j v : List ℕ) (t : HashStore)
    → length k ≡ 8
    → k ≢ j
    → HasHash t j v
    → HasHash (record t { root = (delete_key (digits k) t.root).0 }) j v
delete-HasHash k j v t whole ne h =
    let full : length (digits k) ≡ 16 = omega (arith, length-digits k, whole) in
    let (is_trie, left, _) = delete_key_lem 16 (digits k) t.root full h.is_trie h.counted h.few in
    let old = entries t.root in
    record {
      is_trie = is_trie;
      counted = rw left (remove-AreCounted (digits k) old h.counted);
      few = rw left (let f = h.few in omega (arith, length-remove (digits k) old, f));
      whole = h.whole;
      offer = h.offer;
      found = rw left (find_value-remove (digits k) (digits j) old (not_same k j ne) ∙ h.found);
      kept = h.kept;
    }

pub find_hash-HasHash : (k v : List ℕ) (t : HashStore) → HasHash t k v → find_hash k t ≡ some v
unfolding find_hash
find_hash-HasHash k v t h =
    let full : length (digits k) ≡ 16 = let w = h.whole in omega (arith, length-digits k, w) in
    let at = get_value-find_value 16 (digits k) t.root h.offer full h.is_trie h.found in
    rw (find_hash, at) h.kept

-- The trie has the laws of entries that the header map relies on.
abbrev pub over_trie-EntryLaws : EntryLaws over_trie
over_trie-EntryLaws = record {
  HasRoom = IsOpen;
  Holds = HasHash;
  insert-Holds = insert_hash-HasHash;
  perform_deletion-Holds = delete-HasHash;
  get_value-Holds = find_hash-HasHash;
}
