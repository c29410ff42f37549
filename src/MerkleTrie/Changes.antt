-- ===== src/MerkleTrie/Changes.antt =====
-- What an insertion and a removal leave of a list of entries (MerkleTrie/Keys, MerkleTrie/Ordered).
use speedex_parallelize.Base.{
  ℕ, ◌+◌, ◌≤◌, ◌≡◌, refl, ◌∙◌, inl, inr, true, false, some, List, [], ◌∷◌, arith, Bool-cases,
  length,
}
use speedex_parallelize.MerkleTrie.{less, Entry}
use speedex_parallelize.MerkleTrie.Keys.{
  same_key, same_key_refl, same_key_sound, find_value, remove,
}
use speedex_parallelize.MerkleTrie.Ordered.{put}
use speedex_parallelize.MerkleTrie.Lookup.{same_key_sym, less-same_key}
use speedex_parallelize.MerkleTrie.Totals.{AreCounted}

pub find_value-put : (e : Entry) (es : List Entry) → find_value e.key (put e es) ≡ some e.value
find_value-put e [] = rw (same_key_refl e.key)
find_value-put e (f ∷ fs) = elim (Bool-cases (less e.key f.key)) [
  | inl lt ↦ rw (lt, same_key_refl e.key)
  | inr ge ↦ elim (Bool-cases (less f.key e.key)) [
    | inl gt ↦ rw (ge, gt, not_same gt) (find_value-put e fs)
    | inr le ↦ rw (ge, le, same_key_refl e.key)
  ]
]
  where
    not_same : less f.key e.key ≡ true → same_key e.key f.key ≡ false
    not_same gt = same_key_sym e.key f.key ∙ less-same_key f.key e.key gt

pub length-put : (e : Entry) (es : List Entry) → length (put e es) ≤ length es + 1
length-put e [] = omega arith
length-put e (f ∷ fs) = ground (arith, length-put e fs)

pub put-AreCounted :
    (e : Entry) (es : List Entry) → e.metadata.size ≡ 1 → AreCounted es → AreCounted (put e es)
put-AreCounted e [] one a = (one, tt)
put-AreCounted e (f ∷ fs) one a = ground (arith, put-AreCounted e fs one a.1)

pub find_value-remove :
    (key other : List ℕ) (es : List Entry)
    → same_key other key ≡ false
    → find_value other (remove key es) ≡ find_value other es
find_value-remove key other [] ne = refl
find_value-remove key other (e ∷ es) ne = elim (Bool-cases (same_key key e.key)) [
  | inr differs ↦ rw differs (ground (arith, find_value-remove key other es ne))
  | inl same ↦
      let at : key ≡ e.key = same_key_sound key e.key same in
      let skip : same_key other e.key ≡ false = rw (← at) ne in
      rw (same, skip) (find_value-remove key other es ne)
]
