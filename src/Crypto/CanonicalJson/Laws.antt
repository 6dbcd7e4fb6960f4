-- ===== src/Crypto/CanonicalJson/Laws.antt =====
-- The spelling of a value does not depend on the order in which its objects hold their keys.
use mathlib.Core.List.{Permᴰ}
use kommunsign.Prelude.{ℕ, ◌≡◌, refl, ap, List, [], ◌∷◌, ◌++◌, map, Distinct, Result, ok, ◌>>=◌}
use kommunsign.Prelude.Text.{codes_le}
use kommunsign.Prelude.TextOrder.{codes_eq, codes_le_trans, codes_le-total, codes_le-antisym}
use kommunsign.Prelude.Sort.{sort}
use kommunsign.Prelude.Ordered
use kommunsign.Crypto.CanonicalJson.{
  CanonicalJsonValue, array, object, Items, nil, cons, Fields, end, field, JsonError, Entry,
  entry_le, collect_entries, join_commas, is_undefined, encode, encode_items, entries_of,
  canonical_json,
}

abbrev pub keys_of : Fields → List (List ℕ)
keys_of end = []
keys_of (field key value fields) = key ∷ keys_of fields

-- The same values, with the keys of each object in any order.
mutual
  pub data SameJson : CanonicalJsonValue → CanonicalJsonValue → Type 0 where
    itself : (v : CanonicalJsonValue) → SameJson v v
    in_array : {xs ys : Items} → SameItems xs ys → SameJson (array xs) (array ys)
    in_object :
        {fs gs : Fields}
        → Distinct (keys_of fs)
        → SameFields fs gs
        → SameJson (object fs) (object gs)

  pub data SameItems : Items → Items → Type 0 where
    no_item : SameItems nil nil
    an_item :
        {a b : CanonicalJsonValue} {xs ys : Items}
        → SameJson a b
        → SameItems xs ys
        → SameItems (cons a xs) (cons b ys)

  pub data SameFields : Fields → Fields → Type 0 where
    no_field : SameFields end end
    a_field :
        (key : List ℕ) {a b : CanonicalJsonValue} {fs gs : Fields}
        → SameJson a b
        → SameFields fs gs
        → SameFields (field key a fs) (field key b gs)
    exchanged :
        (j k : List ℕ) (a b : CanonicalJsonValue) (fs : Fields)
        → SameFields (field j a (field k b fs)) (field k b (field j a fs))
    followed : {fs gs hs : Fields} → SameFields fs gs → SameFields gs hs → SameFields fs hs

same_undefined : {a b : CanonicalJsonValue} → SameJson a b → is_undefined a ≡ is_undefined b
same_undefined (itself v) = refl
same_undefined (in_array s) = refl
same_undefined (in_object d s) = refl

keys_along : (fs : Fields) → map (λ (e : Entry). e.key) (entries_of fs) ≡ keys_of fs
unfolding entries_of
keys_along end = refl
keys_along (field key value fields) = ap (λ l. key ∷ l) (keys_along fields)

-- Entries in another order give the same object.
collected_alike :
    {xs ys : List Entry}
    → Permᴰ xs ys
    → Distinct (map (λ (e : Entry). e.key) xs)
    → sort entry_le xs ≡ sort entry_le ys
collected_alike p d =
    Ordered.sort_of_Perm codes_le codes_le_trans codes_le-total codes_le-antisym
      (λ (e : Entry). e.key) p d

mutual
  unfolding encode encode_items entries_of

  encode-Same : {a b : CanonicalJsonValue} → SameJson a b → encode a ≡ encode b
  encode-Same (itself v) = refl
  encode-Same (in_array s) =
      ap
        (λ (r : Result JsonError (List (List ℕ))).
          r >>= λ parts. ok (b'[' ∷ (join_commas parts ++ b']' ∷ [])))
        (encode_items-Same s)
  encode-Same (in_object {fs = fs} d s) =
      let sorted = collected_alike (entries_of-Perm s) (rw (keys_along fs) d) in
      ap
        (λ (es : List Entry).
          collect_entries es >>= λ parts. ok (b'{' ∷ (join_commas parts ++ b'}' ∷ [])))
        sorted

  encode_items-Same : {xs ys : Items} → SameItems xs ys → encode_items xs ≡ encode_items ys
  encode_items-Same no_item = refl
  encode_items-Same (an_item h s) = rw (encode-Same h, encode_items-Same s) refl

  entries_of-Perm : {fs gs : Fields} → SameFields fs gs → Permᴰ (entries_of fs) (entries_of gs)
  entries_of-Perm no_field = Permᴰ.nil
  entries_of-Perm (a_field key h s) =
      Permᴰ.cons (rw (same_undefined h, encode-Same h) refl) (entries_of-Perm s)
  entries_of-Perm (exchanged j k a b fs) = Permᴰ.swap refl refl
  entries_of-Perm (followed p q) = Permᴰ.trans (entries_of-Perm p) (entries_of-Perm q)

-- Values that differ only in the order of their keys, each object with no key twice, have the same
-- canonical text, or fail with the same error.
pub canonical_json-Same :
    {a b : CanonicalJsonValue} → SameJson a b → canonical_json a ≡ canonical_json b
unfolding canonical_json
canonical_json-Same s = encode-Same s
