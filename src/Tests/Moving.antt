-- ===== src/Tests/Moving.antt =====
-- Uses of the theorems on endpoints.
use stoatpp.Prelude.{◌≡◌, refl, ap, true, some, List, [], ◌∷◌}
use stoatpp.Text.{Text, lit}
use stoatpp.Rest.MoveChannel.{moved}
use stoatpp.Rest.MoveChannel.Counts.{ArrayLaws, total}
use stoatpp.Rest.MoveChannel.Once.{moved-once}
use stoatpp.Tests.Sample.{
  Value, items_of, list_of, null, flag, number, string, array, object, empty, entry, sample_json,
}
use stoatpp.Tests.Storing.{sample_laws}

list_of-items_of : (vs : List Value) → list_of (items_of vs) ≡ vs
list_of-items_of [] = refl
list_of-items_of (v ∷ vs) = ap (λ ws. v ∷ ws) (list_of-items_of vs)

contains-object :
    (v : Value) (k : Text) → sample_json.contains v k ≡ true → sample_json.is_object v ≡ true
contains-object null k h = cc
contains-object (flag b) k h = cc
contains-object (number n) k h = cc
contains-object (string s) k h = cc
contains-object (array vs) k h = cc
contains-object (object fs) k h = refl

sample_arrays : ArrayLaws sample_json
sample_arrays = record {
  is_array-array = λ vs. refl;
  elements-array = list_of-items_of;
  is_object-contains = contains-object;
  is_object-object = refl;
}

abbrev category : Text → Text → List Value → Value
category id title channels = object (
    entry (lit "id") (string id) (
      entry (lit "title") (string title)
        (entry (lit "channels") (array (items_of channels)) empty)))

-- The channel stands in two categories, and twice in one.
abbrev before : List Value
before =
    category (lit "A") (lit "News") (string (lit "c1") ∷ string (lit "c2") ∷ string (lit "c1") ∷ [])
    ∷ category (lit "B") (lit "Talk") (string (lit "c1") ∷ [])
    ∷ []

abbrev behind : List Value
behind =
    category (lit "A") (lit "News") (string (lit "c2") ∷ [])
    ∷ category (lit "B") (lit "Talk") (string (lit "c1") ∷ [])
    ∷ []

moves : moved sample_json (lit "c1") (lit "R") (lit "tALK") before ≡ some behind
unfolding moved stoatpp.Text.text_eq
moves = refl

moved-once_example : total sample_json (lit "c1") behind ≡ 1
moved-once_example =
    moved-once sample_json (lit "c1") sample_laws sample_arrays (lit "R") (lit "tALK") before behind
      moves
