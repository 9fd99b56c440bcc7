-- ===== src/Tests/Storing.antt =====
-- The sample JSON library keeps the laws; uses of the theorems on stored data.
use stoatpp.Prelude.{◌≡◌, refl, ap, ◌∙◌, Bool, Option, true, false, some, [], arith, if◌then◌else◌}
use stoatpp.Prelude.Int.{pos}
use stoatpp.Text.{Text, lit, text_eq, text_eq_iff}
use stoatpp.Json.{JsonLaws}
use stoatpp.Models.Role.{Role, role_from_json, role_to_json}
use stoatpp.Models.RoundTrip.{role_from_json-role_to_json}
use stoatpp.Cache.Reads.{get_user}
use stoatpp.Rest.Exchange.{Response}
use stoatpp.Users.{fetch_user}
use stoatpp.Users.Fetching.{fetch_user-get_user}
use stoatpp.Tests.Sample.{
  Value, Fields, string, object, empty, entry, find, put, present, content, fields_of, sample_json,
  moderator,
}
use stoatpp.Tests.Caching.{empty_cache, empty_cache-IsKeyed}

find-put :
    (i k : Text) (v : Value) (fs : Fields)
    → find i (put k v fs) ≡ (if text_eq k i then some v else find i fs)
find-put i k v empty = refl
find-put i k v (entry j w fs) =
    ground (arith, text_eq_iff k i, text_eq_iff j k, text_eq_iff j i, find-put i k v fs)

present-choice :
    (b : Bool) (v : Value) (o : Option Value)
    → present (if b then some v else o) ≡ (if b then true else present o)
present-choice true v o = refl
present-choice false v o = refl

content-choice :
    (b : Bool) (v : Value) (o : Option Value)
    → content (if b then some v else o) ≡ (if b then v else content o)
content-choice true v o = refl
content-choice false v o = refl

pub sample_laws : JsonLaws sample_json
sample_laws = record {
  is_object-with_field = λ j v k o. refl;
  contains-with_field = λ j v k i o.
      ap present (find-put i k v (fields_of j))
      ∙ present-choice (text_eq k i) v (find i (fields_of j));
  field-with_field = λ j v k i o.
      ap content (find-put i k v (fields_of j))
      ∙ content-choice (text_eq k i) v (find i (fields_of j));
  is_string-of_text = λ s. refl;
  get_string-of_text = λ s. refl;
  is_number-of_int = λ n. refl;
  get_int-of_int = λ n small. refl;
}

abbrev stored : Role sample_json
stored = record moderator { raw = object (entry (lit "hoist") (string []) empty) }

role_from_json-role_to_json_example :
    ((role_from_json sample_json (role_to_json sample_json stored)).id ≡ stored.id)
    × ((role_from_json sample_json (role_to_json sample_json stored)).name ≡ stored.name)
    × ((role_from_json sample_json (role_to_json sample_json stored)).rank ≡ stored.rank)
    × ((role_from_json sample_json (role_to_json sample_json stored)).permissions
        ≡ stored.permissions)
role_from_json-role_to_json_example =
    role_from_json-role_to_json sample_json sample_laws stored refl (omega arith)

abbrev answer_user : Text → Option (Response sample_json)
answer_user id =
    some (record { status_code = pos 200; body = object (entry (lit "id") (string id) empty) })

fetched : (fetch_user sample_json empty_cache (lit "u1") answer_user answer_user).1.1 ≡ true
unfolding fetch_user get_user stoatpp.Dict.lookup stoatpp.Rest.Exchange.success
fetched = refl

fetch_user-get_user_example :
    get_user sample_json
      (fetch_user sample_json empty_cache (lit "u1") answer_user answer_user).0
      (fetch_user sample_json empty_cache (lit "u1") answer_user answer_user).1.0.id
    ≡ some (fetch_user sample_json empty_cache (lit "u1") answer_user answer_user).1.0
fetch_user-get_user_example =
    fetch_user-get_user sample_json empty_cache (lit "u1") answer_user answer_user
      empty_cache-IsKeyed fetched
