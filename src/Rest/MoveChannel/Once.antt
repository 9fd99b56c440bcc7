-- ===== src/Rest/MoveChannel/Once.antt =====
-- After `move_channel_to_category` of src/rest.cpp the channel stands in one category, once.
use stoatpp.Prelude.{
  false_ne, ◌≡◌, refl, sym, ◌∙◌, Bool, true, none, some, List, [], ◌∷◌, ◌++◌, arith, inl, inr,
  Bool-cases, Option-cases,
}
use stoatpp.Text.{Text, lit, text_eq}
use stoatpp.Json.{JsonLib, JsonLaws, string_field, value_or}
use stoatpp.Rest.MoveChannel.{
  clear_all, matches, with_channel, add_to_first, is_default, new_category, place_elsewhere, moved,
}
use stoatpp.Rest.MoveChannel.Counts.{
  ArrayLaws, count_in, total, total-append, channel_count-of_text, count_in-set_channels,
  total-clear_all, channel_count-with_channel,
}

some_inj : {A : Type 0} {a b : A} → some a ≡ some b → a ≡ b
some_inj e = cc

none_ne : {A : Type 0} {a : A} → none ≡ some a → ⊥
none_ne e = cc

module _ (J : JsonLib) (channel_id : Text) (L : JsonLaws J) (A : ArrayLaws J) where
  total-add_to_first :
      (test : J.Json → Bool)
      → ((cat : J.Json) → test cat ≡ true → J.is_object cat ≡ true)
      → (cats out : List J.Json) → total J channel_id cats ≡ 0
      → add_to_first J channel_id test cats ≡ some out
      → total J channel_id out ≡ 1
  unfolding add_to_first
  total-add_to_first test objects [] out none_yet e = cc
  total-add_to_first test objects (cat ∷ cats) out none_yet e = elim (Bool-cases (test cat)) [
    | inl hit ↦
        let first : with_channel J channel_id cat ∷ cats ≡ out =
          some_inj (sym (rw (add_to_first, hit) refl) ∙ e) in
        rw (← first) (
          omega (
            arith,
            none_yet,
            channel_count-with_channel J channel_id L A cat (objects cat hit)
                (omega (arith, none_yet)),
          ))
    | inr other ↦ elim (Option-cases (add_to_first J channel_id test cats)) [
      | inl missed ↦ absurd (none_ne (sym (rw (add_to_first, other, missed) refl) ∙ e))
      | inr (more, found) ↦
          let later : cat ∷ more ≡ out =
            some_inj (sym (rw (add_to_first, other, found) refl) ∙ e) in
          rw (← later) (
            omega (
              arith,
              none_yet,
              total-add_to_first test objects cats more (omega (arith, none_yet)) found,
            ))
    ]
  ]

  is_object-string_field :
      (cat : J.Json) (k : Text)
      → (s : Text) → string_field J cat k ≡ some s
      → J.is_object cat ≡ true
  is_object-string_field cat k s e = A.is_object-contains cat k (ground arith)

  is_object-matches :
      (name : Text) (cat : J.Json) → matches J channel_id name cat ≡ true → J.is_object cat ≡ true
  unfolding matches
  is_object-matches name cat h = elim (Option-cases (string_field J cat (lit "id"))) [
    | inr (id, e) ↦ is_object-string_field cat (lit "id") id e
    | inl no_id ↦ elim (Option-cases (string_field J cat (lit "title"))) [
      | inr (title, e) ↦ is_object-string_field cat (lit "title") title e
      | inl no_title ↦ absurd (false_ne (sym (rw (matches, no_id, no_title) refl) ∙ h))
    ]
  ]

  is_object-is_default :
      (cat : J.Json) → is_default J channel_id cat ≡ true → J.is_object cat ≡ true
  unfolding is_default text_eq
  is_object-is_default cat h = elim (Option-cases (string_field J cat (lit "id"))) [
    | inr (id, e) ↦ is_object-string_field cat (lit "id") id e
    | inl no_id ↦ absurd (false_ne (sym (rw (is_default, no_id) refl) ∙ h))
  ]

  channel_count-new_category :
      (id title : Text) → count_in J channel_id (new_category J channel_id id title) ≡ 1
  unfolding new_category
  channel_count-new_category id title =
      count_in-set_channels J channel_id L A named (J.of_text channel_id ∷ []) (
        L.is_object-with_field with_id (J.of_text title) (lit "title")
          (L.is_object-with_field J.object (J.of_text id) (lit "id") A.is_object-object))
      ∙ channel_count-of_text J channel_id L A
    where
      with_id : J.Json
      with_id = J.with_field J.object (lit "id") (J.of_text id)

      named : J.Json
      named = J.with_field with_id (lit "title") (J.of_text title)

  total-new_category :
      (id title : Text) (cats : List J.Json)
      → total J channel_id cats ≡ 0
      → total J channel_id (cats ++ new_category J channel_id id title ∷ []) ≡ 1
  total-new_category id title cats none_yet =
      total-append J channel_id cats (new_category J channel_id id title ∷ [])
      ∙ omega (arith, none_yet, channel_count-new_category id title)

  total-default :
      (cats : List J.Json)
      → total J channel_id cats ≡ 0
      → total J channel_id (
          value_or
            (add_to_first J channel_id (is_default J channel_id) cats)
            (cats ++ new_category J channel_id (lit "default") (lit "Default") ∷ []))
        ≡ 1
  total-default cats none_yet =
      elim (Option-cases (add_to_first J channel_id (is_default J channel_id) cats)) [
        | inl missed ↦ rw missed (total-new_category (lit "default") (lit "Default") cats none_yet)
        | inr (more, found) ↦ rw found (
            total-add_to_first (is_default J channel_id) is_object-is_default cats more none_yet
              found)
      ]

  total-place_elsewhere :
      (cat_id name : Text) (cats out : List J.Json)
      → total J channel_id cats ≡ 0
      → place_elsewhere J channel_id cat_id name cats ≡ some out
      → total J channel_id out ≡ 1
  unfolding place_elsewhere
  total-place_elsewhere cat_id name cats out none_yet e =
      ground (arith, total-default cats none_yet, total-new_category cat_id name cats none_yet)

  -- However the channel stood in the categories before, and whichever category is named: in the categories
  -- that are written back, where the call throws no exception, it stands exactly once.
  pub moved-once :
      (cat_id name : Text) (cats out : List J.Json)
      → moved J channel_id cat_id name cats ≡ some out
      → total J channel_id out ≡ 1
  unfolding moved
  moved-once cat_id name cats out e =
      elim (Option-cases
        (add_to_first J channel_id (matches J channel_id name) (clear_all J channel_id cats))) [
          | inl missed ↦
              total-place_elsewhere cat_id name (clear_all J channel_id cats) out
                (total-clear_all J channel_id L A cats) (sym (rw (moved, missed) refl) ∙ e)
          | inr (more, found) ↦
              let same : more ≡ out = some_inj (sym (rw (moved, found) refl) ∙ e) in
              rw (← same) (
                total-add_to_first (matches J channel_id name) (is_object-matches name)
                  (clear_all J channel_id cats) more (total-clear_all J channel_id L A cats) found)
        ]
