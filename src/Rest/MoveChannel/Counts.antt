-- ===== src/Rest/MoveChannel/Counts.antt =====
-- How often a channel stands in the categories that src/rest.cpp reads and writes.
use stoatpp.Prelude.{
  ℕ, suc, ◌+◌, ◌≡◌, refl, ◌∙◌, true, List, [], ◌∷◌, ◌++◌, if◌then◌else◌, arith, inl, inr,
  Bool-cases,
}
use stoatpp.Text.{Text, lit, text_eq_refl}
use stoatpp.Json.{JsonLib, JsonLaws}
use stoatpp.Rest.MoveChannel.{
  is_channel, without_channel, has_channels, channels_in, set_channels, cleared, clear_all,
  with_channel,
}

-- What the code relies on besides, as the library documents it.
pub record ArrayLaws (J : JsonLib) : Type 0 where
  pub is_array-array : (vs : List J.Json) → J.is_array (J.array vs) ≡ true
  pub elements-array : (vs : List J.Json) → J.elements (J.array vs) ≡ vs
  pub is_object-contains : (j : J.Json) (k : Text) → J.contains j k ≡ true → J.is_object j ≡ true
  pub is_object-object : J.is_object J.object ≡ true

module _ (J : JsonLib) (channel_id : Text) where
  -- How often the channel stands in a list, in a category and in all categories.
  abbrev pub channel_count : List J.Json → ℕ
  channel_count [] = 0
  channel_count (v ∷ vs) =
      let rest = channel_count vs in if is_channel J channel_id v then suc rest else rest

  unfoldable pub count_in : J.Json → ℕ
  count_in cat =
      if has_channels J channel_id cat then channel_count (channels_in J channel_id cat) else 0

  abbrev pub total : List J.Json → ℕ
  total [] = 0
  total (cat ∷ cats) = count_in cat + total cats

  pub channel_count-without_channel :
      (vs : List J.Json) → channel_count (without_channel J channel_id vs) ≡ 0
  unfolding without_channel
  channel_count-without_channel [] = refl
  channel_count-without_channel (v ∷ vs) = ground (arith, channel_count-without_channel vs)

  channel_count-append :
      (vs ws : List J.Json) → channel_count (vs ++ ws) ≡ channel_count vs + channel_count ws
  channel_count-append [] ws = omega arith
  channel_count-append (v ∷ vs) ws = ground (arith, channel_count-append vs ws)

  pub total-append : (vs ws : List J.Json) → total (vs ++ ws) ≡ total vs + total ws
  total-append [] ws = omega arith
  total-append (v ∷ vs) ws = ground (arith, total-append vs ws)

  module _ (L : JsonLaws J) (A : ArrayLaws J) where
    pub channel_count-of_text : channel_count (J.of_text channel_id ∷ []) ≡ 1
    channel_count-of_text =
        rw
          (L.is_string-of_text channel_id, L.get_string-of_text channel_id, text_eq_refl channel_id)
          refl

    field-set_channels :
        (cat : J.Json) (vs : List J.Json)
        → J.is_object cat ≡ true
        → J.field (set_channels J channel_id cat vs) (lit "channels") ≡ J.array vs
    unfolding set_channels
    field-set_channels cat vs o =
        L.field-with_field cat (J.array vs) (lit "channels") (lit "channels") o
        ∙ rw (text_eq_refl (lit "channels")) refl

    contains-set_channels :
        (cat : J.Json) (vs : List J.Json)
        → J.is_object cat ≡ true
        → J.contains (set_channels J channel_id cat vs) (lit "channels") ≡ true
    unfolding set_channels
    contains-set_channels cat vs o =
        L.contains-with_field cat (J.array vs) (lit "channels") (lit "channels") o
        ∙ rw (text_eq_refl (lit "channels")) refl

    has_channels-set_channels :
        (cat : J.Json) (vs : List J.Json)
        → J.is_object cat ≡ true
        → has_channels J channel_id (set_channels J channel_id cat vs) ≡ true
    unfolding has_channels set_channels
    has_channels-set_channels cat vs o =
        rw
          (
            has_channels,
            set_channels,
            contains-set_channels cat vs o,
            field-set_channels cat vs o,
            A.is_array-array vs,
          )
          refl

    channels_in-set_channels :
        (cat : J.Json) (vs : List J.Json)
        → J.is_object cat ≡ true
        → channels_in J channel_id (set_channels J channel_id cat vs) ≡ vs
    unfolding channels_in
    channels_in-set_channels cat vs o =
        rw (channels_in, field-set_channels cat vs o) (A.elements-array vs)

    pub count_in-set_channels :
        (cat : J.Json) (vs : List J.Json)
        → J.is_object cat ≡ true
        → count_in (set_channels J channel_id cat vs) ≡ channel_count vs
    unfolding count_in
    count_in-set_channels cat vs o =
        rw (count_in, has_channels-set_channels cat vs o, channels_in-set_channels cat vs o) refl

    is_object-has_channels :
        (cat : J.Json) → has_channels J channel_id cat ≡ true → J.is_object cat ≡ true
    unfolding has_channels
    is_object-has_channels cat h = A.is_object-contains cat (lit "channels") (ground arith)

    count_in-cleared : (cat : J.Json) → count_in (cleared J channel_id cat) ≡ 0
    unfolding cleared count_in
    count_in-cleared cat = elim (Bool-cases (has_channels J channel_id cat)) [
      | inl h ↦
          rw (cleared, h)
            (count_in-set_channels cat (without_channel J channel_id (channels_in J channel_id cat))
                (is_object-has_channels cat h)
              ∙ channel_count-without_channel (channels_in J channel_id cat))
      | inr h ↦ rw (cleared, h, count_in, h) refl
    ]

    pub total-clear_all : (cats : List J.Json) → total (clear_all J channel_id cats) ≡ 0
    total-clear_all [] = refl
    total-clear_all (cat ∷ cats) = omega (arith, count_in-cleared cat, total-clear_all cats)

    channel_count-held :
        (cat : J.Json)
        → channel_count (if has_channels J channel_id cat then channels_in J channel_id cat else [])
          ≡ count_in cat
    unfolding count_in
    channel_count-held cat = elim (Bool-cases (has_channels J channel_id cat)) [
      | inl h ↦ rw (count_in, h) refl
      | inr h ↦ rw (count_in, h) refl
    ]

    pub channel_count-with_channel :
        (cat : J.Json)
        → J.is_object cat ≡ true
        → count_in cat ≡ 0
        → count_in (with_channel J channel_id cat) ≡ 1
    unfolding with_channel count_in
    channel_count-with_channel cat o h =
        count_in-set_channels cat
          ((if has_channels J channel_id cat then channels_in J channel_id cat else [])
            ++ J.of_text channel_id ∷ [])
          o
        ∙ channel_count-append
            (if has_channels J channel_id cat then channels_in J channel_id cat else [])
            (J.of_text channel_id ∷ [])
        ∙ omega (arith, channel_count-held cat, h, channel_count-of_text)
