-- ===== src/Rest/Endpoints/Paths.antt =====
-- The path of a reaction (src/rest.cpp) in its segments: an emoji cannot reach beyond its own.
use mathlib.Core.List.{append_assoc}
use stoatpp.Prelude.{
  false_ne, ℕ, ◌/◌, ◌%◌, ◌≡◌, refl, sym, ap, ◌∙◌, Bool, true, false, List, [], ◌∷◌, ◌++◌,
  if◌then◌else◌, arith, Every, Bool-cases, inl, inr, ◌==◌,
}
use stoatpp.Text.{Text, lit}
use stoatpp.Json.{JsonLib}
use stoatpp.Rest.UrlEncode.{url_encode, hex_digit, is_unreserved}
use stoatpp.Rest.Endpoints.Messages.{add_reaction}

-- The segments of a path, which slashes separate.
abbrev push : ℕ → List Text → List Text
push c [] = (c ∷ []) ∷ []
push c (s ∷ ss) = (c ∷ s) ∷ ss

unfoldable pub segments : Text → List Text
segments [] = [] ∷ []
segments (c ∷ path) = let rest = segments path in if c == b'/' then [] ∷ rest else push c rest

-- A text without a slash.
abbrev pub IsSegment : Text → Type 0
IsSegment s = Every (λ c. (c == b'/') ≡ false) s

-- The same as a test.
abbrev has_no_slash : Text → Bool
has_no_slash [] = true
has_no_slash (c ∷ s) = let rest = has_no_slash s in if c == b'/' then false else rest

pub Segment-of : (s : Text) → has_no_slash s ≡ true → IsSegment s
Segment-of [] h = tt
Segment-of (c ∷ s) h = elim (Bool-cases (c == b'/')) [
  | inl e ↦ absurd (false_ne (sym (rw e refl) ∙ h))
  | inr e ↦ (e, Segment-of s (sym (rw e refl) ∙ h))
]

segments-segment : (s : Text) → IsSegment s → segments s ≡ s ∷ []
unfolding segments
segments-segment [] h = refl
segments-segment (c ∷ s) h = rw (segments, h.0, segments-segment s h.1) refl

segments-append : (s t : Text) → IsSegment s → segments (s ++ b'/' ∷ t) ≡ s ∷ segments t
unfolding segments
segments-append [] t h = refl
segments-append (c ∷ s) t h = rw (segments, h.0, segments-append s t h.1) refl

hex_digit-segment : (n : ℕ) → (hex_digit n == b'/') ≡ false
hex_digit-segment n = ground arith

unreserved-segment : (c : ℕ) → is_unreserved c ≡ true → (c == b'/') ≡ false
unreserved-segment c h = ground arith

url_encode-Segment : (s : Text) → IsSegment (url_encode s)
unfolding url_encode
url_encode-Segment [] = tt
url_encode-Segment (c ∷ s) = elim (Bool-cases (is_unreserved c)) [
  | inl e ↦ rw (url_encode, e) (unreserved-segment c e, url_encode-Segment s)
  | inr e ↦
      rw (url_encode, e)
        (refl, (hex_digit-segment (c / 16), (hex_digit-segment (c % 16), url_encode-Segment s)))
]

module _ (J : JsonLib) where
  path-add_reaction :
      (channel_id message_id emoji : Text)
      → (add_reaction J channel_id message_id emoji).path
        ≡ lit "/channels/"
          ++ (channel_id
              ++ (lit "/messages/" ++ (message_id ++ (lit "/reactions/" ++ url_encode emoji))))
  unfolding add_reaction url_encode
  path-add_reaction channel_id message_id emoji =
      append_assoc (channel ++ lit "/messages/" ++ message_id) (lit "/reactions/")
        (url_encode emoji)
      ∙ append_assoc (channel ++ lit "/messages/") message_id
          (lit "/reactions/" ++ url_encode emoji)
      ∙ append_assoc channel (lit "/messages/")
          (message_id ++ (lit "/reactions/" ++ url_encode emoji))
      ∙ append_assoc (lit "/channels/") channel_id
          (lit "/messages/" ++ (message_id ++ (lit "/reactions/" ++ url_encode emoji)))
    where
      channel : Text
      channel = lit "/channels/" ++ channel_id

  -- Where the ids hold no slash, the path of `add_reaction` has exactly the seven segments of the endpoint,
  -- the last of which is the encoded emoji, whatever bytes the emoji has.
  pub segments-add_reaction :
      (channel_id message_id emoji : Text)
      → IsSegment channel_id
      → IsSegment message_id
      → segments (add_reaction J channel_id message_id emoji).path
        ≡ []
          ∷ lit "channels"
          ∷ channel_id
          ∷ lit "messages"
          ∷ message_id
          ∷ lit "reactions"
          ∷ url_encode emoji
          ∷ []
  unfolding add_reaction url_encode
  segments-add_reaction channel_id message_id emoji hc hm =
      ap segments (path-add_reaction channel_id message_id emoji)
      ∙ segments-append [] (lit "channels/" ++ (channel_id ++ (lit "/messages/" ++ tail))) tt
      ∙ ap (λ ss. [] ∷ ss)
          (segments-append (lit "channels") (channel_id ++ (lit "/messages/" ++ tail))
              (Segment-of (lit "channels") refl)
            ∙ ap (λ ss. lit "channels" ∷ ss)
                (segments-append channel_id (lit "messages/" ++ tail) hc
                  ∙ ap (λ ss. channel_id ∷ ss)
                      (segments-append (lit "messages") tail (Segment-of (lit "messages") refl)
                        ∙ ap (λ ss. lit "messages" ∷ ss)
                            (segments-append message_id (lit "reactions/" ++ url_encode emoji) hm
                              ∙ ap (λ ss. message_id ∷ ss)
                                  (segments-append (lit "reactions") (url_encode emoji)
                                      (Segment-of (lit "reactions") refl)
                                    ∙ ap (λ ss. lit "reactions" ∷ ss)
                                        (segments-segment (url_encode emoji)
                                          (url_encode-Segment emoji)))))))
    where
      tail : Text
      tail = message_id ++ (lit "/reactions/" ++ url_encode emoji)
