-- ===== src/Rest/Fetch/Names.antt =====
-- The name under which `upload_from_url` of src/rest.cpp uploads a file.
use stoatpp.Prelude.{
  ◌≡◌, ◌≢◌, refl, Bool, true, false, Option, none, some, [], ◌∷◌, ◌++◌, if◌then◌else◌, arith, Every,
  ◌||◌, ◌&&◌, ◌==◌, not, subst,
}
use stoatpp.Text.{Text, lit, text_eq}
use stoatpp.Text.Split.{split_last_at, split_last-none}
use stoatpp.Rest.Fetch.{target_ext, stem, effective_filename}

abbrev NoDot : Option Text → Type 0
NoDot none = Unit
NoDot (some s) = Every (λ c. c ≢ b'.') s

-- A branch of `target_ext`.
NoDot-if : (b : Bool) (m n : Option Text) → NoDot m → NoDot n → NoDot (if b then m else n)
NoDot-if true m n hm hn = hm
NoDot-if false m n hm hn = hn

abbrev has_no_dot : Text → Bool
has_no_dot [] = true
has_no_dot (c ∷ s) = not (c == b'.') && has_no_dot s

has_no_dot-Every : (s : Text) → has_no_dot s ≡ true → Every (λ c. c ≢ b'.') s
has_no_dot-Every [] h = tt
has_no_dot-Every (c ∷ s) h =
    let other : c ≢ b'.' = λ e. ground (arith, h, e) in
    let rest : has_no_dot s ≡ true = ground (arith, h) in (other, has_no_dot-Every s rest)

target_ext-NoDot : (mime : Text) → NoDot (target_ext mime)
unfolding target_ext
target_ext-NoDot mime =
    NoDot-if (text_eq mime (lit "image/jpeg") || text_eq mime (lit "image/jpg")) _ _
      (has_no_dot-Every (lit "jpg") refl)
      (NoDot-if (text_eq mime (lit "image/png")) _ _ (has_no_dot-Every (lit "png") refl) (
        NoDot-if (text_eq mime (lit "image/gif")) _ _ (has_no_dot-Every (lit "gif") refl) (
          NoDot-if (text_eq mime (lit "image/webp")) _ _ (has_no_dot-Every (lit "webp") refl) (
            NoDot-if (text_eq mime (lit "image/svg+xml")) _ _ (has_no_dot-Every (lit "svg") refl)
              tt))))

-- For a type with an extension: a name with dots keeps what is in front of its last dot and has this extension
-- behind it, a name without a dot has a dot and the extension put behind it, and a name that has the extension
-- already is kept.
pub effective_filename-target_ext :
    (name old mime ext : Text)
    → Every (λ c. c ≢ b'.') old
    → target_ext mime ≡ some ext
    → (effective_filename (name ++ b'.' ∷ old) mime ≡ name ++ b'.' ∷ ext)
      × (effective_filename old mime ≡ old ++ b'.' ∷ ext)
      × (effective_filename (name ++ b'.' ∷ ext) mime ≡ name ++ b'.' ∷ ext)
unfolding effective_filename stem
effective_filename-target_ext name old mime ext no_dot found =
    let plain : Every (λ c. c ≢ b'.') ext = subst NoDot found (target_ext-NoDot mime) in
    (
      rw (effective_filename, found, stem, split_last_at b'.' name old no_dot) refl,
      rw (effective_filename, found, stem, split_last-none b'.' old no_dot) refl,
      rw (effective_filename, found, stem, split_last_at b'.' name ext plain) refl,
    )
