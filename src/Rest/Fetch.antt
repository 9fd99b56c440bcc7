-- ===== src/Rest/Fetch.antt =====
-- `rest_client::upload_from_url` of src/rest.cpp: a file is fetched and uploaded under a name and a type that fit it.
pub mod Names
use stoatpp.Prelude.{
  ℕ, Bool, true, false, Option, none, some, List, [], ◌∷◌, ◌++◌, if◌then◌else◌, ◌&&◌, ◌||◌, ◌==◌,
  not, is_nil, ltb, leb, drop,
}
use stoatpp.Prelude.Int.{ℤ, pos_part}
use stoatpp.Text.{Text, lit, text_eq, starts_with}
use stoatpp.Text.Split.{split_first, split_last}
use stoatpp.Json.{JsonLib, string_field, value_or}
use stoatpp.Rest.Exchange.{RestConfig, Response, Outcome, returned, RestEffect, success}
use stoatpp.Rest.Upload.{UploadResult, upload_file}

-- The scheme and the rest of an address; other schemes than these are left in the rest.
abbrev scheme_of : Text → Text × Text
scheme_of url =
    if starts_with url (lit "https://")
    then (lit "https://", drop 8 url)
    else if starts_with url (lit "http://")
    then (lit "http://", drop 7 url)
    else ([], url)

abbrev host_and_path : Text → Text × Text
host_and_path url = elim (split_first b'/' url) [
  | none ↦ (url, lit "/")
  | some (host, rest) ↦ (host, b'/' ∷ rest)
]

-- The server and the path that are fetched.
unfoldable pub fetch_target : Text → Text × Text
unfolding starts_with split_first
fetch_target image_url =
    let (scheme, url) = scheme_of image_url in
    let (host, path) = host_and_path url in (scheme ++ host, path)

-- The answer: none, or its status, its body and its header `Content-Type`, which is empty when it is missing.
pub data FetchResult : Type 0 where
  not_fetched : FetchResult
  fetched : ℤ → Text → Text → FetchResult

abbrev is_blank : ℕ → Bool
is_blank c = c == b' ' || c == 9

abbrev without_front : Text → Text
without_front [] = []
without_front (c ∷ s) = let rest = without_front s in if is_blank c then rest else c ∷ s

abbrev without_back : Text → Text
without_back [] = []
without_back (c ∷ s) =
    let rest = without_back s in if is_nil rest && is_blank c then [] else c ∷ rest

-- The type in a header, without its parameters and the blanks around it.
unfoldable pub header_mime : Text → Text
unfolding split_first
header_mime header =
    let front : Text = elim (split_first b';' header) [
      | none ↦ header
      | some (mime, parameters) ↦ mime
    ] in
    without_back (without_front front)

-- The type that the first bytes of a file tell.
unfoldable pub magic_mime : Text → Option Text
unfolding starts_with
magic_mime data_bytes =
    if starts_with data_bytes (0xFF ∷ 0xD8 ∷ 0xFF ∷ [])
    then some (lit "image/jpeg")
    else if starts_with data_bytes (0x89 ∷ lit "PNG")
    then some (lit "image/png")
    else if starts_with data_bytes (lit "GIF8")
    then some (lit "image/gif")
    else if starts_with data_bytes (lit "RIFF") && starts_with (drop 8 data_bytes) (lit "WEBP")
    then some (lit "image/webp")
    else none

-- The type of the upload: what the bytes tell, or else the header, or else the type that the caller gave.
unfoldable pub effective_mime : Text → Text → Text → Text
unfolding header_mime magic_mime
effective_mime mime_type header data_bytes = elim (magic_mime data_bytes) [
  | some mime ↦ mime
  | none ↦ let mime = header_mime header in if is_nil mime then mime_type else mime
]

-- The extension of a type, behind its dot; `none` is the empty text.
unfoldable pub target_ext : Text → Option Text
unfolding text_eq
target_ext mime =
    if text_eq mime (lit "image/jpeg") || text_eq mime (lit "image/jpg")
    then some (lit "jpg")
    else if text_eq mime (lit "image/png")
    then some (lit "png")
    else if text_eq mime (lit "image/gif")
    then some (lit "gif")
    else if text_eq mime (lit "image/webp")
    then some (lit "webp")
    else if text_eq mime (lit "image/svg+xml")
    then some (lit "svg")
    else none

-- A file's name in front of its last dot.
unfoldable pub stem : Text → Text
unfolding split_last
stem filename = elim (split_last b'.' filename) [ none ↦ filename | some (name, ext) ↦ name ]

unfoldable pub effective_filename : Text → Text → Text
unfolding stem target_ext
effective_filename filename mime = elim (target_ext mime) [
  | none ↦ filename
  | some ext ↦ stem filename ++ b'.' ∷ ext
]

-- An upload: the name, the type and the bytes.
pub record FileUpload : Type 0 where
  pub filename : Text
  pub mime : Text
  pub content : Text

-- What is uploaded, if anything is fetched.
unfoldable pub planned_upload : Text → Text → FetchResult → Option FileUpload
unfolding effective_mime effective_filename success
planned_upload filename mime_type not_fetched = none
planned_upload filename mime_type (fetched status body header) =
    let mime = effective_mime mime_type header body in
    if not (success status) || is_nil body
    then none
    else some (record { filename = effective_filename filename mime; mime = mime; content = body })

module _ (J : JsonLib) where
  abbrev file_id : Response J → Text
  file_id r = if success r.status_code then value_or (string_field J r.body (lit "id")) [] else []

  -- The id that is returned; `none` while the upload waits.
  abbrev returned_id : Outcome J → Option Text
  returned_id (returned r) = some (file_id r)
  returned_id outcome = none

  abbrev upload_planned :
      RestConfig → Text → List UploadResult → Option FileUpload → Option Text × List RestEffect
  upload_planned config token results none = (some [], [])
  upload_planned config token results (some f) =
      let (outcome, effects) = upload_file J config token f.content 0 results in
      (returned_id outcome, effects)

  -- The whole, with what the fetch and each attempt of the upload come to.
  unfoldable pub upload_from_url :
      RestConfig
      → Text
      → Text
      → Text
      → Text
      → FetchResult
      → List UploadResult
      → Option Text × List RestEffect
  unfolding planned_upload upload_file
  upload_from_url config token image_url filename mime_type fetch results =
      if is_nil image_url
      then (some [], [])
      else upload_planned config token results (planned_upload filename mime_type fetch)
