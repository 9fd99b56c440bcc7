-- ===== src/Rest/Upload/Bounds.antt =====
-- How often `upload_file` of src/rest.cpp posts a file.
use stoatpp.Prelude.{
  ℕ, suc, ◌+◌, ◌-◌, ◌≤◌, ◌<◌, ◌≡◌, refl, true, List, [], ◌∷◌, ◌&&◌, arith, tests, ltb, length,
  Bool-cases, inl, inr,
}
use stoatpp.Prelude.Int.{pos_part}
use stoatpp.Text.{Text}
use stoatpp.Json.{JsonLib}
use stoatpp.Rest.Exchange.{RestConfig}
use stoatpp.Rest.Request.{is_429}
use stoatpp.Rest.Request.Retries.{sends, is_done}
use stoatpp.Rest.Upload.{UploadResult, upload_failed, uploaded, upload_file}

module _ (J : JsonLib) (config : RestConfig) (token content : Text) where
  abbrev tries : ℕ
  tries = pos_part config.http_retry_count

  upload_file-bounds :
      (retries : ℕ) (results : List UploadResult)
      → (sends (upload_file J config token content retries results).1 ≤ tries - retries + 1)
        × (tries - retries < length results
            → is_done (upload_file J config token content retries results).0 ≡ true)
  unfolding upload_file
  upload_file-bounds retries [] = (omega arith, λ many. absurd (omega (arith, many)))
  upload_file-bounds retries (upload_failed err ∷ results) =
      let rest = upload_file-bounds (suc retries) results in
      elim (Bool-cases (ltb retries tries)) [
        | inl again ↦
            rw (upload_file, again)
              (omega (tests, again, rest.0), λ many. rest.1 (omega (tests, again, many)))
        | inr last ↦ rw (upload_file, last) (omega arith, λ many. refl)
      ]
  upload_file-bounds retries (uploaded status text header ∷ results) =
      let rest = upload_file-bounds (suc retries) results in
      elim (Bool-cases (is_429 status && ltb retries tries)) [
        | inl again ↦
            let left : retries < tries = ground (arith, again) in
            rw (upload_file, again)
              (omega (arith, left, rest.0), λ many. rest.1 (omega (arith, left, many)))
        | inr last ↦ rw (upload_file, last) (omega arith, λ many. refl)
      ]

  -- With one result more than the allowed retries, an upload ends, rate limited or not, and the file is
  -- posted at most that often.
  pub upload_file-done :
      (results : List UploadResult)
      → pos_part config.http_retry_count < length results
      → (is_done (upload_file J config token content 0 results).0 ≡ true)
        × (sends (upload_file J config token content 0 results).1
            ≤ pos_part config.http_retry_count + 1)
  upload_file-done results many =
      let bounds = upload_file-bounds 0 results in
      (bounds.1 (omega (arith, many)), omega (arith, bounds.0))
