-- ===== src/Rest/Verbs.antt =====
-- `get`, `post`, `patch`, `put` and `del` of src/rest.cpp, which differ in the method.
use stoatpp.Text.{Text, lit}
use stoatpp.Json.{JsonLib}
use stoatpp.Rest.Exchange.{Request}

module _ (J : JsonLib) where
  abbrev pub get : Text → Request J
  get path = record { method = lit "GET"; path = path; body = J.null }

  abbrev pub post : Text → J.Json → Request J
  post path body = record { method = lit "POST"; path = path; body = body }

  abbrev pub patch : Text → J.Json → Request J
  patch path body = record { method = lit "PATCH"; path = path; body = body }

  abbrev pub put : Text → J.Json → Request J
  put path body = record { method = lit "PUT"; path = path; body = body }

  abbrev pub del : Text → J.Json → Request J
  del path body = record { method = lit "DELETE"; path = path; body = body }
