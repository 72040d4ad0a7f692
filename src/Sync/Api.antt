-- ===== src/Sync/Api.antt =====
-- The client of the document server, crates/smfs-core/src/api, as the push worker sees it: a
-- request has an answer or an error. The requests themselves are the `reqwest` crate's.
use smfs.Prelude.{ℕ, zero, suc, ◌+◌, ◌/◌, ◌%◌, ltb, Option, List, [], ◌∷◌, ◌++◌, if◌then◌else◌}
use smfs.Prelude.Eq.{Text, bytes}

pub data ApiError : Type 0 where
  network : Text → ApiError
  auth not_found : ApiError
  conflict : Text → ApiError
  rate_limited : ApiError
  rejected server : ℕ → Text → ApiError

-- the digits of a number with at most `fuel` of them; a status code has five at most
unfoldable pub decimal : ℕ → ℕ → Text
decimal zero n = []
decimal (suc fuel) n =
    let more = decimal fuel (n / 10) in
    let digit = b'0' + n % 10 in if ltb n 10 then digit ∷ [] else more ++ digit ∷ []

-- `Display`; the text of a network error is the `reqwest` crate's
unfoldable pub to_string : ApiError → Text
to_string (network e) = bytes "network error: " ++ e
to_string auth = bytes "auth failed (401)"
to_string not_found = bytes "not found (404)"
to_string (conflict e) = bytes "conflict (409): " ++ e
to_string rate_limited = bytes "rate limited (429)"
to_string (rejected status body) = bytes "rejected (" ++ (decimal 5 status ++ (bytes "): " ++ body))
to_string (server status body) =
    bytes "server error (" ++ (decimal 5 status ++ (bytes "): " ++ body))

pub data Answer {ℓ} (A : Type ℓ) : Type ℓ where
  answered : A → Answer A
  failed : ApiError → Answer A

-- The server's answers to the requests of one job. A document is given by its id.
pub record ApiClient : Type 0 where
  pub update_document : Text → Option Text → Option (List ℕ) → Answer (Unit {0})
  pub create_document : List ℕ → Text → Answer Text
  pub create_document_multipart : List ℕ → Text → Text → Text → Answer Text
  pub delete_documents_by_ids : List Text → Answer ℕ
  pub delete_documents : Text → Answer ℕ
  pub list_documents : Option Text → Answer (List Text)
