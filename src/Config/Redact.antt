-- ===== src/Config/Redact.antt =====
-- internal/config/redact.go: the sensitive names, and the redaction of headers. A map is the list of
-- its entries in the order of the loop; its keys differ, so that each assignment of the loop adds an
-- entry. No entry is shared, so that a copy of a slice is its list.
pub mod Names
pub mod Headers
use daegsa.Prelude.{Bool, List, [], ◌∷◌, Option, none, some, any, if◌then◌else◌}
use daegsa.Prelude.Text.{Text, codes, contains}
use daegsa.Prelude.Strings.{Unicode, to_lower, trim_space}

abbrev pub redacted_placeholder : Text
redacted_placeholder = codes "[REDACTED]"

abbrev pub sensitive_header_substrings : List Text
sensitive_header_substrings =
    codes "auth"
    ∷ codes "token"
    ∷ codes "secret"
    ∷ codes "cookie"
    ∷ codes "credential"
    ∷ codes "key"
    ∷ codes "password"
    ∷ codes "passwd"
    ∷ codes "session"
    ∷ codes "apikey"
    ∷ codes "api-key"
    ∷ codes "x-api-key"
    ∷ codes "x-auth-token"
    ∷ codes "x-token"
    ∷ codes "proxy-authorization"
    ∷ codes "set-cookie"
    ∷ []

abbrev sensitive_query_param_substrings : List Text
sensitive_query_param_substrings =
    codes "token"
    ∷ codes "secret"
    ∷ codes "key"
    ∷ codes "auth"
    ∷ codes "password"
    ∷ codes "passwd"
    ∷ codes "signature"
    ∷ codes "apikey"
    ∷ codes "api_key"
    ∷ codes "access_token"
    ∷ codes "session"
    ∷ codes "bearer"
    ∷ codes "refresh_token"
    ∷ []

module _ (unicode : Unicode) where
  unfoldable pub is_sensitive_header : Text → Bool
  is_sensitive_header header_name =
      any (contains (to_lower unicode (trim_space unicode header_name))) sensitive_header_substrings

  unfoldable pub is_sensitive_query_param : Text → Bool
  is_sensitive_query_param param_name =
      any (contains (to_lower unicode (trim_space unicode param_name)))
        sensitive_query_param_substrings

  -- The loops of the two functions on headers, which differ in what stands for a redacted value.
  abbrev pub redact_entries {ℓ} : {V : Type ℓ} → V → List (Text × V) → List (Text × V)
  redact_entries redacted [] = []
  redact_entries redacted ((k, v) ∷ headers) =
      (k, if is_sensitive_header k then redacted else v) ∷ redact_entries redacted headers

  unfoldable pub redact_headers : Option (List (Text × Text)) → Option (List (Text × Text))
  redact_headers none = none
  redact_headers (some headers) = some (redact_entries redacted_placeholder headers)

  unfoldable pub redact_http_headers :
      Option (List (Text × List Text)) → Option (List (Text × List Text))
  redact_http_headers none = none
  redact_http_headers (some headers) = some (redact_entries (redacted_placeholder ∷ []) headers)
