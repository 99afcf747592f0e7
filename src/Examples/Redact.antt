-- ===== src/Examples/Redact.antt =====
-- The headers of two users, which differ in a secret.
use daegsa.Prelude.{List, [], ◌∷◌, some, true, ◌≡◌, ◌↔◌, refl}
use daegsa.Prelude.Text.{Text, codes}
use daegsa.Prelude.Strings.{is_space, lower}
use daegsa.Config.Redact.{
  redact_headers, redact_http_headers, is_sensitive_header, is_sensitive_query_param,
}
use daegsa.Config.Redact.Headers.{AgreesInPublic, redact_headers-iff-AgreesInPublic}
use daegsa.Examples.Hosts.{one_address}

abbrev headers_of : Text → List (Text × Text)
headers_of token = (codes "Accept", codes "*/*") ∷ (codes "Authorization", token) ∷ []

abbrev lists_of : Text → List (Text × List Text)
lists_of token = (codes "Set-Cookie", token ∷ []) ∷ []

redact_headers-iff-AgreesInPublic_example :
    ((redact_headers one_address.unicode (some (headers_of (codes "a")))
        ≡ redact_headers one_address.unicode (some (headers_of (codes "b"))))
      ↔ AgreesInPublic one_address.unicode (headers_of (codes "a")) (headers_of (codes "b")))
    × ((redact_http_headers one_address.unicode (some (lists_of (codes "a")))
          ≡ redact_http_headers one_address.unicode (some (lists_of (codes "b"))))
        ↔ AgreesInPublic one_address.unicode (lists_of (codes "a")) (lists_of (codes "b")))
redact_headers-iff-AgreesInPublic_example =
    redact_headers-iff-AgreesInPublic one_address.unicode (headers_of (codes "a"))
      (headers_of (codes "b")) (lists_of (codes "a")) (lists_of (codes "b"))

-- The names of the two headers are told apart by case and place.
hides :
    redact_headers one_address.unicode (some (headers_of (codes "a")))
    ≡ some ((codes "Accept", codes "*/*") ∷ (codes "Authorization", codes "[REDACTED]") ∷ [])
unfolding redact_headers is_sensitive_header is_space lower
hides = refl

query_key : is_sensitive_query_param one_address.unicode (codes " X-Api_Key ") ≡ true
unfolding is_sensitive_query_param is_space lower
query_key = refl
