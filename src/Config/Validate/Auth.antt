-- ===== src/Config/Validate/Auth.antt =====
-- validateAuth of internal/config/validate.go.
use daegsa.Prelude.{Bool, true, List, [], ◌∷◌, ◌&&◌, not, is_empty, if◌then◌else◌}
use daegsa.Prelude.Float.{Floats}
use daegsa.Prelude.Text.{Text, codes, text_eq}
use daegsa.Prelude.Strings.{to_lower, trim_space}
use daegsa.Prelude.Result.{Result, ok, err}
use daegsa.Config.Types.{
  AuthConfig, auth_none, auth_bearer, auth_custom_header, auth_token_pool, auth_basic,
}
use daegsa.Config.Validate.{ConfigError, invalid_auth, ConfigLibrary}

abbrev pub authorization : Text
authorization = codes "Authorization"

module _ {floats : Floats} (lib : ConfigLibrary floats) where
  abbrev pub is_blank : Text → Bool
  is_blank s = is_empty (trim_space lib.hosts.unicode s)

  abbrev default_header : AuthConfig → AuthConfig
  default_header auth =
      if is_blank auth.header_name then record auth { header_name = authorization } else auth

  abbrev pub no_blank : List Text → Bool
  no_blank [] = true
  no_blank (t ∷ l) = not (is_blank t) && no_blank l

  -- The switch on the normal form of the type, which the configuration has already.
  unfoldable pub check_auth : AuthConfig → Result ConfigError AuthConfig
  check_auth auth =
      if text_eq auth.kind auth_none
      then ok auth
      else if text_eq auth.kind auth_bearer
      then (if is_blank auth.token
          then err invalid_auth
          else if not (is_blank auth.header_name)
              && not (lib.equal_fold (trim_space lib.hosts.unicode auth.header_name) authorization)
          then err invalid_auth
          else ok (record auth { header_name = authorization }))
      else if text_eq auth.kind auth_custom_header
      then (if is_blank auth.token
          then err invalid_auth
          else if is_blank auth.header_name
          then err invalid_auth
          else ok auth)
      else if text_eq auth.kind auth_basic
      then (if is_blank auth.username then err invalid_auth else ok (default_header auth))
      else if text_eq auth.kind auth_token_pool
      then (if is_empty auth.token_pool
          then err invalid_auth
          else if not (no_blank auth.token_pool)
          then err invalid_auth
          else ok (default_header auth))
      else err invalid_auth

  unfoldable pub validate_auth : AuthConfig → Result ConfigError AuthConfig
  validate_auth auth =
      let kind = to_lower lib.hosts.unicode (trim_space lib.hosts.unicode auth.kind) in
      check_auth (record auth { kind = if is_empty kind then auth_none else kind })
