-- ===== src/Config/Validate/Request.antt =====
-- validateRequestConfig of internal/config/validate.go.
pub mod Normal
use daegsa.Prelude.{Bool, false, Option, none, some, ◌||◌, ◌&&◌, not, is_empty, if◌then◌else◌}
use daegsa.Prelude.Float.{Floats}
use daegsa.Prelude.Text.{Text, codes, text_eq}
use daegsa.Prelude.Strings.{trim_space}
use daegsa.Prelude.Result.{Result, ok, err, ◌>>=◌}
use daegsa.Config.Types.{RequestConfig}
use daegsa.Config.Validate.{
  ConfigError, empty_url, invalid_url, empty_method, Url, ConfigLibrary, check_timeout,
  check_statuses, check_redirects, check_method, normal_method, check_body_limit,
}

abbrev pub is_http_url : Option Url → Bool
is_http_url none = false
is_http_url (some u) =
    (text_eq u.scheme (codes "http") || text_eq u.scheme (codes "https")) && not (is_empty u.host)

module _ {floats : Floats} (lib : ConfigLibrary floats) where
  -- The checks after those of the URL and of an empty method.
  unfoldable pub check_options : RequestConfig → Result ConfigError RequestConfig
  check_options req = check_method (normal_method lib req.method) >>= λ method.
      check_timeout req.timeout >>= λ timeout. check_statuses req.expected_statuses >>= λ statuses.
      check_body_limit lib req.response_body_limit >>= λ limit.
      check_redirects req.redirects >>= λ redirects. ok (record req {
        method = method;
        timeout = timeout;
        expected_statuses = statuses;
        response_body_limit = limit;
        redirects = redirects;
      })

  unfoldable pub validate_request_config : RequestConfig → Result ConfigError RequestConfig
  validate_request_config req =
      let trimmed = trim_space lib.hosts.unicode req.url in
      if is_empty trimmed
      then err empty_url
      else if not (is_http_url (lib.parse_url trimmed))
      then err invalid_url
      else if is_empty (normal_method lib req.method)
      then err empty_method
      else check_options req
