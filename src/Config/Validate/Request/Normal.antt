-- ===== src/Config/Validate/Request/Normal.antt =====
-- validateRequestConfig of internal/config/validate.go: the requests that are valid as they stand.
use daegsa.Prelude.{Bool, true, false, ◌≡◌, refl, ◌∙◌, ap, subst, is_empty, not, arith}
use daegsa.Prelude.Float.{Floats}
use daegsa.Prelude.Text.{Text}
use daegsa.Prelude.Strings.{trim_space}
use daegsa.Prelude.Result.{ok, ok_parts, ok-injective, guard_parts, guard_of}
use daegsa.Config.Types.{RequestConfig}
use daegsa.Config.Validate.{
  empty_url, invalid_url, empty_method, ConfigLibrary, one_of, methods, redirect_policies,
  check_timeout, check_statuses, check_redirects, check_method, normal_method, check_body_limit,
}
use daegsa.Config.Validate.Options.{
  IsTimeout, AreStatuses, IsBodyLimit, check_timeout-IsTimeout, check_statuses-AreStatuses,
  check_redirects_again, check_method-one_of, check_method_of, normal_method_of, method_full,
  check_body_limit-IsBodyLimit,
}
use daegsa.Config.Validate.Request.{is_http_url, check_options, validate_request_config}

module _ {floats : Floats} (lib : ConfigLibrary floats) where
  -- A request with an absolute HTTP URL, a known method and redirect policy, a positive timeout,
  -- statuses from 100 to 599 and a body limit within the hard limit.
  pub record IsRequest (req : RequestConfig) : Type 0 where
    pub url : is_http_url (lib.parse_url (trim_space lib.hosts.unicode req.url)) ≡ true
    pub method : one_of req.method methods ≡ true
    pub timeout : IsTimeout req.timeout
    pub statuses : AreStatuses req.expected_statuses
    pub limit : IsBodyLimit lib req.response_body_limit
    pub redirects : one_of req.redirects redirect_policies ≡ true

  of_not : (b : Bool) → not b ≡ false → b ≡ true
  of_not b h = ground arith

  options_again :
      (req : RequestConfig) {req' : RequestConfig}
      → is_http_url (lib.parse_url (trim_space lib.hosts.unicode req.url)) ≡ true
      → check_options lib req ≡ ok req'
      → IsRequest req' × (req'.url ≡ req.url) × (check_options lib req' ≡ ok req')
  unfolding check_options
  options_again req {req'} http h =
      let (m, hm, h1) = ok_parts (check_method (normal_method lib req.method)) h in
      let (t, ht, h2) = ok_parts (check_timeout req.timeout) h1 in
      let (l, hl, h3) = ok_parts (check_statuses req.expected_statuses) h2 in
      let (b, hb, h4) = ok_parts (check_body_limit lib req.response_body_limit) h3 in
      let (r, hr, h5) = ok_parts (check_redirects req.redirects) h4 in
      let (_, known) = check_method-one_of (normal_method lib req.method) hm in
      let (good_t, t_again) = check_timeout-IsTimeout req.timeout ht in
      let (good_l, l_again) = check_statuses-AreStatuses req.expected_statuses hl in
      let (good_b, b_again) = check_body_limit-IsBodyLimit lib req.response_body_limit hb in
      let (good_r, r_again) = check_redirects_again req.redirects hr in
      subst (λ q. IsRequest q × (q.url ≡ req.url) × (check_options lib q ≡ ok q)) (ok-injective h5)
        (
          record {
            url = http;
            method = known;
            timeout = good_t;
            statuses = good_l;
            limit = good_b;
            redirects = good_r;
          },
          refl,
          rw
              (
                normal_method_of lib m known,
                check_method_of m known,
                t_again,
                l_again,
                b_again,
                r_again,
              )
              refl,
        )

  -- A request that is accepted has become a valid one, with its defaults filled in, and validated
  -- again, nothing in it changes.
  pub validate_request_config-IsRequest :
      (req : RequestConfig) {req' : RequestConfig}
      → validate_request_config lib req ≡ ok req'
      → IsRequest req' × (validate_request_config lib req' ≡ ok req')
  unfolding validate_request_config
  validate_request_config-IsRequest req {req'} h =
      let url : Text = trim_space lib.hosts.unicode req.url in
      let (present, h1) = guard_parts (is_empty url) empty_url h in
      let (http, h2) = guard_parts (not (is_http_url (lib.parse_url url))) invalid_url h1 in
      let (_, h3) = guard_parts (is_empty (normal_method lib req.method)) empty_method h2 in
      let (good, same, again) = options_again req (of_not _ http) h3 in
      (
        good,
        guard_of _ empty_url (ap (λ u. is_empty (trim_space lib.hosts.unicode u)) same ∙ present) (
            guard_of _ invalid_url (ap not good.url) (
              guard_of _ empty_method
                (ap is_empty (normal_method_of lib req'.method good.method)
                  ∙ method_full lib req'.method good.method)
                again)),
      )

  pub validate_request_config-url :
      (req : RequestConfig) {req' : RequestConfig}
      → validate_request_config lib req ≡ ok req'
      → req'.url ≡ req.url
  unfolding validate_request_config
  validate_request_config-url req {req'} h =
      let url : Text = trim_space lib.hosts.unicode req.url in
      let (_, h1) = guard_parts (is_empty url) empty_url h in
      let (http, h2) = guard_parts (not (is_http_url (lib.parse_url url))) invalid_url h1 in
      let (_, h3) = guard_parts (is_empty (normal_method lib req.method)) empty_method h2 in
      let (_, same, _) = options_again req (of_not _ http) h3 in same
