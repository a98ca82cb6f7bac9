-- ===== src/Providers/Classify.antt =====
-- pkg/providers/error_classifier.go.
pub mod Status
pub mod Outcome
use aetherclaw.Common.{
  ℕ, ◌+◌, ◌-◌, ◌*◌, Bool, true, false, ◌||◌, Option, none, some, List, [], ◌∷◌, ◌++◌, ltb,
  if◌then◌else◌, ◌==◌, nat_key,
}
use aetherclaw.Common.Text.{Text, text_key, codes, is_empty, to_lower, contains}
use aetherclaw.Common.Regex.{
  Regex, one, optional, star, boundary, group, is_digit, is_blank, is_any, literal, folded,
  find_submatch, match_string,
}
use aetherclaw.Providers.Types.{
  FailoverReason, auth, rate_limit, billing, timeout, format, GoError, canceled, deadline_exceeded,
  failed, error_text, FailoverError,
}

pub data ErrorPattern : Type 0 where
  substr : Text → ErrorPattern
  rxp : Regex → ErrorPattern

abbrev any_star : Regex
any_star = star is_any ∷ []

abbrev blank_or_underscore : ℕ → Bool
blank_or_underscore c = c == b'_' || c == b' '

abbrev pub rate_limit_patterns : List ErrorPattern
rate_limit_patterns =
    rxp (folded (codes "rate") ++ (one blank_or_underscore ∷ folded (codes "limit")))
    ∷ substr (codes "too many requests")
    ∷ substr (codes "429")
    ∷ substr (codes "exceeded your current quota")
    ∷ rxp (folded (codes "exceeded") ++ (any_star ++ folded (codes "quota")))
    ∷ rxp (folded (codes "resource has been exhausted"))
    ∷ rxp (folded (codes "resource") ++ (any_star ++ folded (codes "exhausted")))
    ∷ substr (codes "resource_exhausted")
    ∷ substr (codes "quota exceeded")
    ∷ substr (codes "usage limit")
    ∷ []

abbrev pub overloaded_patterns : List ErrorPattern
overloaded_patterns =
    rxp (folded (codes "overloaded_error"))
    ∷ rxp (
        folded (codes "\"type\"")
        ++ (star is_blank
            ∷ (folded (codes ":") ++ (star is_blank ∷ folded (codes "\"overloaded_error\"")))))
    ∷ substr (codes "overloaded")
    ∷ []

abbrev pub timeout_patterns : List ErrorPattern
timeout_patterns =
    substr (codes "timeout")
    ∷ substr (codes "timed out")
    ∷ substr (codes "deadline exceeded")
    ∷ substr (codes "context deadline exceeded")
    ∷ []

abbrev pub billing_patterns : List ErrorPattern
billing_patterns =
    rxp (boundary ∷ (folded (codes "402") ++ (boundary ∷ [])))
    ∷ substr (codes "payment required")
    ∷ substr (codes "insufficient credits")
    ∷ substr (codes "credit balance")
    ∷ substr (codes "plans & billing")
    ∷ substr (codes "insufficient balance")
    ∷ []

abbrev pub auth_patterns : List ErrorPattern
auth_patterns =
    rxp (
      folded (codes "invalid")
      ++ (optional blank_or_underscore
          ∷ (folded (codes "api") ++ (optional blank_or_underscore ∷ folded (codes "key")))))
    ∷ substr (codes "incorrect api key")
    ∷ substr (codes "invalid token")
    ∷ substr (codes "authentication")
    ∷ substr (codes "re-authenticate")
    ∷ substr (codes "oauth token refresh failed")
    ∷ substr (codes "unauthorized")
    ∷ substr (codes "forbidden")
    ∷ substr (codes "access denied")
    ∷ substr (codes "expired")
    ∷ substr (codes "token has expired")
    ∷ rxp (boundary ∷ (folded (codes "401") ++ (boundary ∷ [])))
    ∷ rxp (boundary ∷ (folded (codes "403") ++ (boundary ∷ [])))
    ∷ substr (codes "no credentials found")
    ∷ substr (codes "no api key found")
    ∷ []

abbrev pub format_patterns : List ErrorPattern
format_patterns =
    substr (codes "string should match pattern")
    ∷ substr (codes "tool_use.id")
    ∷ substr (codes "tool_use_id")
    ∷ substr (codes "messages.1.content.1.tool_use.id")
    ∷ substr (codes "invalid request format")
    ∷ []

abbrev pub image_dimension_patterns : List ErrorPattern
image_dimension_patterns = rxp (folded (codes "image dimensions exceed max")) ∷ []

abbrev pub image_size_patterns : List ErrorPattern
image_size_patterns = rxp (folded (codes "image exceeds") ++ (any_star ++ folded (codes "mb"))) ∷ []

-- the body of the loop of matchesAny
pub matches : Text → ErrorPattern → Bool
matches msg (rxp r) = match_string r msg
matches msg (substr p) = if is_empty p then false else contains p msg

pub matches_any : Text → List ErrorPattern → Bool
unfolding matches
matches_any msg [] = false
matches_any msg (p ∷ ps) = if matches msg p then true else matches_any msg ps

pub is_image_dimension_error : Text → Bool
is_image_dimension_error msg = matches_any msg image_dimension_patterns

pub is_image_size_error : Text → Bool
is_image_size_error msg = matches_any msg image_size_patterns

pub is_transient_status : ℕ → Bool
is_transient_status status =
    status == 500
    || (status == 502
        || (status == 503
            || (status == 521
                || (status == 522 || (status == 523 || (status == 524 || status == 529))))))

pub classify_by_status : ℕ → Option FailoverReason
unfolding is_transient_status
classify_by_status status =
    if status == 401 || status == 403
    then some auth
    else if status == 402
    then some billing
    else if status == 408
    then some timeout
    else if status == 429
    then some rate_limit
    else if status == 400
    then some format
    else if is_transient_status status
    then some timeout
    else none

pub classify_by_message : Text → Option FailoverReason
classify_by_message msg =
    if matches_any msg rate_limit_patterns
    then some rate_limit
    else if matches_any msg overloaded_patterns
    then some rate_limit
    else if matches_any msg billing_patterns
    then some billing
    else if matches_any msg timeout_patterns
    then some timeout
    else if matches_any msg auth_patterns
    then some auth
    else if matches_any msg format_patterns
    then some format
    else none

pub parse_digits : ℕ → Text → ℕ
parse_digits n [] = n
parse_digits n (c ∷ s) = parse_digits (if is_digit c then n * 10 + (c - b'0') else n) s

abbrev three_digits : Regex
three_digits = group ∷ one is_digit ∷ one is_digit ∷ one is_digit ∷ []

abbrev colon_or_blank : ℕ → Bool
colon_or_blank c = c == b':' || is_blank c

abbrev slash_or_blank : ℕ → Bool
slash_or_blank c = c == b'/' || is_blank c

abbrev pub status_pattern : Regex
status_pattern =
    literal (codes "status") ++ (one colon_or_blank ∷ star colon_or_blank ∷ three_digits)

abbrev pub http_pattern : Regex
http_pattern =
    literal (codes "HTTP")
    ++ (one slash_or_blank
        ∷ star slash_or_blank
        ∷ star is_digit
        ∷ optional (λ c. c == b'.')
        ∷ star is_digit
        ∷ one is_blank
        ∷ star is_blank
        ∷ three_digits)

-- the loop of extractHTTPStatus; 0 where no pattern matches
pub first_status : List Regex → Text → ℕ
first_status [] msg = 0
first_status (p ∷ ps) msg = elim (find_submatch p msg) [
  | some digits ↦ parse_digits 0 digits
  | none ↦ first_status ps msg
]

pub extract_http_status : Text → ℕ
extract_http_status msg = first_status (status_pattern ∷ http_pattern ∷ []) msg

abbrev pub failover : FailoverReason → Text → Text → ℕ → GoError → FailoverError
failover reason provider model status err = record {
  reason = reason;
  provider = provider;
  model = model;
  status = status;
  wrapped = err;
}

-- the status code, where one is found that stands for a reason
pub status_reason : Text → Option (FailoverReason × ℕ)
status_reason msg =
    let status = extract_http_status msg in
    if ltb 0 status
    then elim (classify_by_status status) [ none ↦ none | some reason ↦ some (reason, status) ]
    else none

-- ClassifyError on an error that is neither sentinel, from its lower-case message
pub classify_text : Text → Text → Text → GoError → Option FailoverError
classify_text msg provider model err =
    if is_image_dimension_error msg || is_image_size_error msg
    then some (failover format provider model 0 err)
    else elim (status_reason msg) [
      | some (reason, status) ↦ some (failover reason provider model status err)
      | none ↦ elim (classify_by_message msg) [
        | some reason ↦ some (failover reason provider model 0 err)
        | none ↦ none
      ]
    ]

-- `none` is nil
pub classify_error : Option GoError → Text → Text → Option FailoverError
classify_error none provider model = none
classify_error (some canceled) provider model = none
classify_error (some deadline_exceeded) provider model =
    some (failover timeout provider model 0 deadline_exceeded)
classify_error (some (failed message)) provider model =
    classify_text (to_lower message) provider model (failed message)
