-- ===== src/Providers/Classify/Status.antt =====
-- The status code in an error's message, and what ClassifyError makes of it.
use aetherclaw.Common.{
  ℕ, ◌+◌, ◌-◌, ◌*◌, ◌<◌, ◌≡◌, refl, ap, ◌∙◌, true, false, Option, none, some, [], ◌∷◌, ◌++◌, arith,
  nat_beq, lt→ltb, nat_key, drop,
}
use aetherclaw.Common.Text.{Text, codes, lower, to_lower}
use aetherclaw.Common.Regex.{Regex, match_at, find, find_submatch, is_digit, is_blank, one}
use aetherclaw.Providers.Types.{FailoverReason, failed}
use aetherclaw.Providers.Classify.{
  status_pattern, http_pattern, first_status, extract_http_status, classify_by_status, parse_digits,
  failover, status_reason, is_image_dimension_error, is_image_size_error, classify_text,
  classify_error,
}

lower-ne-H : (c : ℕ) → nat_beq b'H' (lower c) ≡ false
unfolding lower
lower-ne-H c = ground arith

-- An expression that starts with a capital H matches no lower-case text.
find_H :
    (r : Regex) (before : Option ℕ) (s : Text)
    → find (one (nat_beq b'H') ∷ r) before (to_lower s) ≡ none
unfolding find
find_H r before [] = refl
find_H r before (c ∷ s) = rw (lower-ne-H c, find) (find_H r (some (lower c)) s)

abbrev http_rest : Regex
http_rest = drop 1 http_pattern

-- ClassifyError looks for a status code in the lower-case message, and there the second pattern of
-- extractHTTPStatus, which starts with a capital "HTTP", never matches: only the first one counts.
pub extract_http_status-to_lower :
    (message : Text)
    → extract_http_status (to_lower message) ≡ first_status (status_pattern ∷ []) (to_lower message)
unfolding extract_http_status first_status find_submatch
extract_http_status-to_lower message = go (find status_pattern none (to_lower message)) refl
  where
    go :
        (o : Option Text)
        → find status_pattern none (to_lower message) ≡ o
        → extract_http_status (to_lower message)
          ≡ first_status (status_pattern ∷ []) (to_lower message)
    go none e = rw (e, first_status, find_H http_rest none message) refl
    go (some m) e = rw (e, first_status) refl

-- The code that three digits stand for.
abbrev pub code_of : ℕ → ℕ → ℕ → ℕ
code_of a b c = (a - b'0') * 100 + (b - b'0') * 10 + (c - b'0')

abbrev pub IsDigit : ℕ → Type 0
IsDigit c = is_digit c ≡ true

-- The message with which the OpenAI-compatible provider reports a status and a body.
abbrev pub api_message : ℕ → ℕ → ℕ → Text → Text
api_message a b c body =
    codes "API request failed:\n  Status: " ++ (a ∷ b ∷ c ∷ (codes "\n  Body:   " ++ body))

lower_digit : (c : ℕ) → IsDigit c → lower c ≡ c
unfolding lower is_digit
lower_digit c h = ground arith

digit_not_separator : (c : ℕ) → IsDigit c → (nat_beq c b':' ≡ false) × (is_blank c ≡ false)
unfolding is_digit is_blank
digit_not_separator c h = ground arith

-- The same message in lower case, up to its body.
abbrev lower_api_message : ℕ → ℕ → ℕ → Text → Text
lower_api_message a b c rest = codes "api request failed:\n  status: " ++ (a ∷ b ∷ c ∷ rest)

to_lower-api_message :
    (a b c : ℕ) (body : Text)
    → IsDigit a
    → IsDigit b
    → IsDigit c
    → to_lower (api_message a b c body)
      ≡ lower_api_message a b c (to_lower (codes "\n  Body:   " ++ body))
unfolding lower
to_lower-api_message a b c body ha hb hc = cc (lower_digit a ha, lower_digit b hb, lower_digit c hc)

find-lower_api_message :
    (a b c : ℕ) (rest : Text)
    → IsDigit a
    → IsDigit b
    → IsDigit c
    → find status_pattern none (lower_api_message a b c rest) ≡ some (a ∷ b ∷ c ∷ [])
unfolding find match_at is_blank
find-lower_api_message a b c rest ha hb hc = ground (arith, digit_not_separator a ha)

extract-lower_api_message :
    (a b c : ℕ) (rest : Text)
    → IsDigit a
    → IsDigit b
    → IsDigit c
    → extract_http_status (lower_api_message a b c rest) ≡ code_of a b c
unfolding extract_http_status first_status find_submatch parse_digits
extract-lower_api_message a b c rest ha hb hc =
    rw (find-lower_api_message a b c rest ha hb hc, first_status) (rw (ha, hb, hc) (omega arith))

classified-pos : (n : ℕ) (reason : FailoverReason) → classify_by_status n ≡ some reason → 0 < n
unfolding classify_by_status
classified-pos n reason h = ground arith

status_reason_lem :
    (msg : Text) (n : ℕ) (reason : FailoverReason)
    → extract_http_status msg ≡ n
    → classify_by_status n ≡ some reason
    → status_reason msg ≡ some (reason, n)
unfolding status_reason
status_reason_lem msg n reason e h = rw (e, lt→ltb 0 n (classified-pos n reason h), h) (cc e)

-- An error of the OpenAI-compatible provider whose status code stands for a reason is classified by
-- that code, whatever the body says, unless the message matches a pattern for image errors.
pub classify_error-api_message :
    (a b c : ℕ) (body provider model : Text) (reason : FailoverReason)
    → IsDigit a
    → IsDigit b
    → IsDigit c
    → is_image_dimension_error (to_lower (api_message a b c body)) ≡ false
    → is_image_size_error (to_lower (api_message a b c body)) ≡ false
    → classify_by_status (code_of a b c) ≡ some reason
    → classify_error (some (failed (api_message a b c body))) provider model
      ≡ some (failover reason provider model (code_of a b c) (failed (api_message a b c body)))
unfolding classify_error classify_text
classify_error-api_message a b c body provider model reason ha hb hc hd hs h =
    let found =
      status_reason_lem (to_lower (api_message a b c body)) (code_of a b c) reason
        (ap extract_http_status (to_lower-api_message a b c body ha hb hc)
          ∙ extract-lower_api_message a b c _ ha hb hc)
        h in
    rw (hd, hs, found) refl
