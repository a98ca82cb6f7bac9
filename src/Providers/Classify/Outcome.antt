-- ===== src/Providers/Classify/Outcome.antt =====
-- What ClassifyError can return.
use aetherclaw.Common.{
  ℕ, ◌≡◌, refl, subst, inl, inr, ◌||◌, Option, none, some, arith, ltb, nat_key, Bool-cases,
}
use aetherclaw.Common.Text.{Text, to_lower}
use aetherclaw.Providers.Types.{
  FailoverReason, timeout, format, overloaded, unknown, GoError, canceled, deadline_exceeded,
  failed, FailoverError,
}
use aetherclaw.Providers.Classify.{
  classify_by_status, failover, status_reason, is_image_dimension_error, is_image_size_error,
  classify_text, classify_by_message, classify_error, extract_http_status,
}

-- The reasons that ClassifyError can give.
abbrev pub IsClassified : FailoverReason → Type 0
IsClassified overloaded = ⊥
IsClassified unknown = ⊥
IsClassified _ = Unit

abbrev OptClassified : Option FailoverReason → Type 0
OptClassified none = Unit
OptClassified (some r) = IsClassified r

classify_by_status-IsClassified : (n : ℕ) → OptClassified (classify_by_status n)
unfolding classify_by_status
classify_by_status-IsClassified n = ground arith

classify_by_message-IsClassified : (msg : Text) → OptClassified (classify_by_message msg)
unfolding classify_by_message
classify_by_message-IsClassified msg = ground arith

-- What a classified error says of the call that failed.
pub record Describes (f : FailoverError) (provider model : Text) (err : GoError) : Type 0 where
  pub reason : IsClassified f.reason
  pub provider_is : f.provider ≡ provider
  pub model_is : f.model ≡ model
  pub wrapped_is : f.wrapped ≡ err

failover-Describes :
    (r : FailoverReason) (p m : Text) (n : ℕ) (err : GoError)
    → IsClassified r
    → Describes (failover r p m n err) p m err
failover-Describes r p m n err h = record {
  reason = h;
  provider_is = refl;
  model_is = refl;
  wrapped_is = refl;
}

abbrev OptDescribes : Option FailoverError → Text → Text → GoError → Type 0
OptDescribes none p m err = Unit
OptDescribes (some f) p m err = Describes f p m err

abbrev OptReason : Option (FailoverReason × ℕ) → Type 0
OptReason none = Unit
OptReason (some (r, n)) = IsClassified r

status_reason-IsClassified : (msg : Text) → OptReason (status_reason msg)
unfolding status_reason
status_reason-IsClassified msg = elim (Bool-cases (ltb 0 (extract_http_status msg))) [
  | inl e ↦
      rw (e, status_reason)
        (go (classify_by_status (extract_http_status msg))
          (classify_by_status-IsClassified (extract_http_status msg)))
  | inr e ↦ rw (e, status_reason) tt
]
  where
    go :
        (o : Option FailoverReason)
        → OptClassified o
        → OptReason (elim o [ none ↦ none | some reason ↦ some (reason, extract_http_status msg) ])
    go none h = tt
    go (some r) h = h

classify_text-Describes :
    (msg p m : Text) (err : GoError) → OptDescribes (classify_text msg p m err) p m err
unfolding classify_text
classify_text-Describes msg p m err =
    elim (Bool-cases (is_image_dimension_error msg || is_image_size_error msg)) [
      | inl e ↦ rw (e, classify_text) (failover-Describes format p m 0 err tt)
      | inr e ↦
          rw (e, classify_text)
            (by_status (status_reason msg) (classify_by_message msg)
              (status_reason-IsClassified msg) (classify_by_message-IsClassified msg))
    ]
  where
    by_status :
        (o : Option (FailoverReason × ℕ)) (q : Option FailoverReason)
        → OptReason o
        → OptClassified q
        → OptDescribes
            (elim o [
              | some (reason, status) ↦ some (failover reason p m status err)
              | none ↦ elim q [ some reason ↦ some (failover reason p m 0 err) | none ↦ none ]
            ])
            p
            m
            err
    by_status (some (r, n)) q ho hq = failover-Describes r p m n err ho
    by_status none (some r) ho hq = failover-Describes r p m 0 err hq
    by_status none none ho hq = tt

-- A classified error names the call's provider and model and wraps its error, and its reason is
-- authentication, rate limit, billing, timeout or format. A cancellation is never classified, and a
-- missed deadline always is, as a timeout.
pub classify_error-Describes :
    (err : GoError) (p m : Text)
    → ((f : FailoverError) → classify_error (some err) p m ≡ some f → Describes f p m err)
      × (classify_error (some canceled) p m ≡ none)
      × (classify_error (some deadline_exceeded) p m
          ≡ some (failover timeout p m 0 deadline_exceeded))
unfolding classify_error
classify_error-Describes err p m =
    (λ f h. subst (λ o. OptDescribes o p m err) h (described err), refl, refl)
  where
    described : (e : GoError) → OptDescribes (classify_error (some e) p m) p m e
    described canceled = tt
    described deadline_exceeded = failover-Describes timeout p m 0 deadline_exceeded tt
    described (failed message) = classify_text-Describes (to_lower message) p m (failed message)
