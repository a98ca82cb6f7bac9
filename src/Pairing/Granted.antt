-- ===== src/Pairing/Granted.antt =====
-- Who is approved (pkg/pairing/pairing.go).
use aetherclaw.Common.{
  ℕ, zero, suc, ◌≤◌, ◌≡◌, refl, sym, subst, inl, inr, Bool, true, Option, none, some, List, [], ◌∷◌,
  arith, ltb, lt→ltb, ◌==◌, nat_key, eq_iff, Bool-cases, Option-cases,
}
use aetherclaw.Common.Text.{Text, text_key}
use aetherclaw.Common.Dict.{Dict, get, get-put, get-remove}
use aetherclaw.Pairing.{
  PairRequest, ApprovedDevice, Store, StoreJson, device_key, request_key, generate_random_code,
  new_store, save_locked, scan_pending, new_request, after_scan, generate_code, approve_found,
  approve, reject_found, reject, is_approved, revoke_found, revoke, clean_pending, after_clean,
  clean_expired, device_of,
}
use aetherclaw.Pairing.Calls.{
  StoreCall, generate_call, approve_call, reject_call, revoke_call, clean_call, apply_call,
  after_calls, IsOpen, IsGranted, granted, kept,
}
use aetherclaw.Pairing.Origin.{after_calls-IsOpen}

module _ {B : Type 0} (json : StoreJson B) (written : Bool) (earlier : List (Bool × StoreCall))
    (key : Text) where
  -- a device under the key, only if it was granted
  abbrev GrantedIn : List (Bool × StoreCall) → Dict Text ApprovedDevice → Type 0
  GrantedIn calls approved = (d : ApprovedDevice) → get key approved ≡ some d → IsGranted key calls

  after_scan-approved :
      (code : Text) (req : PairRequest) (s : Store B) (r : Option Text × Dict Text PairRequest)
      → (after_scan json written code req s r).1.state.approved ≡ s.state.approved
  unfolding save_locked
  after_scan-approved code req s (some found, pending) = refl
  after_scan-approved code req s (none, pending) = refl

  reject_found-approved :
      (code : Text) (s : Store B) (found : Option PairRequest)
      → (reject_found json written code s found).1.state.approved ≡ s.state.approved
  unfolding save_locked
  reject_found-approved code s none = refl
  reject_found-approved code s (some req) = refl

  after_clean-approved :
      (s : Store B) (r : ℕ × Dict Text PairRequest)
      → (after_clean json written s r).1.state.approved ≡ s.state.approved
  unfolding save_locked
  after_clean-approved s (zero, pending) = refl
  after_clean-approved s (suc n, pending) = refl

  approve_found-IsGranted :
      (now at : ℕ) (code by : Text) (s : Store B) (found : Option PairRequest)
      → ((req : PairRequest)
          → found ≡ some req
          → IsOpen code req.channel req.sender_id req.expires_at earlier)
      → GrantedIn earlier s.state.approved
      → GrantedIn
          ((written, approve_call now at code by) ∷ earlier)
          (approve_found json written now at code by s found).1.state.approved
  unfolding save_locked
  approve_found-IsGranted now at code by s none o h = λ d e. kept refl (h d e)
  approve_found-IsGranted now at code by s (some req) o h =
      elim (Bool-cases (ltb req.expires_at now)) [
        | inl late ↦ rw late (λ d e. kept refl (h d e))
        | inr in_time ↦ rw in_time (λ d e. elim (Bool-cases (request_key req == key)) [
          | inl same ↦
              let time : now ≤ req.expires_at = ground (arith, lt→ltb req.expires_at now) in
              granted (o req refl) time ((eq_iff (request_key req) key).0 same)
          | inr other ↦
              let old : get key s.state.approved ≡ some d =
                ground
                  (arith, get-put (request_key req) key (device_of req at by) s.state.approved) in
              kept refl (h d old)
        ])
      ]

  revoke_found-IsGranted :
      (channel sender : Text) (s : Store B) (found : Option ApprovedDevice)
      → get (device_key channel sender) s.state.approved ≡ found
      → GrantedIn earlier s.state.approved
      → GrantedIn
          ((written, revoke_call channel sender) ∷ earlier)
          (revoke_found json written (device_key channel sender) s found).1.state.approved
  unfolding save_locked
  revoke_found-IsGranted channel sender s none n h =
      λ d e. kept (ground (arith, eq_iff (device_key channel sender) key)) (h d e)
  revoke_found-IsGranted channel sender s (some device) n h = λ d e.
      kept (ground (arith, get-remove (device_key channel sender) key s.state.approved))
        (h d (ground (arith, get-remove (device_key channel sender) key s.state.approved)))

  apply_call-IsGranted :
      (c : StoreCall) (s : Store B)
      → ((code : Text) (req : PairRequest)
          → get code s.state.pending_requests ≡ some req
          → IsOpen code req.channel req.sender_id req.expires_at earlier)
      → GrantedIn earlier s.state.approved
      → GrantedIn ((written, c) ∷ earlier) (apply_call json written c s).state.approved
  unfolding generate_code approve reject revoke clean_expired
  apply_call-IsGranted (generate_call rand now created later channel sender chat) s o h =
      let code = generate_random_code rand in
      subst
        (GrantedIn ((written, generate_call rand now created later channel sender chat) ∷ earlier))
        (sym (
          after_scan-approved code (new_request code channel sender chat created later) s (
            scan_pending (device_key channel sender) now s.state.pending_requests
              s.state.pending_requests)))
        (λ d e. kept refl (h d e))
  apply_call-IsGranted (approve_call now at code by) s o h =
      approve_found-IsGranted now at code by s (get code s.state.pending_requests) (o code) h
  apply_call-IsGranted (reject_call code) s o h =
      subst (GrantedIn ((written, reject_call code) ∷ earlier))
        (sym (reject_found-approved code s (get code s.state.pending_requests)))
        (λ d e. kept refl (h d e))
  apply_call-IsGranted (revoke_call channel sender) s o h =
      revoke_found-IsGranted channel sender s (get (device_key channel sender) s.state.approved)
        refl h
  apply_call-IsGranted (clean_call now) s o h =
      subst (GrantedIn ((written, clean_call now) ∷ earlier))
        (sym (
          after_clean-approved s
            (clean_pending now s.state.pending_requests 0 s.state.pending_requests)))
        (λ d e. kept refl (h d e))

module _ {B : Type 0} (json : StoreJson B) where
  after_calls-device :
      (calls : List (Bool × StoreCall)) (key : Text) (d : ApprovedDevice)
      → get key (after_calls json calls).state.approved ≡ some d
      → IsGranted key calls
  unfolding after_calls new_store get
  after_calls-device [] key d e = ground arith
  after_calls-device ((written, c) ∷ earlier) key d e =
      apply_call-IsGranted json written earlier key c (after_calls json earlier)
        (after_calls-IsOpen json earlier) (λ d' e'. after_calls-device earlier key d' e') d e

  -- After any calls on an empty store, a sender is approved only if one of them approved a code
  -- that had been generated for a sender with the same key, neither approved nor rejected since and
  -- not expired, and none after it revoked that key.
  pub is_approved-IsGranted :
      (calls : List (Bool × StoreCall)) (channel sender : Text)
      → is_approved channel sender (after_calls json calls) ≡ true
      → IsGranted (device_key channel sender) calls
  unfolding is_approved
  is_approved-IsGranted calls channel sender e =
      elim (Option-cases
        (get (device_key channel sender) (after_calls json calls).state.approved)) [
          | inl n ↦ ground arith
          | inr (d, f) ↦ after_calls-device calls (device_key channel sender) d f
        ]
