-- ===== src/Pairing/Origin.antt =====
-- Where an approval comes from (pkg/pairing/pairing.go).
use aetherclaw.Common.{
  ℕ, zero, suc, ◌+◌, ◌≡◌, refl, sym, subst, inl, inr, Bool, true, false, ◌&&◌, Option, none, some,
  List, [], ◌∷◌, arith, ltb, if◌then◌else◌, ◌==◌, nat_key, eq_iff, Bool-cases,
}
use aetherclaw.Common.Text.{Text, text_key}
use aetherclaw.Common.Dict.{Dict, get, remove, get-put, get-remove}
use aetherclaw.Pairing.{
  PairRequest, ApprovedDevice, Store, StoreJson, device_key, request_key, generate_random_code,
  new_store, save_locked, scan_pending, new_request, after_scan, generate_code, approve_found,
  approve, reject_found, reject, revoke_found, revoke, clean_pending, after_clean, clean_expired,
}
use aetherclaw.Pairing.Calls.{
  StoreCall, generate_call, approve_call, reject_call, revoke_call, clean_call, apply_call,
  after_calls, closes, IsOpen, generated, still,
}

-- every entry of the first map is one of the second
abbrev Within : {V : Type 0} → Dict Text V → Dict Text V → Type 0
Within {V = V} m m' = (k : Text) (v : V) → get k m ≡ some v → get k m' ≡ some v

remove-Within : {V : Type 0} → (k : Text) (m : Dict Text V) → Within (remove k m) m
remove-Within k m j v e = ground (arith, get-remove k j m)

removed-get :
    {V : Type 0}
    → (k j : Text) (m : Dict Text V) (v : V) → get j (remove k m) ≡ some v
    → (k == j) ≡ false
removed-get k j m v e = ground (arith, get-remove k j m)

removed_if-Within :
    {V : Type 0} → (b : Bool) (k : Text) (m : Dict Text V) → Within (if b then remove k m else m) m
removed_if-Within true k m = remove-Within k m
removed_if-Within false k m = λ j v e. e

if-Within :
    {V : Type 0}
    → (b : Bool) (r r' : Option Text × Dict Text V) (m : Dict Text V) → Within r.1 m
    → Within r'.1 m
    → Within (if b then r else r').1 m
if-Within true r r' m h h' = h
if-Within false r r' m h h' = h'

scan_pending-Within :
    (key : Text) (now : ℕ) (entries pending : Dict Text PairRequest)
    → Within (scan_pending key now entries pending).1 pending
unfolding scan_pending
scan_pending-Within key now [] pending = λ k v e. e
scan_pending-Within key now ((code, req) ∷ rest) pending =
    let same = request_key req == key in
    let left = if same then remove code pending else pending in
    if-Within (same && ltb now req.expires_at) (some code, pending) (scan_pending key now rest left)
      pending (λ k v e. e)
      (λ k v e.
        removed_if-Within same code pending k v (scan_pending-Within key now rest left k v e))

clean_pending-Within :
    (now : ℕ) (entries : Dict Text PairRequest) (count : ℕ) (pending : Dict Text PairRequest)
    → Within (clean_pending now entries count pending).1 pending
unfolding clean_pending
clean_pending-Within now [] count pending k v e = e
clean_pending-Within now ((code, req) ∷ rest) count pending k v e =
    let expired = ltb req.expires_at now in
    removed_if-Within expired code pending k v (
      clean_pending-Within now rest (if expired then count + 1 else count)
        (if expired then remove code pending else pending) k v e)

module _ {B : Type 0} (json : StoreJson B) (written : Bool)
    (earlier : List (Bool × StoreCall)) where
  -- each pending request is open, as the calls say
  abbrev OpenAll : List (Bool × StoreCall) → Dict Text PairRequest → Type 0
  OpenAll calls pending =
      (code : Text) (req : PairRequest)
      → get code pending ≡ some req
      → IsOpen code req.channel req.sender_id req.expires_at calls

  after_scan-IsOpen :
      (rand : ℕ → Option ℕ) (now created later : ℕ) (channel sender chat : Text) (s : Store B)
      → (r : Option Text × Dict Text PairRequest) → Within r.1 s.state.pending_requests
      → OpenAll earlier s.state.pending_requests
      → let code = generate_random_code rand in
        OpenAll
          ((written, generate_call rand now created later channel sender chat) ∷ earlier)
          (after_scan json written code
            (new_request code channel sender chat created later)
            s
            r).1.state.pending_requests
  unfolding save_locked
  after_scan-IsOpen rand now created later channel sender chat s (some found, pending) w h =
      λ code req e. still refl (h code req (w code req e))
  after_scan-IsOpen rand now created later channel sender chat s (none, pending) w h = λ code req e.
      elim (Bool-cases (generate_random_code rand == code)) [
        | inl same ↦
            let new = new_request (generate_random_code rand) channel sender chat created later in
            let it : req ≡ new =
              ground (arith, get-put (generate_random_code rand) code new pending) in
            rw it (generated ((eq_iff (generate_random_code rand) code).0 same) refl)
        | inr other ↦
            let old : get code pending ≡ some req = ground (
              arith,
              get-put (generate_random_code rand) code
                  (new_request (generate_random_code rand) channel sender chat created later)
                  pending,
            ) in
            still refl (h code req (w code req old))
      ]

  removed-IsOpen :
      (c : StoreCall) (other : Text) (pending : Dict Text PairRequest)
      → ((code : Text) → (other == code) ≡ false → closes code c ≡ false)
      → OpenAll earlier pending
      → OpenAll ((written, c) ∷ earlier) (remove other pending)
  removed-IsOpen c other pending closed h code req e =
      still (closed code (removed-get other code pending req e))
        (h code req (remove-Within other pending code req e))

  missing-IsOpen :
      (c : StoreCall) (other : Text) (pending : Dict Text PairRequest)
      → ((code : Text) → (other == code) ≡ false → closes code c ≡ false)
      → get other pending ≡ none
      → OpenAll earlier pending
      → OpenAll ((written, c) ∷ earlier) pending
  missing-IsOpen c other pending closed n h code req e =
      still (closed code (ground (arith, eq_iff other code))) (h code req e)

  approve_found-IsOpen :
      (now at : ℕ) (code by : Text) (s : Store B) (found : Option PairRequest)
      → get code s.state.pending_requests ≡ found
      → OpenAll earlier s.state.pending_requests
      → OpenAll
          ((written, approve_call now at code by) ∷ earlier)
          (approve_found json written now at code by s found).1.state.pending_requests
  unfolding save_locked
  approve_found-IsOpen now at code by s none e h =
      missing-IsOpen (approve_call now at code by) code s.state.pending_requests (λ other d. d) e h
  approve_found-IsOpen now at code by s (some req) e h =
      elim (Bool-cases (ltb req.expires_at now)) [
        | inl late ↦ rw late (
            removed-IsOpen (approve_call now at code by) code s.state.pending_requests
              (λ other d. d) h)
        | inr in_time ↦ rw in_time (
            removed-IsOpen (approve_call now at code by) code s.state.pending_requests
              (λ other d. d) h)
      ]

  reject_found-IsOpen :
      (code : Text) (s : Store B) (found : Option PairRequest)
      → get code s.state.pending_requests ≡ found
      → OpenAll earlier s.state.pending_requests
      → OpenAll
          ((written, reject_call code) ∷ earlier)
          (reject_found json written code s found).1.state.pending_requests
  unfolding save_locked
  reject_found-IsOpen code s none e h =
      missing-IsOpen (reject_call code) code s.state.pending_requests (λ other d. d) e h
  reject_found-IsOpen code s (some req) e h =
      removed-IsOpen (reject_call code) code s.state.pending_requests (λ other d. d) h

  revoke_found-pending :
      (key : Text) (s : Store B) (found : Option ApprovedDevice)
      → (revoke_found json written key s found).1.state.pending_requests ≡ s.state.pending_requests
  unfolding save_locked
  revoke_found-pending key s none = refl
  revoke_found-pending key s (some device) = refl

  after_clean-pending :
      (s : Store B) (r : ℕ × Dict Text PairRequest)
      → (after_clean json written s r).1.state.pending_requests ≡ r.1
  unfolding save_locked
  after_clean-pending s (zero, pending) = refl
  after_clean-pending s (suc n, pending) = refl

  apply_call-IsOpen :
      (c : StoreCall) (s : Store B)
      → OpenAll earlier s.state.pending_requests
      → OpenAll ((written, c) ∷ earlier) (apply_call json written c s).state.pending_requests
  unfolding generate_code approve reject revoke clean_expired
  apply_call-IsOpen (generate_call rand now created later channel sender chat) s h =
      after_scan-IsOpen rand now created later channel sender chat s
        (scan_pending (device_key channel sender) now s.state.pending_requests
          s.state.pending_requests)
        (scan_pending-Within (device_key channel sender) now s.state.pending_requests
          s.state.pending_requests)
        h
  apply_call-IsOpen (approve_call now at code by) s h =
      approve_found-IsOpen now at code by s (get code s.state.pending_requests) refl h
  apply_call-IsOpen (reject_call code) s h =
      reject_found-IsOpen code s (get code s.state.pending_requests) refl h
  apply_call-IsOpen (revoke_call channel sender) s h =
      let key = device_key channel sender in
      subst (OpenAll ((written, revoke_call channel sender) ∷ earlier))
        (sym (revoke_found-pending key s (get key s.state.approved)))
        (λ code req e. still refl (h code req e))
  apply_call-IsOpen (clean_call now) s h =
      let r = clean_pending now s.state.pending_requests 0 s.state.pending_requests in
      subst (OpenAll ((written, clean_call now) ∷ earlier)) (sym (after_clean-pending s r))
        (λ code req e. still refl (
          h code req (
            clean_pending-Within now s.state.pending_requests 0 s.state.pending_requests code req
              e)))

module _ {B : Type 0} (json : StoreJson B) where
  -- Each pending request is one that a call generated, and no call since has approved or rejected
  -- its code.
  pub after_calls-IsOpen :
      (calls : List (Bool × StoreCall)) (code : Text) (req : PairRequest)
      → get code (after_calls json calls).state.pending_requests ≡ some req
      → IsOpen code req.channel req.sender_id req.expires_at calls
  unfolding after_calls new_store get
  after_calls-IsOpen [] code req e = ground arith
  after_calls-IsOpen ((written, c) ∷ earlier) code req e =
      apply_call-IsOpen json written earlier c (after_calls json earlier)
        (after_calls-IsOpen earlier) code req e
