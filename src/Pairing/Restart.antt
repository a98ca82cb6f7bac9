-- ===== src/Pairing/Restart.antt =====
-- A store that is started again on its file (pkg/pairing/pairing.go).
use aetherclaw.Common.{
  ℕ, zero, suc, ◌≡◌, refl, inl, inr, Bool, true, false, ◌&&◌, Option, none, some, List, [], ◌∷◌,
  arith, ltb, nat_key, Bool-cases,
}
use aetherclaw.Common.Text.{Text, text_key}
use aetherclaw.Common.Dict.{Dict, get}
use aetherclaw.Pairing.{
  PairRequest, ApprovedDevice, StoreData, Store, StoreJson, device_key, loaded, new_store,
  save_locked, scan_pending, after_scan, generate_code, approve_found, approve, reject_found,
  reject, is_approved, revoke_found, revoke, clean_pending, after_clean, clean_expired,
}
use aetherclaw.Pairing.Calls.{
  StoreCall, generate_call, approve_call, reject_call, revoke_call, clean_call, apply_call,
  after_calls,
}

-- package json can write every store, and reads back what it wrote.
abbrev pub ReadsBack : {B : Type 0} → StoreJson B → Type 0
ReadsBack {B = B} json =
    (sd : StoreData)
    → (bytes : B) × (json.marshal_store sd ≡ some bytes) × (json.unmarshal_store bytes ≡ some sd)

-- every one of the calls writes the file
abbrev pub all_written : List (Bool × StoreCall) → Bool
all_written [] = true
all_written ((written, c) ∷ earlier) = written && all_written earlier

module _ {B : Type 0} (json : StoreJson B) (reads : ReadsBack json) where
  -- the approvals of the file are those in memory
  abbrev IsKept : Store B → Type 0
  IsKept s = (loaded json s.store_file).approved ≡ s.state.approved

  save_locked-IsKept : (state : StoreData) (s : Store B) → IsKept (save_locked json true state s)
  unfolding save_locked
  save_locked-IsKept state s = let (bytes, m, u) = reads state in rw (m, u) refl

  after_scan-IsKept :
      (code : Text) (req : PairRequest) (s : Store B) (r : Option Text × Dict Text PairRequest)
      → IsKept s
      → IsKept (after_scan json true code req s r).1
  after_scan-IsKept code req s (some found, pending) k = k
  after_scan-IsKept code req s (none, pending) k = save_locked-IsKept _ s

  approve_found-IsKept :
      (now at : ℕ) (code by : Text) (s : Store B) (found : Option PairRequest)
      → IsKept s
      → IsKept (approve_found json true now at code by s found).1
  approve_found-IsKept now at code by s none k = k
  approve_found-IsKept now at code by s (some req) k = elim (Bool-cases (ltb req.expires_at now)) [
    | inl late ↦ rw late (save_locked-IsKept _ s)
    | inr in_time ↦ rw in_time (save_locked-IsKept _ s)
  ]

  reject_found-IsKept :
      (code : Text) (s : Store B) (found : Option PairRequest)
      → IsKept s
      → IsKept (reject_found json true code s found).1
  reject_found-IsKept code s none k = k
  reject_found-IsKept code s (some req) k = save_locked-IsKept _ s

  revoke_found-IsKept :
      (key : Text) (s : Store B) (found : Option ApprovedDevice)
      → IsKept s
      → IsKept (revoke_found json true key s found).1
  revoke_found-IsKept key s none k = k
  revoke_found-IsKept key s (some device) k = save_locked-IsKept _ s

  after_clean-IsKept :
      (s : Store B) (r : ℕ × Dict Text PairRequest)
      → IsKept s
      → IsKept (after_clean json true s r).1
  after_clean-IsKept s (zero, pending) k = k
  after_clean-IsKept s (suc n, pending) k = save_locked-IsKept _ s

  apply_call-IsKept : (c : StoreCall) (s : Store B) → IsKept s → IsKept (apply_call json true c s)
  unfolding generate_code approve reject revoke clean_expired
  apply_call-IsKept (generate_call rand now created later channel sender chat) s k =
      after_scan-IsKept _ _ s
        (scan_pending (device_key channel sender) now s.state.pending_requests
          s.state.pending_requests)
        k
  apply_call-IsKept (approve_call now at code by) s k =
      approve_found-IsKept now at code by s (get code s.state.pending_requests) k
  apply_call-IsKept (reject_call code) s k =
      reject_found-IsKept code s (get code s.state.pending_requests) k
  apply_call-IsKept (revoke_call channel sender) s k =
      let key = device_key channel sender in revoke_found-IsKept key s (get key s.state.approved) k
  apply_call-IsKept (clean_call now) s k =
      after_clean-IsKept s (clean_pending now s.state.pending_requests 0 s.state.pending_requests) k

  after_calls-IsKept :
      (calls : List (Bool × StoreCall)) → all_written calls ≡ true → IsKept (after_calls json calls)
  unfolding after_calls new_store
  after_calls-IsKept [] w = refl
  after_calls-IsKept ((true, c) ∷ earlier) w =
      apply_call-IsKept c (after_calls json earlier) (after_calls-IsKept earlier w)
  after_calls-IsKept ((false, c) ∷ earlier) w = ground arith

  -- When package json writes every store and reads it back: after any calls on an empty store that
  -- all write its file, a store that is started again on that file approves the same senders.
  pub is_approved-restart :
      (calls : List (Bool × StoreCall)) (channel sender : Text)
      → all_written calls ≡ true
      → is_approved channel sender (new_store json (after_calls json calls).store_file)
        ≡ is_approved channel sender (after_calls json calls)
  unfolding is_approved new_store
  is_approved-restart calls channel sender w = rw (after_calls-IsKept calls w) refl
