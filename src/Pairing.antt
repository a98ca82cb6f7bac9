-- ===== src/Pairing.antt =====
-- pkg/pairing/pairing.go. `B` is the type of what the store's file holds; package json, the clock
-- and the random numbers are parameters, as is whether a file could be written.
pub mod Calls
pub mod Origin
pub mod Granted
pub mod Restart
mod Tests
use aetherclaw.Common.{
  ℕ, zero, suc, ◌+◌, ◌%◌, ◌⊎◌, inl, inr, Bool, true, false, ◌&&◌, Option, none, some, List, [], ◌∷◌,
  ◌++◌, ltb, if◌then◌else◌, ◌==◌, nat_key, length,
}
use aetherclaw.Common.Text.{Text, text_key, codes}
use aetherclaw.Common.Dict.{Dict, get, put, remove}

pub record PairRequest : Type 0 where
  pub code : Text
  pub channel : Text
  pub sender_id : Text
  pub chat_id : Text
  pub created_at : ℕ
  pub expires_at : ℕ

pub record ApprovedDevice : Type 0 where
  pub device_channel : Text
  pub device_sender : Text
  pub label : Text
  pub approved_at : ℕ
  pub approved_by : Text

pub record StoreData : Type 0 where
  pub pending_requests : Dict Text PairRequest
  pub approved : Dict Text ApprovedDevice

-- `store_file` is what store.json holds, `none` if there is none.
pub record Store (B : Type 0) : Type 0 where
  pub state : StoreData
  pub store_file : Option B

-- json.MarshalIndent and json.Unmarshal, with `none` for an error
pub record StoreJson (B : Type 0) : Type 0 where
  pub marshal_store : StoreData → Option B
  pub unmarshal_store : B → Option StoreData

pub data PairError : Type 0 where
  code_not_found : PairError
  code_expired : PairError
  device_not_found : PairError

-- "%s:%s"
abbrev pub device_key : Text → Text → Text
device_key channel sender = channel ++ b':' ∷ sender

-- 10 * time.Minute
abbrev pub code_lifetime : ℕ
code_lifetime = 600000000000

abbrev pub code_chars : Text
code_chars = codes "ABCDEFGHJKLMNPQRSTUVWXYZ23456789"

abbrev char_at : ℕ → Text → ℕ
char_at i [] = 0
char_at zero (c ∷ chars) = c
char_at (suc i) (c ∷ chars) = char_at i chars

abbrev drawn : ℕ → Option ℕ → ℕ
drawn i (some n) = n
drawn i none = i % length code_chars

-- the characters from position i on; `none` is an error of rand.Int
abbrev code_from : (ℕ → Option ℕ) → ℕ → ℕ → Text
code_from rand i zero = []
code_from rand i (suc n) = char_at (drawn i (rand i)) code_chars ∷ code_from rand (i + 1) n

unfoldable pub generate_random_code : (ℕ → Option ℕ) → Text
generate_random_code rand = code_from rand 0 6

abbrev pub empty_store : StoreData
empty_store = record { pending_requests = []; approved = [] }

abbrev pub or_empty : Option StoreData → StoreData
or_empty none = empty_store
or_empty (some sd) = sd

abbrev pub written_file : {B : Type 0} → Bool → Option B → Option B → Option B
written_file written old none = old
written_file written old (some bytes) = if written then some bytes else old

abbrev pub request_key : PairRequest → Text
request_key req = device_key req.channel req.sender_id

-- the loop over the pending requests: the code that it returns, and what is pending then
unfoldable pub scan_pending :
    Text → ℕ → Dict Text PairRequest → Dict Text PairRequest → Option Text × Dict Text PairRequest
scan_pending key now [] pending = (none, pending)
scan_pending key now ((code, req) ∷ rest) pending =
    let same = request_key req == key in
    let further = scan_pending key now rest (if same then remove code pending else pending) in
    if same && ltb now req.expires_at then (some code, pending) else further

abbrev pub new_request : Text → Text → Text → Text → ℕ → ℕ → PairRequest
new_request code channel sender chat created later = record {
  code = code;
  channel = channel;
  sender_id = sender;
  chat_id = chat;
  created_at = created;
  expires_at = later + code_lifetime;
}

abbrev pub device_of : PairRequest → ℕ → Text → ApprovedDevice
device_of req at by = record {
  device_channel = req.channel;
  device_sender = req.sender_id;
  label = [];
  approved_at = at;
  approved_by = by;
}

abbrev pub is_found : {A : Type 0} → Option A → Bool
is_found none = false
is_found (some a) = true

abbrev pub unexpired : ℕ → Dict Text PairRequest → List PairRequest
unexpired now [] = []
unexpired now ((code, req) ∷ rest) =
    let further = unexpired now rest in if ltb now req.expires_at then req ∷ further else further

abbrev pub devices : Dict Text ApprovedDevice → List ApprovedDevice
devices [] = []
devices ((key, device) ∷ rest) = device ∷ devices rest

-- the loop of CleanExpired: the count, and what is pending then
unfoldable pub clean_pending :
    ℕ → Dict Text PairRequest → ℕ → Dict Text PairRequest → ℕ × Dict Text PairRequest
clean_pending now [] count pending = (count, pending)
clean_pending now ((code, req) ∷ rest) count pending =
    let expired = ltb req.expires_at now in
    clean_pending now rest (if expired then count + 1 else count)
      (if expired then remove code pending else pending)

unfoldable pub is_approved : {B : Type 0} → Text → Text → Store B → Bool
is_approved channel sender s = is_found (get (device_key channel sender) s.state.approved)

abbrev pub list_pending : {B : Type 0} → ℕ → Store B → List PairRequest
list_pending now s = unexpired now s.state.pending_requests

abbrev pub list_approved : {B : Type 0} → Store B → List ApprovedDevice
list_approved s = devices s.state.approved

module _ {B : Type 0} (json : StoreJson B) where
  abbrev pub loaded : Option B → StoreData
  loaded none = empty_store
  loaded (some bytes) = or_empty (json.unmarshal_store bytes)

  -- load, on what ReadFile gives
  unfoldable pub new_store : Option B → Store B
  new_store file = record { state = loaded file; store_file = file }

  -- `written` says whether WriteFile and Rename succeed.
  unfoldable pub save_locked : Bool → StoreData → Store B → Store B
  save_locked written state s = record {
    state = state;
    store_file = written_file written s.store_file (json.marshal_store state);
  }

  abbrev pub after_scan :
      Bool → Text → PairRequest → Store B → Option Text × Dict Text PairRequest → Text × Store B
  after_scan written code req s (some found, pending) =
      (found, record s { state = record (s.state) { pending_requests = pending } })
  after_scan written code req s (none, pending) =
      (code, save_locked written (record (s.state) { pending_requests = put code req pending }) s)

  -- `now`, `created` and `later` are the times that it reads, in this order.
  unfoldable pub generate_code :
      Bool → (ℕ → Option ℕ) → ℕ → ℕ → ℕ → Text → Text → Text → Store B → Text × Store B
  generate_code written rand now created later channel sender chat s =
      let code = generate_random_code rand in
      after_scan written code (new_request code channel sender chat created later) s (
        scan_pending (device_key channel sender) now s.state.pending_requests
          s.state.pending_requests)

  abbrev pub approve_found :
      Bool
      → ℕ
      → ℕ
      → Text
      → Text
      → Store B
      → Option PairRequest
      → (PairError ⊎ ApprovedDevice) × Store B
  approve_found written now at code by s none = (inl code_not_found, s)
  approve_found written now at code by s (some req) =
      let rest = remove code s.state.pending_requests in
      if ltb req.expires_at now
      then (inl code_expired, save_locked written (record (s.state) { pending_requests = rest }) s)
      else let device = device_of req at by in
        let approved = put (request_key req) device s.state.approved in
        (
          inr device,
          save_locked written (record { pending_requests = rest; approved = approved }) s,
        )

  unfoldable pub approve :
      Bool → ℕ → ℕ → Text → Text → Store B → (PairError ⊎ ApprovedDevice) × Store B
  approve written now at code by s =
      approve_found written now at code by s (get code s.state.pending_requests)

  abbrev pub reject_found : Bool → Text → Store B → Option PairRequest → Option PairError × Store B
  reject_found written code s none = (some code_not_found, s)
  reject_found written code s (some req) = (
    none,
    save_locked written
        (record (s.state) { pending_requests = remove code s.state.pending_requests }) s,
  )

  unfoldable pub reject : Bool → Text → Store B → Option PairError × Store B
  reject written code s = reject_found written code s (get code s.state.pending_requests)

  abbrev pub revoke_found :
      Bool → Text → Store B → Option ApprovedDevice → Option PairError × Store B
  revoke_found written key s none = (some device_not_found, s)
  revoke_found written key s (some device) =
      (none, save_locked written (record (s.state) { approved = remove key s.state.approved }) s)

  unfoldable pub revoke : Bool → Text → Text → Store B → Option PairError × Store B
  revoke written channel sender s =
      let key = device_key channel sender in revoke_found written key s (get key s.state.approved)

  abbrev pub after_clean : Bool → Store B → ℕ × Dict Text PairRequest → ℕ × Store B
  after_clean written s (zero, pending) =
      (0, record s { state = record (s.state) { pending_requests = pending } })
  after_clean written s (suc n, pending) =
      (suc n, save_locked written (record (s.state) { pending_requests = pending }) s)

  unfoldable pub clean_expired : Bool → ℕ → Store B → ℕ × Store B
  clean_expired written now s =
      after_clean written s (clean_pending now s.state.pending_requests 0 s.state.pending_requests)
