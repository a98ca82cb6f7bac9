-- ===== src/Pairing/Calls.antt =====
-- Sequences of calls, and what they open and grant (pkg/pairing/pairing.go).
use aetherclaw.Common.{ℕ, ◌+◌, ◌≤◌, ◌≡◌, Bool, false, Option, none, List, [], ◌∷◌, ◌==◌, nat_key}
use aetherclaw.Common.Text.{Text, text_key}
use aetherclaw.Pairing.{
  Store, StoreJson, device_key, code_lifetime, generate_random_code, new_store, generate_code,
  approve, reject, revoke, clean_expired,
}

-- A call of a method that changes the store, with what it is given, what it reads from the clock and
-- the random numbers, and whether the file is written.
pub data StoreCall : Type 0 where
  generate_call : (ℕ → Option ℕ) → ℕ → ℕ → ℕ → Text → Text → Text → StoreCall
  approve_call : ℕ → ℕ → Text → Text → StoreCall
  reject_call : Text → StoreCall
  revoke_call : Text → Text → StoreCall
  clean_call : ℕ → StoreCall

module _ {B : Type 0} (json : StoreJson B) where
  abbrev pub apply_call : Bool → StoreCall → Store B → Store B
  apply_call written (generate_call rand now created later channel sender chat) s =
      (generate_code json written rand now created later channel sender chat s).1
  apply_call written (approve_call now at code by) s = (approve json written now at code by s).1
  apply_call written (reject_call code) s = (reject json written code s).1
  apply_call written (revoke_call channel sender) s = (revoke json written channel sender s).1
  apply_call written (clean_call now) s = (clean_expired json written now s).1

  -- the calls, the last one first, and whether each one writes the file
  unfoldable pub after_calls : List (Bool × StoreCall) → Store B
  after_calls [] = new_store json none
  after_calls ((written, c) ∷ earlier) = apply_call written c (after_calls earlier)

-- the calls that remove a code, and those that remove an approval
abbrev pub closes : Text → StoreCall → Bool
closes code (generate_call rand now created later channel sender chat) = false
closes code (approve_call now at other by) = other == code
closes code (reject_call other) = other == code
closes code (revoke_call channel sender) = false
closes code (clean_call now) = false

abbrev pub revokes : Text → StoreCall → Bool
revokes key (generate_call rand now created later channel sender chat) = false
revokes key (approve_call now at other by) = false
revokes key (reject_call other) = false
revokes key (revoke_call channel sender) = device_key channel sender == key
revokes key (clean_call now) = false

-- Of the calls, the last one first, one generated the code for a sender, until a time, and none
-- after it approved or rejected that code.
pub data IsOpen (code channel sender : Text) (expires : ℕ) : List (Bool × StoreCall) → Type 0 where
  generated :
      {written : Bool}
      → {rand : ℕ → Option ℕ} → {now created later : ℕ} → {chat : Text}
      → {earlier : List (Bool × StoreCall)} → generate_random_code rand ≡ code
      → expires ≡ later + code_lifetime
      → IsOpen code channel sender expires
          ((written, generate_call rand now created later channel sender chat) ∷ earlier)
  still :
      {written : Bool}
      → {c : StoreCall} → {earlier : List (Bool × StoreCall)} → closes code c ≡ false
      → IsOpen code channel sender expires earlier
      → IsOpen code channel sender expires ((written, c) ∷ earlier)

-- Of the calls, one approved an open code of a sender with this key before it expired, and none
-- after it revoked that key.
pub data IsGranted (key : Text) : List (Bool × StoreCall) → Type 0 where
  granted :
      {written : Bool}
      → {now at : ℕ} → {code by channel sender : Text} → {expires : ℕ}
      → {earlier : List (Bool × StoreCall)} → IsOpen code channel sender expires earlier
      → now ≤ expires
      → device_key channel sender ≡ key
      → IsGranted key ((written, approve_call now at code by) ∷ earlier)
  kept :
      {written : Bool}
      → {c : StoreCall} → {earlier : List (Bool × StoreCall)} → revokes key c ≡ false
      → IsGranted key earlier
      → IsGranted key ((written, c) ∷ earlier)
