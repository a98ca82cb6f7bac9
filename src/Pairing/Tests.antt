-- ===== src/Pairing/Tests.antt =====
-- A sender who asks for a code and is approved (pkg/pairing/pairing.go).
use aetherclaw.Common.{
  ℕ, ◌≡◌, refl, Bool, true, Option, none, some, List, [], ◌∷◌, nat_beq, if◌then◌else◌, nat_key,
}
use aetherclaw.Common.Text.{text_key, codes, text_beq}
use aetherclaw.Common.Dict.{get, put, remove}
use aetherclaw.Pairing.{
  StoreData, StoreJson, device_key, generate_random_code, new_store, save_locked, scan_pending,
  generate_code, approve, is_approved,
}
use aetherclaw.Pairing.Calls.{StoreCall, generate_call, approve_call, after_calls, IsGranted}
use aetherclaw.Pairing.Granted.{is_approved-IsGranted}
use aetherclaw.Pairing.Restart.{is_approved-restart}

abbrev plain_json : StoreJson StoreData
plain_json = record { marshal_store = λ sd. some sd; unmarshal_store = λ sd. some sd }

abbrev draws : ℕ → Option ℕ
draws i = if nat_beq i 0 then none else some 1

drawn_code : generate_random_code draws ≡ codes "ABBBBB"
unfolding generate_random_code
drawn_code = refl

abbrev calls : List (Bool × StoreCall)
calls =
    (true, approve_call 7 8 (codes "ABBBBB") (codes "cli"))
    ∷ (true, generate_call draws 1 2 3 (codes "telegram") (codes "12") (codes "99"))
    ∷ []

is_approved-IsGranted_example : IsGranted (device_key (codes "telegram") (codes "12")) calls
unfolding after_calls new_store save_locked scan_pending generate_code approve is_approved
    generate_random_code get put remove text_beq
is_approved-IsGranted_example =
    is_approved-IsGranted plain_json calls (codes "telegram") (codes "12") refl

is_approved-restart_example :
    is_approved
      (codes "telegram")
      (codes "12")
      (new_store plain_json (after_calls plain_json calls).store_file)
    ≡ is_approved (codes "telegram") (codes "12") (after_calls plain_json calls)
is_approved-restart_example =
    is_approved-restart plain_json (λ sd. (sd, refl, refl)) calls (codes "telegram") (codes "12")
      refl
