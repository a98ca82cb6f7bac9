-- ===== src/Providers/Types.antt =====
-- pkg/providers/types.go: why a request failed, and the classified error.
use aetherclaw.Common.{ℕ, ◌≡◌, ◌↔◌, Bool, true, Key, ◌==◌, nat_beq, not, arith}
use aetherclaw.Common.Text.{Text, codes}

pub data FailoverReason : Type 0 where
  auth rate_limit billing timeout format overloaded unknown : FailoverReason

reason_code : FailoverReason → ℕ
reason_code auth = 0
reason_code rate_limit = 1
reason_code billing = 2
reason_code timeout = 3
reason_code format = 4
reason_code overloaded = 5
reason_code unknown = 6

unfoldable pub reason_beq : FailoverReason → FailoverReason → Bool
unfolding reason_code
reason_beq a b = nat_beq (reason_code a) (reason_code b)

pub reason_beq_iff : (a b : FailoverReason) → (reason_beq a b ≡ true) ↔ (a ≡ b)
unfolding reason_beq
reason_beq_iff a b = ground arith

instance abbrev pub reason_key : Key FailoverReason
reason_key = record { test = reason_beq; decides = reason_beq_iff }

-- What `err` may be: the two sentinels of package context, or an error with a message.
pub data GoError : Type 0 where
  canceled deadline_exceeded : GoError
  failed : Text → GoError

-- err.Error()
unfoldable pub error_text : GoError → Text
error_text canceled = codes "context canceled"
error_text deadline_exceeded = codes "context deadline exceeded"
error_text (failed message) = message

pub record FailoverError : Type 0 where
  pub reason : FailoverReason
  pub provider : Text
  pub model : Text
  pub status : ℕ
  pub wrapped : GoError

unfoldable pub is_retriable : FailoverError → Bool
is_retriable e = not (e.reason == format)
