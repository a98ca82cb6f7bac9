-- ===== src/Tools/LoopDetector/Counts.antt =====
-- What the three engines of pkg/tools/loop_detector.go count, as relations on the history, which has
-- its newest record first.
use aetherclaw.Common.{ℕ, suc, ◌≤◌, ◌≡◌, ◌≢◌, ◌⊎◌, [], ◌∷◌, ◌++◌, nat_key}
use aetherclaw.Common.Text.{Text, text_key}
use aetherclaw.Tools.LoopDetector.{ToolCallRecord, History}

abbrev pub IsCall : Text → Text → ToolCallRecord → Type 0
IsCall tool args r = (r.tool_name ≡ tool) × (r.args_hash ≡ args)

-- exactly n records are of the call
pub data Occurs (tool args : Text) : ℕ → History → Type 0 where
  nowhere : Occurs tool args 0 []
  here :
      {n : ℕ}
      → {h : History} → (r : ToolCallRecord) → IsCall tool args r
      → Occurs tool args n h
      → Occurs tool args (suc n) (r ∷ h)
  elsewhere :
      {n : ℕ}
      → {h : History} → (r : ToolCallRecord) → (IsCall tool args r → ⊥)
      → Occurs tool args n h
      → Occurs tool args n (r ∷ h)

-- the result of the newest record of the call that has one
pub data LastResult (tool args : Text) : Text → History → Type 0 where
  newest :
      {h : History}
      → (r : ToolCallRecord) → IsCall tool args r
      → r.result_hash ≢ []
      → LastResult tool args r.result_hash (r ∷ h)
  older :
      {result : Text}
      → {h : History} → (r : ToolCallRecord) → (IsCall tool args r → ⊥) ⊎ (r.result_hash ≡ [])
      → LastResult tool args result h
      → LastResult tool args result (r ∷ h)

-- no record of the call has a result
pub data NoResult (tool args : Text) : History → Type 0 where
  empty : NoResult tool args []
  unanswered :
      {h : History}
      → (r : ToolCallRecord) → (IsCall tool args r → ⊥) ⊎ (r.result_hash ≡ [])
      → NoResult tool args h
      → NoResult tool args (r ∷ h)

-- The n newest records, and no more, are of the call and have this result or none.
pub data Unchanged (tool args result : Text) : ℕ → History → Type 0 where
  oldest : Unchanged tool args result 0 []
  changed :
      {h : History}
      → (r : ToolCallRecord)
      → (IsCall tool args r → ⊥) ⊎ ((r.result_hash ≢ []) × (r.result_hash ≢ result))
      → Unchanged tool args result 0 (r ∷ h)
  unchanged :
      {n : ℕ}
      → {h : History} → (r : ToolCallRecord) → IsCall tool args r
      → (r.result_hash ≡ []) ⊎ (r.result_hash ≡ result)
      → Unchanged tool args result n h
      → Unchanged tool args result (suc n) (r ∷ h)

pub data Streak (tool args : Text) (n : ℕ) (h : History) : Type 0 where
  no_result : NoResult tool args h → n ≡ 0 → Streak tool args n h
  same_result :
      (result : Text)
      → LastResult tool args result h
      → Unchanged tool args result n h
      → Streak tool args n h

abbrev pub joined : Text → Text → Text
joined tool args = tool ++ b':' ∷ args

-- The n newest records, and no more, have these two signatures in turn, the first one first.
pub data Alternates : Text → Text → ℕ → History → Type 0 where
  over : {x y : Text} → Alternates x y 0 []
  broken :
      {x y : Text}
      → {h : History} → (r : ToolCallRecord) → joined r.tool_name r.args_hash ≢ x
      → Alternates x y 0 (r ∷ h)
  continued :
      {x y : Text}
      → {n : ℕ} → {h : History} → (r : ToolCallRecord) → joined r.tool_name r.args_hash ≡ x
      → Alternates y x n h
      → Alternates x y (suc n) (r ∷ h)

-- The n newest records, and no more, alternate with a call of this signature, of which they are the
-- other one first; of fewer than two records none do.
pub data PingPong (current : Text) : ℕ → History → Type 0 where
  no_record : PingPong current 0 []
  one_record : (r : ToolCallRecord) → PingPong current 0 (r ∷ [])
  not_alternating :
      {h : History}
      → (r s : ToolCallRecord) → joined r.tool_name r.args_hash ≡ current
      → PingPong current 0 (r ∷ s ∷ h)
  alternating :
      {n : ℕ}
      → {h : History} → (r s : ToolCallRecord) → joined r.tool_name r.args_hash ≢ current
      → Alternates current (joined r.tool_name r.args_hash) n (s ∷ h)
      → PingPong current (suc n) (r ∷ s ∷ h)

-- Of n alternating records the four newest have results, and each side has the same one twice.
abbrev pub NoProgress : ℕ → History → Type 0
NoProgress n [] = ⊥
NoProgress n (r0 ∷ []) = ⊥
NoProgress n (r0 ∷ r1 ∷ []) = ⊥
NoProgress n (r0 ∷ r1 ∷ r2 ∷ []) = ⊥
NoProgress n (r0 ∷ r1 ∷ r2 ∷ r3 ∷ h) =
    (4 ≤ n)
    × (r0.result_hash ≢ [])
    × (r1.result_hash ≢ [])
    × (r0.result_hash ≡ r2.result_hash)
    × (r1.result_hash ≡ r3.result_hash)
