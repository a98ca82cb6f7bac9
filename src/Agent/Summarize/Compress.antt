-- ===== src/Agent/Summarize/Compress.antt =====
-- What an emergency compression keeps (pkg/agent/loop.go).
use aetherclaw.Common.{
  ℕ, suc, ◌-◌, ◌/◌, ◌≤◌, ◌<◌, ◌≡◌, refl, sym, ap, ◌∙◌, subst, Bool, false, Option, some, List, ◌∷◌,
  ◌++◌, arith, leb, leb→le, nat_key, eq_refl, length, take, drop, length-drop, length-take,
  drop-append, take-drop,
}
use aetherclaw.Common.Text.{Text, text_key}
use aetherclaw.Common.Dict.{Dict, get, get-put}
use aetherclaw.Providers.ToolCall.{Message}
use aetherclaw.Session.Manager.{
  Session, SessionManager, Node, SessionJson, with_session, get_history, set_history,
}
use aetherclaw.Agent.Summarize.{compression_note, compressed, force_compression}

drop-parts :
    {A : Type 0}
    → (n k : ℕ) (xs : List A) → n ≤ k
    → k ≤ length xs
    → drop n (take k xs) ++ drop k xs ≡ drop n xs
drop-parts n k xs h l =
    sym (drop-append n (take k xs) (drop k xs) (omega (arith, length-take k xs)))
    ∙ ap (drop n) (take-drop k xs)

compressed-drop :
    {A : Type 0}
    → (count_text : ℕ → Text) (first : Message A) (rest : List (Message A))
    → let mid = (length rest - 1) / 2 in
      compressed count_text (first ∷ rest)
      ≡ record first { content = first.content ++ compression_note count_text mid } ∷ drop mid rest
compressed-drop count_text first rest =
    let k : length (take (length rest - 1) rest) ≡ length rest - 1 =
      omega (arith, length-take (length rest - 1) rest) in
    rw (k, drop-parts ((length rest - 1) / 2) (length rest - 1) rest (omega arith) (omega arith))
      refl

pub get_history-found :
    {A : Type 0}
    → (key : Text) (sm : SessionManager A) (s : Session A) → get key sm.sessions ≡ some s
    → get_history key sm ≡ s.messages
unfolding get_history
get_history-found key sm s e = rw e refl

pub get_history-put :
    {A : Type 0}
    → (key : Text) (s : Session A) (sm : SessionManager A)
    → get_history key (with_session sm key s) ≡ s.messages
unfolding get_history
get_history-put key s sm = rw (get-put key key s sm.sessions, eq_refl key) refl

set_history-get :
    {A : Type 0}
    → (now : ℕ) (key : Text) (history : List (Message A)) (sm : SessionManager A) → (s : Session A)
    → get key sm.sessions ≡ some s
    → get_history key (set_history now key history sm) ≡ history
unfolding set_history
set_history-get now key history sm s e =
    rw e (get_history-put key (record s { messages = history; updated = now }) sm)

module _ {A B E : Type 0} (json : SessionJson A B) (is_local : Text → Bool)
    (steps : List (Option E)) where
  -- A compression of a session with more than four messages keeps the first one, with a note of how
  -- many were dropped, and all messages from the middle on; at least one message is dropped.
  pub force_compression-drop :
      (count_text : ℕ → Text) (now : ℕ) (key : Text) (sm : SessionManager A)
      → (disk : Dict Text (Node B)) (s : Session A) (first : Message A) (rest : List (Message A))
      → get key sm.sessions ≡ some s
      → s.messages ≡ first ∷ rest
      → 4 < length s.messages
      → let mid = (length rest - 1) / 2 in
        let history =
          get_history key (force_compression json is_local steps count_text now key (sm, disk)).0 in
        (history
          ≡ record first { content = first.content ++ compression_note count_text mid }
            ∷ drop mid rest)
        × (length history < length s.messages)
  unfolding force_compression
  force_compression-drop count_text now key sm disk s first rest e m long =
      let history = get_history key sm in
      let same : history ≡ first ∷ rest = get_history-found key sm s e ∙ m in
      let count : length history ≡ length s.messages = ap length same ∙ sym (ap length m) in
      let more : leb (length history) 4 ≡ false =
        ground (arith, leb→le (length history) 4, count, long) in
      let kept = set_history-get now key (compressed count_text history) sm s e in
      let total : length s.messages ≡ suc (length rest) = ap length m in
      let shorter : suc (length (drop ((length rest - 1) / 2) rest)) < length s.messages =
        omega (arith, length-drop ((length rest - 1) / 2) rest, total, long) in
      let result =
        rw more kept ∙ ap (compressed count_text) same ∙ compressed-drop count_text first rest in
      (result, subst (λ h. length h < length s.messages) (sym result) shorter)
