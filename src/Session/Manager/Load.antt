-- ===== src/Session/Manager/Load.antt =====
-- What loadSessions makes of a directory (pkg/session/manager.go).
use aetherclaw.Common.{
  ◌≡◌, refl, sym, ap, ◌∙◌, subst, inl, inr, false, Option, none, some, [], ◌∷◌, arith,
  if◌then◌else◌, ◌==◌, nat_key, eq_iff, Bool-cases,
}
use aetherclaw.Common.Text.{Text, text_key, codes}
use aetherclaw.Common.Dict.{Dict, get, put, get-put, NamedOnce}
use aetherclaw.Session.Manager.{Session, Node, SessionJson}
use aetherclaw.Session.Manager.Files.{
  sanitize_filename, session_file, ext, read_entry, load_session, load_sessions,
}

-- the name of the file of a session
abbrev pub session_name : Text → Text
session_name key = session_file (sanitize_filename key)

pub ext-session_file : (filename : Text) → ext (session_file filename) ≡ codes ".json"
unfolding ext
ext-session_file [] = refl
ext-session_file (c ∷ filename) = rw (ext-session_file filename) refl

abbrev pub or_else : {A : Type 0} → Option A → Option A → Option A
or_else none b = b
or_else (some a) b = some a

module _ {A B : Type 0} (json : SessionJson A B) where
  -- The sessions that the files of a directory hold are in the files of their keys.
  abbrev pub FiledByKey : Dict Text (Node B) → Type 0
  FiledByKey [] = Unit
  FiledByKey ((name, node) ∷ rest) =
      ((s : Session A) → read_entry json name node ≡ some s → name ≡ session_name s.key)
      × FiledByKey rest

  pub put-FiledByKey :
      (name : Text) (node : Node B) (disk : Dict Text (Node B))
      → ((s : Session A) → read_entry json name node ≡ some s → name ≡ session_name s.key)
      → FiledByKey disk
      → FiledByKey (put name node disk)
  unfolding put
  put-FiledByKey name node [] h filed = (h, tt)
  put-FiledByKey name node ((j, w) ∷ rest) h (g, filed) = elim (Bool-cases (j == name)) [
    | inl e ↦ rw e (h, filed)
    | inr e ↦ rw e (g, put-FiledByKey name node rest h filed)
  ]

  abbrev pub own_session : Text → Option (Session A) → Option (Session A)
  own_session key none = none
  own_session key (some s) = if s.key == key then some s else none

  abbrev pub own_node : Text → Option (Node B) → Option (Session A)
  own_node key none = none
  own_node key (some node) = own_session key (read_entry json (session_name key) node)

  load_session-own :
      (key : Text) (found : Option (Session A)) (sessions : Dict Text (Session A))
      → get key (load_session json found sessions)
        ≡ or_else (own_session key found) (get key sessions)
  load_session-own key none sessions = refl
  load_session-own key (some s) sessions = elim (Bool-cases (s.key == key)) [
    | inl e ↦ rw (get-put s.key key s sessions, e) refl
    | inr e ↦ rw (get-put s.key key s sessions, e) refl
  ]

  load_session-other :
      (key name : Text) (found : Option (Session A)) (sessions : Dict Text (Session A))
      → (name == session_name key) ≡ false
      → ((s : Session A) → found ≡ some s → name ≡ session_name s.key)
      → get key (load_session json found sessions) ≡ get key sessions
  load_session-other key name none sessions e h = refl
  load_session-other key name (some s) sessions e h = elim (Bool-cases (s.key == key)) [
    | inl same ↦
        let named : name ≡ session_name key =
          h s refl ∙ ap session_name ((eq_iff s.key key).0 same) in
        ground (arith, eq_iff name (session_name key))
    | inr other ↦ rw (get-put s.key key s sessions, other) refl
  ]

  pub load_sessions-own :
      (disk : Dict Text (Node B)) (sessions : Dict Text (Session A)) (key : Text)
      → NamedOnce disk
      → FiledByKey disk
      → get key (load_sessions json disk sessions)
        ≡ or_else (own_node key (get (session_name key) disk)) (get key sessions)
  unfolding load_sessions get
  load_sessions-own [] sessions key once filed = refl
  load_sessions-own ((name, node) ∷ rest) sessions key (fresh, once) (f, filed) =
      load_sessions-own rest (load_session json (read_entry json name node) sessions) key once filed
      ∙ elim (Bool-cases (name == session_name key)) [
        | inl e ↦
            let same : name ≡ session_name key = (eq_iff name (session_name key)).0 e in
            rw (e, subst (λ n. get n rest ≡ none) same fresh, sym same)
              (load_session-own key (read_entry json name node) sessions)
        | inr e ↦ rw e (
            ap (or_else (own_node key (get (session_name key) rest)))
              (load_session-other key name (read_entry json name node) sessions e f))
      ]
