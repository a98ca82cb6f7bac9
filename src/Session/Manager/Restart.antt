-- ===== src/Session/Manager/Restart.antt =====
-- A save and a restart on the same directory (pkg/session/manager.go).
use aetherclaw.Common.{
  ◌≡◌, refl, sym, ap, ◌∙◌, subst, inl, inr, Bool, true, false, ◌||◌, not, Option, none, some, List,
  [], arith, if◌then◌else◌, ◌==◌, nat_key, eq_iff, some_inj, Bool-cases,
}
use aetherclaw.Common.Text.{Text, text_key, codes, is_empty, text_beq}
use aetherclaw.Common.Dict.{Dict, get, put, get-put, NamedOnce, put-NamedOnce}
use aetherclaw.Session.Manager.{Session, SessionManager, Node, file, SessionJson}
use aetherclaw.Session.Manager.Files.{
  sanitize_filename, session_file, has_separator, invalid, first_error, write_file, reloaded,
  save_marshalled, save_stored, save, read_entry, new_session_manager,
}
use aetherclaw.Session.Manager.Load.{
  session_name, ext-session_file, or_else, FiledByKey, put-FiledByKey, own_node, load_sessions-own,
}

module _ {A B : Type 0} (json : SessionJson A B) where
  -- What json.MarshalIndent writes for a session, json.Unmarshal reads back, but for the fields of
  -- its calls that have the tag "-".
  abbrev pub ReadsBack : Session A → Type 0
  ReadsBack s = (bytes : B) → json.marshal s ≡ some bytes → json.unmarshal bytes ≡ some (reloaded s)

  -- the file of a session, written
  abbrev WrittenFile : Session A → Text → Dict Text (Node B) → Dict Text (Node B) → Type 0
  WrittenFile s filename disk disk' =
      (bytes : B) × (json.unmarshal bytes ≡ some (reloaded s))
      × (disk' ≡ put (session_file filename) (file bytes) disk)

  module _ {E : Type 0} (disk : Dict Text (Node B)) (s : Session A) (reads : ReadsBack s) where
    write_file-WrittenFile :
        (filename : Text) (err : Option E) (bytes : B)
        → json.unmarshal bytes ≡ some (reloaded s)
        → (write_file json filename disk err bytes).0 ≡ none
        → WrittenFile s filename disk (write_file json filename disk err bytes).1
    write_file-WrittenFile filename none bytes r h = (bytes, r, refl)
    write_file-WrittenFile filename (some e) bytes r h = ground arith

    save_marshalled-WrittenFile :
        (filename : Text) (steps : List (Option E)) (found : Option B)
        → json.marshal s ≡ found
        → (save_marshalled json filename steps disk found).0 ≡ none
        → WrittenFile s filename disk (save_marshalled json filename steps disk found).1
    save_marshalled-WrittenFile filename steps none e h = ground arith
    save_marshalled-WrittenFile filename steps (some bytes) e h =
        write_file-WrittenFile filename (first_error steps) bytes (reads bytes e) h

    save_checked-WrittenFile :
        (bad : Bool) (filename : Text) (steps : List (Option E)) (found : Option (Session A))
        → found ≡ some s
        → (if bad then (some invalid, disk) else save_stored json filename steps disk found).0
          ≡ none
        → WrittenFile s filename disk
            (if bad then (some invalid, disk) else save_stored json filename steps disk found).1
    save_checked-WrittenFile true filename steps found e h = ground arith
    save_checked-WrittenFile false filename steps none e h = ground arith
    save_checked-WrittenFile false filename steps (some t) e h =
        save_marshalled-WrittenFile filename steps (json.marshal t)
          (ap json.marshal (sym (some_inj e))) h

    save-WrittenFile :
        (is_local : Text → Bool) (steps : List (Option E)) (key : Text) (sm : SessionManager A)
        → is_empty sm.storage ≡ false
        → get key sm.sessions ≡ some s
        → (save json is_local steps key sm disk).0 ≡ none
        → WrittenFile s (sanitize_filename key) disk (save json is_local steps key sm disk).1
    unfolding save
    save-WrittenFile is_local steps key sm stored found h =
        let filename = sanitize_filename key in
        let bad = filename == codes "." || not (is_local filename) || has_separator filename in
        let rest =
          if bad
          then (some invalid, disk)
          else save_stored json filename steps disk (get key sm.sessions) in
        let checked : save json is_local steps key sm disk ≡ rest = rw stored refl in
        subst (λ r. WrittenFile s filename disk r.1) (sym checked)
          (save_checked-WrittenFile bad filename steps (get key sm.sessions) found
            (subst (λ r. r.0 ≡ none) checked h))

  own_node-put :
      (k : Text) (s : Session A) (bytes : B) (disk : Dict Text (Node B))
      → json.unmarshal bytes ≡ some (reloaded s)
      → own_node json k (get (session_name k) (put (session_name s.key) (file bytes) disk)) ≡ (
          if k == s.key
          then some (reloaded s)
          else if session_name s.key == session_name k
          then none
          else own_node json k (get (session_name k) disk))
  unfolding text_beq
  own_node-put k s bytes disk r = elim (Bool-cases (session_name s.key == session_name k)) [
    | inl e ↦ elim (Bool-cases (s.key == k)) [
      | inl same ↦
          let back : (k == s.key) ≡ true = ground (arith, eq_iff s.key k, eq_iff k s.key) in
          rw
            (
              get-put (session_name s.key) (session_name k) (file bytes) disk,
              e,
              ext-session_file (sanitize_filename k),
              r,
              same,
              back,
            )
            refl
      | inr other ↦
          let back : (k == s.key) ≡ false = ground (arith, eq_iff s.key k, eq_iff k s.key) in
          rw
            (
              get-put (session_name s.key) (session_name k) (file bytes) disk,
              e,
              ext-session_file (sanitize_filename k),
              r,
              other,
              back,
            )
            refl
    ]
    | inr e ↦
        let differ : (k == s.key) ≡ false =
          ground (arith, eq_iff k s.key, eq_iff (session_name s.key) (session_name k)) in
        rw (get-put (session_name s.key) (session_name k) (file bytes) disk, e, differ) refl
  ]

  or_else-none : (a : Option (Session A)) → or_else a none ≡ a
  or_else-none none = refl
  or_else-none (some s) = refl

  read-named :
      (key : Text) (bytes : B) (t : Session A)
      → read_entry json (session_name key) (file bytes) ≡ some t
      → json.unmarshal bytes ≡ some t
  unfolding text_beq
  read-named key bytes t q = rw (ext-session_file (sanitize_filename key)) refl ∙ q

  new_session_manager-own :
      (storage key : Text) (disk : Dict Text (Node B))
      → is_empty storage ≡ false
      → NamedOnce disk
      → FiledByKey json disk
      → get key (new_session_manager json storage (some disk)).sessions
        ≡ own_node json key (get (session_name key) disk)
  unfolding new_session_manager get
  new_session_manager-own storage key disk stored once filed =
      rw stored (load_sessions-own json disk [] key once filed)
      ∙ or_else-none (own_node json key (get (session_name key) disk))

  -- Suppose that the manager has a storage and holds a session that package json reads back as it
  -- writes it, but for the name, the arguments and the thought signature of each tool call, which it
  -- leaves out. When Save returns no error for this session, in a directory where no two files have
  -- one name and each session is in the file of its key, this stays so, and a manager that starts
  -- there afterwards holds the session as it was, but for those fields, which are empty; it holds
  -- none of another key whose file has the same name, and under each other key what one that started
  -- before would hold.
  pub save-restart :
      {E : Type 0}
      → (is_local : Text → Bool) (steps : List (Option E)) (sm : SessionManager A)
      → (disk : Dict Text (Node B)) (s : Session A) → ReadsBack s
      → NamedOnce disk
      → FiledByKey json disk
      → is_empty sm.storage ≡ false
      → get s.key sm.sessions ≡ some s
      → (save json is_local steps s.key sm disk).0 ≡ none
      → let disk' = (save json is_local steps s.key sm disk).1 in
        NamedOnce disk'
        × FiledByKey json disk'
        × ((k : Text)
            → get k (new_session_manager json sm.storage (some disk')).sessions ≡ (
                if k == s.key
                then some (reloaded s)
                else if session_name s.key == session_name k
                then none
                else get k (new_session_manager json sm.storage (some disk)).sessions))
  save-restart is_local steps sm disk s reads once filed stored found h =
      let (bytes, r, e) = save-WrittenFile disk s reads is_local steps s.key sm stored found h in
      let once' = put-NamedOnce (session_name s.key) (file bytes) disk once in
      let filed' =
        put-FiledByKey json (session_name s.key) (file bytes) disk
          (λ t q.
            ap (λ (x : Session A). session_name x.key)
              (some_inj (sym r ∙ read-named s.key bytes t q)))
          filed in
      (
        subst NamedOnce (sym e) once',
        subst (FiledByKey json) (sym e) filed',
        λ k.
            ap (λ d. get k (new_session_manager json sm.storage (some d)).sessions) e
            ∙ new_session_manager-own sm.storage k (put (session_name s.key) (file bytes) disk)
                stored once' filed'
            ∙ own_node-put k s bytes disk r
            ∙ rw (new_session_manager-own sm.storage k disk stored once filed) refl,
      )
