-- ===== src/Media.antt =====
-- pkg/media/store.go. Whether a file exists, the names of references and the clock are parameters;
-- the paths of the files that a method deletes are part of its result.
pub mod Invariant
pub mod Linked
pub mod Calls
pub mod Effects
pub mod Clean
pub mod Life
mod Tests
use aetherclaw.Common.{
  ℕ, ◌-◌, Bool, false, ◌||◌, not, Option, none, some, List, [], ◌∷◌, ltb, leb, if◌then◌else◌, ◌==◌,
  nat_key,
}
use aetherclaw.Common.Text.{Text, text_key, is_empty}
use aetherclaw.Common.Dict.{Dict, get, put, remove}

pub record MediaMeta : Type 0 where
  pub filename : Text
  pub content_type : Text
  pub source : Text

pub record MediaEntry : Type 0 where
  pub path : Text
  pub meta : MediaMeta
  pub stored_at : ℕ

pub record FileMediaStore : Type 0 where
  pub refs : Dict Text MediaEntry
  pub scope_to_refs : Dict Text (List Text)
  pub ref_to_scope : Dict Text Text

abbrev pub new_file_media_store : FileMediaStore
new_file_media_store = record { refs = []; scope_to_refs = []; ref_to_scope = [] }

-- Go's map[string]struct{} as a list of its keys
unfoldable pub in_set : Text → List Text → Bool
in_set ref [] = false
in_set ref (other ∷ set) = other == ref || in_set ref set

abbrev pub add_to_set : Text → List Text → List Text
add_to_set ref set = if in_set ref set then set else ref ∷ set

unfoldable pub delete_from_set : Text → List Text → List Text
delete_from_set ref [] = []
delete_from_set ref (other ∷ set) =
    let rest = delete_from_set ref set in if other == ref then rest else other ∷ rest

abbrev pub found_set : Option (List Text) → List Text
found_set none = []
found_set (some set) = set

-- `ref` is the new reference; the result is none if the file does not exist.
unfoldable pub store_media :
    Bool → Text → ℕ → Text → MediaMeta → Text → FileMediaStore → Option Text × FileMediaStore
store_media exists ref now path meta scope s =
    let set = add_to_set ref (found_set (get scope s.scope_to_refs)) in
    if not exists then (none, s) else (
      some ref,
      record {
        refs = put ref (record { path = path; meta = meta; stored_at = now }) s.refs;
        scope_to_refs = put scope set s.scope_to_refs;
        ref_to_scope = put ref scope s.ref_to_scope;
      },
    )

unfoldable pub resolve_with_meta : Text → FileMediaStore → Option (Text × MediaMeta)
resolve_with_meta ref s = elim (get ref s.refs) [
  | none ↦ none
  | some entry ↦ some (entry.path, entry.meta)
]

abbrev pub path_found : Option MediaEntry → Option Text
path_found none = none
path_found (some entry) = some entry.path

unfoldable pub resolve_media : Text → FileMediaStore → Option Text
resolve_media ref s = path_found (get ref s.refs)

abbrev pub add_path : Option MediaEntry → List Text → List Text
add_path none paths = paths
add_path (some entry) paths = entry.path ∷ paths

abbrev pub forget : Text → FileMediaStore → FileMediaStore
forget ref s = record s { refs = remove ref s.refs; ref_to_scope = remove ref s.ref_to_scope }

-- the loop of ReleaseAll over the references of the scope
unfoldable pub release_refs : List Text → FileMediaStore → List Text × FileMediaStore
release_refs [] s = ([], s)
release_refs (ref ∷ set) s =
    let (paths, s') = release_refs set (forget ref s) in (add_path (get ref s.refs) paths, s')

abbrev pub release_found : Text → FileMediaStore → Option (List Text) → List Text × FileMediaStore
release_found scope s none = ([], s)
release_found scope s (some set) =
    let (paths, s') = release_refs set s in
    (paths, record s' { scope_to_refs = remove scope s'.scope_to_refs })

unfoldable pub release_all : Text → FileMediaStore → List Text × FileMediaStore
release_all scope s = release_found scope s (get scope s.scope_to_refs)

-- scopeToRefs, without a reference in a scope; a scope without references is removed
abbrev pub without_ref : Text → Text → Dict Text (List Text) → Dict Text (List Text)
without_ref scope ref scopes =
    let set = delete_from_set ref (found_set (get scope scopes)) in
    if is_empty set then remove scope scopes else put scope set scopes

abbrev pub unlink : Text → Option Text → FileMediaStore → FileMediaStore
unlink ref none s = s
unlink ref (some scope) s = record s { scope_to_refs = without_ref scope ref s.scope_to_refs }

abbrev pub expire : Text → FileMediaStore → FileMediaStore
expire ref s = forget ref (unlink ref (get ref s.ref_to_scope) s)

-- the loop of CleanExpired over the entries: the paths, and the store
unfoldable pub clean_entries :
    ℕ → Dict Text MediaEntry → FileMediaStore → List Text × FileMediaStore
clean_entries cutoff [] s = ([], s)
clean_entries cutoff ((ref, entry) ∷ entries) s =
    let old = ltb entry.stored_at cutoff in
    let (paths, s') = clean_entries cutoff entries (if old then expire ref s else s) in
    (if old then entry.path ∷ paths else paths, s')

unfoldable pub clean_media : ℕ → ℕ → FileMediaStore → List Text × FileMediaStore
clean_media max_age now s =
    if leb max_age 0 then ([], s) else clean_entries (now - max_age) s.refs s
