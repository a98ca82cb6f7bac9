-- ===== src/Media/Calls.antt =====
-- Sequences of calls, and what they make of a reference (pkg/media/store.go).
use aetherclaw.Common.{
  ℕ, ◌-◌, ◌≡◌, refl, Bool, true, false, ◌&&◌, Option, none, some, List, [], ◌∷◌, arith, ltb,
  if◌then◌else◌, ◌==◌, nat_key,
}
use aetherclaw.Common.Text.{Text, text_key}
use aetherclaw.Common.Dict.{get}
use aetherclaw.Media.{MediaMeta, MediaEntry, FileMediaStore, store_media, release_all, clean_media}
use aetherclaw.Media.Invariant.{is_present}

-- A call that changes the store; a call of Store has whether the file exists and the new reference.
pub data MediaCall : Type 0 where
  store_call : Bool → Text → ℕ → Text → MediaMeta → Text → MediaCall
  release_call : Text → MediaCall
  clean_call : ℕ → ℕ → MediaCall

abbrev pub apply_media : MediaCall → FileMediaStore → FileMediaStore
apply_media (store_call exists ref now path meta scope) s =
    (store_media exists ref now path meta scope s).1
apply_media (release_call scope) s = (release_all scope s).1
apply_media (clean_call max_age now) s = (clean_media max_age now s).1

unfoldable pub apply_all : List MediaCall → FileMediaStore → FileMediaStore
apply_all [] s = s
apply_all (c ∷ calls) s = apply_all calls (apply_media c s)

abbrev pub IsFresh : MediaCall → FileMediaStore → Type 0
IsFresh (store_call exists ref now path meta scope) s = get ref s.refs ≡ none
IsFresh (release_call scope) s = Unit
IsFresh (clean_call max_age now) s = Unit

-- Each new reference is one that the store does not hold.
abbrev pub AllFresh : List MediaCall → FileMediaStore → Type 0
AllFresh [] s = Unit
AllFresh (c ∷ calls) s = IsFresh c s × AllFresh calls (apply_media c s)

-- What a call makes of a reference, which is in a scope and has a file, or is unknown.
abbrev pub life_call : Text → MediaCall → Option (MediaEntry × Text) → Option (MediaEntry × Text)
life_call r (store_call exists ref now path meta scope) v =
    if exists && ref == r
    then some (record { path = path; meta = meta; stored_at = now }, scope)
    else v
life_call r (release_call scope) none = none
life_call r (release_call scope) (some (entry, own)) =
    if own == scope then none else some (entry, own)
life_call r (clean_call max_age now) none = none
life_call r (clean_call max_age now) (some (entry, own)) =
    if ltb 0 max_age && ltb entry.stored_at (now - max_age) then none else some (entry, own)

abbrev pub life : Text → List MediaCall → Option (MediaEntry × Text) → Option (MediaEntry × Text)
life r [] v = v
life r (c ∷ calls) v = life r calls (life_call r c v)

abbrev pub path_of : Option (MediaEntry × Text) → Option Text
path_of none = none
path_of (some (entry, scope)) = some entry.path

abbrev pub known_from : Option MediaEntry → Option Text → Option (MediaEntry × Text)
known_from (some entry) (some scope) = some (entry, scope)
known_from (some entry) none = none
known_from none y = none

abbrev pub known : Text → FileMediaStore → Option (MediaEntry × Text)
known r s = known_from (get r s.refs) (get r s.ref_to_scope)

pub known-none :
    (x : Option MediaEntry) (y : Option Text)
    → (b : Bool)
    → known_from (if b then none else x) (if b then none else y)
      ≡ (if b then none else known_from x y)
known-none x y true = refl
known-none x y false = refl

pub absent-scope :
    (x : Option MediaEntry) (y : Option Text) → x ≡ none → is_present x ≡ is_present y → y ≡ none
absent-scope x none e h = refl
absent-scope none (some t) e h = ground arith
absent-scope (some a) (some t) e h = ground arith
