-- ===== src/Media/Life.antt =====
-- What becomes of a reference (pkg/media/store.go).
use aetherclaw.Common.{
  ℕ, ◌-◌, ◌≡◌, refl, ap, ◌∙◌, inl, inr, Option, none, some, List, [], ◌∷◌, arith, leb, nat_key,
  Bool-cases,
}
use aetherclaw.Common.Text.{Text, text_key}
use aetherclaw.Common.Dict.{get}
use aetherclaw.Media.{
  MediaEntry, FileMediaStore, new_file_media_store, in_set, path_found, resolve_media,
  release_found, release_all, clean_media,
}
use aetherclaw.Media.Invariant.{is_present, Linked, release_found-Linked}
use aetherclaw.Media.Linked.{clean_entries-Linked}
use aetherclaw.Media.Calls.{
  MediaCall, store_call, release_call, clean_call, apply_media, apply_all, IsFresh, AllFresh,
  life_call, life, path_of, known_from, known,
}
use aetherclaw.Media.Effects.{store_media-Linked, store_media-life, release_found-life}
use aetherclaw.Media.Clean.{clean_media-life}

release-Linked :
    (scope : Text) (s : FileMediaStore) (found : Option (List Text))
    → get scope s.scope_to_refs ≡ found
    → Linked s
    → Linked (release_found scope s found).1
release-Linked scope s none e linked = linked
release-Linked scope s (some set) e linked = release_found-Linked scope s set e linked

clean_media-Linked :
    (max_age now : ℕ) (s : FileMediaStore) → Linked s → Linked (clean_media max_age now s).1
unfolding clean_media
clean_media-Linked max_age now s linked = elim (Bool-cases (leb max_age 0)) [
  | inl e ↦ rw e linked
  | inr e ↦ rw e (clean_entries-Linked (now - max_age) s.refs s linked)
]

-- one call: the maps still fit together, and each reference has become what the call makes of it
apply_media-life :
    (c : MediaCall) (s : FileMediaStore)
    → IsFresh c s
    → Linked s
    → Linked (apply_media c s)
      × ((r : Text) → known r (apply_media c s) ≡ life_call r c (known r s))
unfolding release_all
apply_media-life (store_call exists ref now path meta scope) s fresh linked = (
  store_media-Linked exists ref now path meta scope s linked fresh,
  store_media-life exists ref now path meta scope s linked,
)
apply_media-life (release_call scope) s fresh linked = (
  release-Linked scope s (get scope s.scope_to_refs) refl linked,
  λ r. release_found-life scope s (get scope s.scope_to_refs) r refl linked,
)
apply_media-life (clean_call max_age now) s fresh linked =
    (clean_media-Linked max_age now s linked, λ r. clean_media-life max_age now s r linked)

apply_all-life :
    (calls : List MediaCall) (s : FileMediaStore) (r : Text)
    → AllFresh calls s
    → Linked s
    → Linked (apply_all calls s) × (known r (apply_all calls s) ≡ life r calls (known r s))
unfolding apply_all
apply_all-life [] s r fresh linked = (linked, refl)
apply_all-life (c ∷ calls) s r (first, fresh) linked =
    let (next, same) = apply_media-life c s first linked in
    let (end, e) = apply_all-life calls (apply_media c s) r fresh next in
    (end, e ∙ ap (life r calls) (same r))

new-Linked : Linked new_file_media_store
unfolding get in_set
new-Linked = record { same_scope = λ r sc. refl; same_refs = λ r. refl; once = tt }

path_found-known :
    (x : Option MediaEntry) (y : Option Text)
    → is_present x ≡ is_present y
    → path_found x ≡ path_of (known_from x y)
path_found-known none y p = refl
path_found-known (some e) none p = ground arith
path_found-known (some e) (some t) p = refl

-- After any calls on a new store, with references that it does not hold when they are stored, a
-- reference resolves to the path it was stored with, if its file existed then, and if since then
-- its scope was not released and no clean-up came when it was older than the maximal age.
pub resolve_media-life :
    (calls : List MediaCall) (r : Text)
    → AllFresh calls new_file_media_store
    → resolve_media r (apply_all calls new_file_media_store) ≡ path_of (life r calls none)
unfolding resolve_media get
resolve_media-life calls r fresh =
    let (linked, e) = apply_all-life calls new_file_media_store r fresh new-Linked in
    let s = apply_all calls new_file_media_store in
    path_found-known (get r s.refs) (get r s.ref_to_scope) (linked.same_refs r) ∙ ap path_of e
