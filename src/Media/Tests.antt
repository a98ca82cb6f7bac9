-- ===== src/Media/Tests.antt =====
-- Two files in two scopes (pkg/media/store.go).
use aetherclaw.Common.{◌≡◌, refl, true, none, some, List, [], ◌∷◌, nat_key}
use aetherclaw.Common.Text.{text_key, codes, text_beq}
use aetherclaw.Common.Dict.{get, put, remove}
use aetherclaw.Media.{
  MediaMeta, new_file_media_store, in_set, store_media, resolve_media, release_refs, release_all,
  clean_entries, clean_media,
}
use aetherclaw.Media.Calls.{
  MediaCall, store_call, release_call, clean_call, apply_all, AllFresh, life, path_of,
}
use aetherclaw.Media.Life.{resolve_media-life}

abbrev meta : MediaMeta
meta = record { filename = codes "a"; content_type = codes "text"; source = codes "telegram" }

abbrev calls : List MediaCall
calls =
    store_call true (codes "r1") 5 (codes "/a") meta (codes "s")
    ∷ store_call true (codes "r2") 6 (codes "/b") meta (codes "t")
    ∷ release_call (codes "s")
    ∷ clean_call 10 16
    ∷ []

calls-AllFresh : AllFresh calls new_file_media_store
unfolding store_media get put text_beq
calls-AllFresh = (refl, (refl, (tt, (tt, tt))))

resolve_media-life_example :
    resolve_media (codes "r2") (apply_all calls new_file_media_store)
    ≡ path_of (life (codes "r2") calls none)
resolve_media-life_example = resolve_media-life calls (codes "r2") calls-AllFresh

-- The first was released, the second is exactly as old as it may be.
one_left :
    (resolve_media (codes "r1") (apply_all calls new_file_media_store) ≡ none)
    × (resolve_media (codes "r2") (apply_all calls new_file_media_store) ≡ some (codes "/b"))
unfolding resolve_media apply_all store_media release_all release_refs clean_media clean_entries get
    put remove in_set text_beq
one_left = (refl, refl)
