-- ===== src/Multiagent/Spawn/Retry.antt =====
-- A spawn that is asked for again (pkg/multiagent/spawn.go, pkg/multiagent/dedup.go).
use aetherclaw.Common.{
  ℕ, ◌+◌, ◌<◌, ◌≡◌, refl, sym, ap, ◌∙◌, subst, inl, inr, Bool, true, false, Option, none, some,
  List, [], ◌∷◌, ltb, lt→ltb, nat_key, eq_refl, Bool-cases,
}
use aetherclaw.Common.Text.{Text, text_key}
use aetherclaw.Common.Dict.{Dict, get, put, get-put}
use aetherclaw.Multiagent.Dedup.{
  DedupEntry, DedupCache, check, check_found, registered, build_spawn_key,
}
use aetherclaw.Multiagent.Spawn.{
  SpawnRequest, denied, duplicate, children_full, SpawnResult, HandoffResult, SpawnManager,
  Printing, SpawnTimes, is_allowed, acquire, release, register_child, after_acquire, after_check,
  async_spawn, finish_spawn,
}

registered-known :
    (now now' : ℕ) (key : Text) (entries : Dict Text DedupEntry) (dc : DedupCache)
    → now' < now + dc.ttl
    → (check now' key (registered now key entries dc)).0 ≡ true
unfolding check registered
registered-known now now' key entries dc lt =
    let entry : DedupEntry = record {
      key = key;
      created_at = now;
      expires_at = now + dc.ttl;
      result = [];
    } in
    let found : get key (put key entry entries) ≡ some entry =
      get-put key key entry entries ∙ rw (eq_refl key) refl in
    rw (found, lt→ltb now' (now + dc.ttl) lt) refl

-- A key that was new is a duplicate within the time to live.
check-again :
    (now now' : ℕ) (key : Text) (dc : DedupCache)
    → (check now key dc).0 ≡ false
    → now' < now + dc.ttl
    → (check now' key (check now key dc).1).0 ≡ true
unfolding check
check-again now now' key dc fresh lt = go (get key dc.entries) fresh
  where
    go :
        (found : Option DedupEntry)
        → (check_found now key dc found).0 ≡ false
        → (check now' key (check_found now key dc found).1).0 ≡ true
    go none h = registered-known now now' key dc.entries dc lt
    go (some entry) h = elim (Bool-cases (ltb now entry.expires_at)) [
      | inl e ↦ cc (rw e at h)
      | inr e ↦ rw e (registered-known now now' key _ dc lt)
    ]

-- The end of a child, and a list of ends.
pub record End : Type 0 where
  pub now : ℕ
  pub times : SpawnTimes
  pub request : SpawnRequest
  pub result : HandoffResult
  pub duration : ℕ

abbrev pub finish_all : Printing → List End → SpawnManager → SpawnManager
finish_all p [] sm = sm
finish_all p (e ∷ ends) sm =
    finish_all p ends (finish_spawn e.now p e.times e.request e.result e.duration sm)

dedup-finish_all :
    (p : Printing) (ends : List End) (sm : SpawnManager) → (finish_all p ends sm).dedup ≡ sm.dedup
unfolding finish_spawn release
dedup-finish_all p [] sm = refl
dedup-finish_all p (e ∷ ends) sm =
    dedup-finish_all p ends (finish_spawn e.now p e.times e.request e.result e.duration sm)

module _ (p : Printing) (t : SpawnTimes) (req : SpawnRequest) where
  dedup-after_acquire :
      (acquired : Bool × SpawnManager) → (after_acquire p t req acquired).1.dedup ≡ acquired.1.dedup
  unfolding register_child
  dedup-after_acquire (true, sm) = refl
  dedup-after_acquire (false, sm) = refl

  abbrev spawn_key : Text
  spawn_key = build_spawn_key p.digest req.from_agent_id req.to_agent_id req.task

  async_spawn-allowed :
      (sm : SpawnManager)
      → is_allowed req req.allowlist_checker ≡ true
      → async_spawn p t req sm ≡ after_check p t req sm (check t.checked spawn_key sm.dedup)
  unfolding async_spawn
  async_spawn-allowed sm e = rw (e, async_spawn) refl

  async_spawn-denied :
      (sm : SpawnManager)
      → is_allowed req req.allowlist_checker ≡ false
      → (async_spawn p t req sm).0.status ≡ denied
  unfolding async_spawn
  async_spawn-denied sm e = rw (e, async_spawn) refl

  status-duplicate :
      (sm : SpawnManager) (checked : Bool × DedupCache)
      → checked.0 ≡ true
      → (after_check p t req sm checked).0.status ≡ duplicate
  status-duplicate sm (true, dedup) h = refl
  status-duplicate sm (false, dedup) h = cc h

  status-full :
      (sm : SpawnManager) (checked : Bool × DedupCache)
      → (after_check p t req sm checked).0.status ≡ children_full
      → checked.0 ≡ false
  status-full sm (true, dedup) h = cc h
  status-full sm (false, dedup) h = refl

  dedup-after_check :
      (sm : SpawnManager) (checked : Bool × DedupCache)
      → (after_check p t req sm checked).1.dedup ≡ checked.1
  unfolding acquire
  dedup-after_check sm (true, dedup) = refl
  dedup-after_check sm (false, dedup) =
      dedup-after_acquire (acquire req.parent_run_key (record sm { dedup = dedup }))

  -- A rejection for the lack of room was allowed, and its key was new.
  children_full-fresh :
      (sm : SpawnManager)
      → (async_spawn p t req sm).0.status ≡ children_full
      → (is_allowed req req.allowlist_checker ≡ true)
        × ((check t.checked spawn_key sm.dedup).0 ≡ false)
  children_full-fresh sm full = elim (Bool-cases (is_allowed req req.allowlist_checker)) [
    | inr e ↦ cc (full, async_spawn-denied sm e)
    | inl e ↦ (
      e,
      status-full sm (check t.checked spawn_key sm.dedup) (
          subst (λ (r : SpawnResult × SpawnManager). r.0.status ≡ children_full)
            (async_spawn-allowed sm e) full),
    )
  ]

module _ (p : Printing) (t t' : SpawnTimes) (req : SpawnRequest) (sm : SpawnManager) where
  -- A spawn that is rejected because its parent has all its children is rejected as a duplicate
  -- when it is asked for again within the time to live of the cache, whichever children have ended
  -- meanwhile.
  pub children_full-duplicate :
      (ends : List End)
      → (async_spawn p t req sm).0.status ≡ children_full
      → t'.checked < t.checked + sm.dedup.ttl
      → (async_spawn p t' req (finish_all p ends (async_spawn p t req sm).1)).0.status ≡ duplicate
  children_full-duplicate ends full lt =
      let (allowed, fresh) = children_full-fresh p t req sm full in
      let key = spawn_key p t req in
      let first = check t.checked key sm.dedup in
      let later = finish_all p ends (async_spawn p t req sm).1 in
      let same : later.dedup ≡ first.1 =
        dedup-finish_all p ends (async_spawn p t req sm).1
        ∙ ap (λ (r : SpawnResult × SpawnManager). r.1.dedup)
            (async_spawn-allowed p t req sm allowed)
        ∙ dedup-after_check p t req sm first in
      ap (λ (r : SpawnResult × SpawnManager). r.0.status)
        (async_spawn-allowed p t' req later allowed)
      ∙ status-duplicate p t' req later _ (
          subst (λ d. (check t'.checked key d).0 ≡ true) (sym same)
            (check-again t.checked t'.checked key sm.dedup fresh lt))
