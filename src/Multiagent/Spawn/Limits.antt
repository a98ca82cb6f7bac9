-- ===== src/Multiagent/Spawn/Limits.antt =====
-- How many children run at a time (pkg/multiagent/spawn.go).
use aetherclaw.Common.{
  ℕ, ◌+◌, ◌-◌, ◌≤◌, ◌≡◌, refl, sym, ap, ◌∙◌, subst, inl, inr, Bool, true, false, Option, some, List,
  [], ◌∷◌, ◌++◌, arith, ltb, if◌then◌else◌, ltb→lt, ◌==◌, nat_key, eq_iff, Bool-cases,
}
use aetherclaw.Common.Text.{Text, text_key}
use aetherclaw.Common.Dict.{get, put, get-put}
use aetherclaw.Multiagent.Dedup.{DedupCache, check, build_spawn_key}
use aetherclaw.Multiagent.Announce.{Announcer}
use aetherclaw.Multiagent.Cascade.{RunRegistry}
use aetherclaw.Multiagent.Spawn.{
  SpawnRequest, SpawnStatus, denied, duplicate, children_full, accepted, HandoffResult,
  SpawnOutcome, SpawnManager, Printing, SpawnTimes, new_spawn_manager, count_or_zero, semaphore_of,
  is_allowed, acquire, release, register_child, after_acquire, after_check, async_spawn,
  finish_spawn,
}

-- A child that was started and has not ended.
abbrev pub Child : Type 0
Child = SpawnTimes × SpawnRequest

abbrev pub with_child : SpawnStatus → Child → List Child → List Child
with_child denied c running = running
with_child duplicate c running = running
with_child children_full c running = running
with_child accepted c running = c ∷ running

-- The managers that spawns and ends of children make of the first, with the children that run.
pub data Reachable (p : Printing) (first : SpawnManager) : SpawnManager → List Child → Type 0 where
  begins : Reachable p first first []
  spawns :
      {sm : SpawnManager}
      → {running : List Child} → (t : SpawnTimes) → (req : SpawnRequest)
      → Reachable p first sm running
      → Reachable p first
          (async_spawn p t req sm).1
          (with_child (async_spawn p t req sm).0.status (t, req) running)
  ends :
      {sm : SpawnManager}
      → (earlier later : List Child) → (t : SpawnTimes) → (req : SpawnRequest) → (now duration : ℕ)
      → (result : HandoffResult) → Reachable p first sm (earlier ++ (t, req) ∷ later)
      → Reachable p first (finish_spawn now p t req result duration sm) (earlier ++ later)

-- The children of a parent.
abbrev pub children_of : Text → List Child → ℕ
children_of parent [] = 0
children_of parent ((t, req) ∷ running) =
    let rest = children_of parent running in if req.parent_run_key == parent then rest + 1 else rest

children_of-append :
    (parent : Text) (xs ys : List Child)
    → children_of parent (xs ++ ys) ≡ children_of parent xs + children_of parent ys
children_of-append parent [] ys = omega arith
children_of-append parent ((t, req) ∷ xs) ys = ground (arith, children_of-append parent xs ys)

semaphore_of-put :
    (key parent : Text) (n : ℕ) (sm : SpawnManager)
    → semaphore_of parent (record sm { semaphores = put key n sm.semaphores })
      ≡ (if key == parent then n else semaphore_of parent sm)
unfolding semaphore_of
semaphore_of-put key parent n sm =
    ap count_or_zero (get-put key parent n sm.semaphores) ∙ go (key == parent)
  where
    go :
        (b : Bool)
        → count_or_zero (if b then some n else get parent sm.semaphores)
          ≡ (if b then n else count_or_zero (get parent sm.semaphores))
    go true = refl
    go false = refl

semaphore_of-same :
    (key parent : Text) (sm : SpawnManager)
    → (key == parent) ≡ true
    → semaphore_of key sm ≡ semaphore_of parent sm
semaphore_of-same key parent sm e = ap (λ k. semaphore_of k sm) ((eq_iff key parent).0 e)

-- What every reachable manager has.
pub record Limited (max_children : ℕ) (sm : SpawnManager) (running : List Child) : Type 0 where
  pub maximum : sm.max_children ≡ max_children
  pub counts : (parent : Text) → semaphore_of parent sm ≡ children_of parent running
  pub bounded : (parent : Text) → semaphore_of parent sm ≤ max_children

acquire-free :
    (key : Text) (sm : SpawnManager)
    → ltb (semaphore_of key sm) sm.max_children ≡ true
    → acquire key sm
      ≡ (true, record sm { semaphores = put key (semaphore_of key sm + 1) sm.semaphores })
unfolding acquire
acquire-free key sm e = rw (e, acquire) refl

acquire-full :
    (key : Text) (sm : SpawnManager)
    → ltb (semaphore_of key sm) sm.max_children ≡ false
    → acquire key sm
      ≡ (false, record sm { semaphores = put key (semaphore_of key sm) sm.semaphores })
unfolding acquire
acquire-full key sm e = rw (e, acquire) refl

-- A manager with another count of one semaphore.
put-Limited :
    (max_children n : ℕ) (key : Text) (sm : SpawnManager) (running running' : List Child)
    → Limited max_children sm running
    → n ≤ max_children
    → ((parent : Text)
        → (if key == parent then n else children_of parent running) ≡ children_of parent running')
    → Limited max_children (record sm { semaphores = put key n sm.semaphores }) running'
put-Limited max_children n key sm running running' h le counted = record {
  maximum = h.maximum;
  counts =
      λ parent. ground (arith, semaphore_of-put key parent n sm, h.counts parent, counted parent);
  bounded = λ parent. ground (arith, semaphore_of-put key parent n sm, h.bounded parent);
}

module _ (p : Printing) (t : SpawnTimes) (req : SpawnRequest) (max_children : ℕ) where
  registered-Limited :
      {sm : SpawnManager} {running : List Child}
      → Limited max_children sm running
      → Limited max_children (register_child p t req sm) running
  unfolding register_child semaphore_of
  registered-Limited h = record { maximum = h.maximum; counts = h.counts; bounded = h.bounded }

  after_acquire-Limited :
      (sm : SpawnManager) (running : List Child)
      → Limited max_children sm running
      → let r = after_acquire p t req (acquire req.parent_run_key sm) in
        Limited max_children r.1 (with_child r.0.status (t, req) running)
  after_acquire-Limited sm running h =
      elim (Bool-cases (ltb (semaphore_of req.parent_run_key sm) sm.max_children)) [
        | inl e ↦ subst Started (sym (acquire-free req.parent_run_key sm e)) (
            registered-Limited (
              put-Limited max_children (semaphore_of req.parent_run_key sm + 1) req.parent_run_key
                sm running ((t, req) ∷ running) h (omega (arith, ltb→lt _ _ e, h.maximum))
                (λ parent.
                  ground (arith, semaphore_of-same req.parent_run_key parent sm, h.counts parent))))
        | inr e ↦ subst Started (sym (acquire-full req.parent_run_key sm e)) (
            put-Limited max_children (semaphore_of req.parent_run_key sm) req.parent_run_key sm
              running running h (h.bounded req.parent_run_key)
              (λ parent.
                ground (arith, semaphore_of-same req.parent_run_key parent sm, h.counts parent)))
      ]
    where
      Started : Bool × SpawnManager → Type 0
      Started acquired =
          let r = after_acquire p t req acquired in
          Limited max_children r.1 (with_child r.0.status (t, req) running)

  after_check-Limited :
      (sm : SpawnManager) (running : List Child) (checked : Bool × DedupCache)
      → Limited max_children sm running
      → let r = after_check p t req sm checked in
        Limited max_children r.1 (with_child r.0.status (t, req) running)
  unfolding semaphore_of
  after_check-Limited sm running (true, dedup) h = record {
    maximum = h.maximum;
    counts = h.counts;
    bounded = h.bounded;
  }
  after_check-Limited sm running (false, dedup) h =
      after_acquire-Limited (record sm { dedup = dedup }) running
        (record { maximum = h.maximum; counts = h.counts; bounded = h.bounded })

  async_spawn-Limited :
      (sm : SpawnManager) (running : List Child)
      → Limited max_children sm running
      → let r = async_spawn p t req sm in
        Limited max_children r.1 (with_child r.0.status (t, req) running)
  unfolding async_spawn
  async_spawn-Limited sm running h = elim (Bool-cases (is_allowed req req.allowlist_checker)) [
    | inl e ↦
        rw (e, async_spawn)
          (after_check-Limited sm running
            (check t.checked (build_spawn_key p.digest req.from_agent_id req.to_agent_id req.task)
              sm.dedup)
            h)
    | inr e ↦ rw (e, async_spawn) h
  ]

module _ (p : Printing) (max_children : ℕ) where
  finish_spawn-Limited :
      (earlier later : List Child) (t : SpawnTimes) (req : SpawnRequest) (now duration : ℕ)
      (result : HandoffResult) (sm : SpawnManager)
      → Limited max_children sm (earlier ++ (t, req) ∷ later)
      → Limited max_children (finish_spawn now p t req result duration sm) (earlier ++ later)
  unfolding finish_spawn release semaphore_of
  finish_spawn-Limited earlier later t req now duration result sm h =
      let key = req.parent_run_key in
      let limited =
        put-Limited max_children (semaphore_of key sm - 1) key sm (earlier ++ (t, req) ∷ later)
          (earlier ++ later) h (omega (arith, h.bounded key))
          (λ parent. ground (
            arith,
            semaphore_of-same key parent sm,
            h.counts parent,
            children_of-append parent earlier ((t, req) ∷ later),
            children_of-append parent earlier later,
          )) in
      record { maximum = limited.maximum; counts = limited.counts; bounded = limited.bounded }

  Reachable-Limited :
      (first sm : SpawnManager) (running : List Child)
      → Limited max_children first []
      → Reachable p first sm running
      → Limited max_children sm running
  Reachable-Limited first _ _ h begins = h
  Reachable-Limited first _ _ h (spawns {sm} {running} t req r) =
      async_spawn-Limited p t req max_children sm running (Reachable-Limited first sm running h r)
  Reachable-Limited first _ _ h (ends {sm} earlier later t req now duration result r) =
      finish_spawn-Limited earlier later t req now duration result sm
        (Reachable-Limited first sm (earlier ++ (t, req) ∷ later) h r)

-- However spawns and ends of children are interleaved, the semaphore of each parent counts the
-- children of it that run, and they are never more than the maximum of the manager.
pub Reachable-children :
    (p : Printing) (registry : RunRegistry) (announcer : Option (Announcer SpawnOutcome))
    (max_children timeout : ℕ) (sm : SpawnManager) (running : List Child)
    → Reachable p (new_spawn_manager registry announcer max_children timeout) sm running
    → (parent : Text)
    → (semaphore_of parent sm ≡ children_of parent running)
      × (children_of parent running
          ≤ (new_spawn_manager registry announcer max_children timeout).max_children)
unfolding new_spawn_manager semaphore_of get
Reachable-children p registry announcer max_children timeout sm running r parent =
    let first = new_spawn_manager registry announcer max_children timeout in
    let limited =
      Reachable-Limited p first.max_children first sm running
        (record { maximum = refl; counts = λ k. refl; bounded = λ k. omega arith }) r in
    (limited.counts parent, omega (arith, limited.counts parent, limited.bounded parent))
