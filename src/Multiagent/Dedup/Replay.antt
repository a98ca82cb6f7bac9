-- ===== src/Multiagent/Dedup/Replay.antt =====
-- Sequences of operations on one cache (pkg/multiagent/dedup.go).
use aetherclaw.Common.{
  ℕ, ◌+◌, ◌<◌, ◌≡◌, refl, sym, subst, inl, inr, true, false, Option, none, some, List, [], ◌∷◌,
  arith, ltb, if◌then◌else◌, lt→ltb, ◌==◌, nat_key, eq_iff, eq_refl, Bool-cases, Option-cases, All,
}
use aetherclaw.Common.Text.{Text, text_key}
use aetherclaw.Common.Dict.{Dict, get, remove, get-put, get-remove}
use aetherclaw.Multiagent.Dedup.{
  DedupEntry, DedupCache, registered, check, check_with_result, with_result, set_result,
  sweep_entries, sweep,
}

-- What the goroutines that share a cache do to it.
pub data Op : Type 0 where
  checks : Text → Op
  checks_result : Text → Op
  sets_result : Text → Text → Op
  sweeps : Op

unfoldable pub step : ℕ → Op → DedupCache → DedupCache
step now (checks key) dc = (check now key dc).1
step now (checks_result key) dc = (check_with_result now key dc).1
step now (sets_result key result) dc = set_result key result dc
step now sweeps dc = sweep now dc

unfoldable pub run : List (ℕ × Op) → DedupCache → DedupCache
unfolding step
run [] dc = dc
run ((now, op) ∷ ops) dc = run ops (step now op dc)

-- The result that the operations store last under a key.
abbrev pub stored : Text → Text → Op → Text
stored key old (checks k) = old
stored key old (checks_result k) = old
stored key old (sets_result k result) = if k == key then result else old
stored key old sweeps = old

abbrev pub last_result : Text → Text → List (ℕ × Op) → Text
last_result key old [] = old
last_result key old ((now, op) ∷ ops) = last_result key (stored key old op) ops

-- The operations happen before a time.
abbrev pub Before : ℕ → List (ℕ × Op) → Type 0
Before t = All (λ o. o.0 < t)

-- The key is registered until a time, with a result.
abbrev Holds : Text → ℕ → Text → DedupCache → Type 0
Holds key expires result dc =
    (e : DedupEntry) × (get key dc.entries ≡ some e)
    × (e.expires_at ≡ expires)
    × (e.result ≡ result)

get-registered :
    (now : ℕ) (k key : Text) (m : Dict Text DedupEntry) (dc : DedupCache) (e : DedupEntry)
    → (k == key) ≡ false
    → get key m ≡ some e
    → get key (registered now k m dc).entries ≡ some e
unfolding registered
get-registered now k key m dc e other h = rw (get-put k key _ m, other) h

get-sweep_entries :
    (now : ℕ) (key : Text) (m : Dict Text DedupEntry) (e : DedupEntry)
    → now < e.expires_at
    → get key m ≡ some e
    → get key (sweep_entries now m) ≡ some e
unfolding get sweep_entries
get-sweep_entries now key [] e live h = h
get-sweep_entries now key ((k, d) ∷ m) e live h = ground (arith, get-sweep_entries now key m e live)

get-remove_other :
    (k key : Text) (m : Dict Text DedupEntry) (o : Option DedupEntry)
    → (k == key) ≡ false
    → get key m ≡ o
    → get key (remove k m) ≡ o
get-remove_other k key m o other h = rw (get-remove k key m, other) h

-- what both checks make of the cache
check-Holds :
    (now : ℕ) (k key : Text) (expires : ℕ) (result : Text) (dc : DedupCache)
    → now < expires
    → Holds key expires result dc
    → Holds key expires result (check now k dc).1
unfolding check
check-Holds now k key expires result dc live (e, g, x, r) = elim (Bool-cases (k == key)) [
  | inl same ↦
      let h : get k dc.entries ≡ some e =
        subst (λ j. get j dc.entries ≡ some e) (sym ((eq_iff k key).0 same)) g in
      let l : ltb now e.expires_at ≡ true = lt→ltb now e.expires_at (omega (arith, x)) in
      rw (h, l) (e, g, x, r)
  | inr other ↦ elim (Option-cases (get k dc.entries)) [
    | inl n ↦ rw n (e, get-registered now k key dc.entries dc e other g, x, r)
    | inr (d, s) ↦ elim (Bool-cases (ltb now d.expires_at)) [
      | inl l ↦ rw (s, l) (e, g, x, r)
      | inr l ↦
          rw (s, l)
            (
              e,
              get-registered now k key (remove k dc.entries) dc e other
                  (get-remove_other k key dc.entries (some e) other g),
              x,
              r,
            )
    ]
  ]
]

check_with_result-same :
    (now : ℕ) (k : Text) (dc : DedupCache) → (check_with_result now k dc).1 ≡ (check now k dc).1
unfolding check check_with_result
check_with_result-same now k dc = elim (Option-cases (get k dc.entries)) [
  | inl n ↦ rw n refl
  | inr (d, s) ↦ elim (Bool-cases (ltb now d.expires_at)) [
    | inl l ↦ rw (s, l) refl
    | inr l ↦ rw (s, l) refl
  ]
]

set_result-Holds :
    (k key new : Text) (expires : ℕ) (result : Text) (dc : DedupCache)
    → Holds key expires result dc
    → Holds key expires (if k == key then new else result) (set_result k new dc)
unfolding set_result
set_result-Holds k key new expires result dc (e, g, x, r) = elim (Bool-cases (k == key)) [
  | inl same ↦
      let h : get k dc.entries ≡ some e =
        subst (λ j. get j dc.entries ≡ some e) (sym ((eq_iff k key).0 same)) g in
      rw (h, same)
        (with_result new e, rw (get-put k key (with_result new e) dc.entries, same) refl, x, refl)
  | inr other ↦ elim (Option-cases (get k dc.entries)) [
    | inl n ↦ rw (n, other) (e, g, x, r)
    | inr (d, s) ↦
        rw (s, other) (e, rw (get-put k key (with_result new d) dc.entries, other) g, x, r)
  ]
]

step-Holds :
    (now : ℕ) (op : Op) (key : Text) (expires : ℕ) (result : Text) (dc : DedupCache)
    → now < expires
    → Holds key expires result dc
    → Holds key expires (stored key result op) (step now op dc)
unfolding step
step-Holds now (checks k) key expires result dc live h =
    check-Holds now k key expires result dc live h
step-Holds now (checks_result k) key expires result dc live h =
    subst (Holds key expires result) (sym (check_with_result-same now k dc))
      (check-Holds now k key expires result dc live h)
step-Holds now (sets_result k new) key expires result dc live h =
    set_result-Holds k key new expires result dc h
step-Holds now sweeps key expires result dc live (e, g, x, r) =
    (e, unfold sweep in get-sweep_entries now key dc.entries e (omega (arith, x)) g, x, r)

run-Holds :
    (ops : List (ℕ × Op)) (key : Text) (expires : ℕ) (result : Text) (dc : DedupCache)
    → Before expires ops
    → Holds key expires result dc
    → Holds key expires (last_result key result ops) (run ops dc)
unfolding run
run-Holds [] key expires result dc live h = h
run-Holds ((now, op) ∷ ops) key expires result dc live h =
    run-Holds ops key expires (stored key result op) (step now op dc) live.1
      (step-Holds now op key expires result dc live.0 h)

registered-Holds :
    (now : ℕ) (key : Text) (m : Dict Text DedupEntry) (dc : DedupCache)
    → Holds key (now + dc.ttl) [] (registered now key m dc)
unfolding registered
registered-Holds now key m dc = (
  record { key = key; created_at = now; expires_at = now + dc.ttl; result = [] },
  rw (get-put key key _ m, eq_refl key) refl,
  refl,
  refl,
)

new-Holds :
    (now : ℕ) (key : Text) (dc : DedupCache)
    → (check now key dc).0 ≡ false
    → Holds key (now + dc.ttl) [] (check now key dc).1
unfolding check
new-Holds now key dc new = elim (Option-cases (get key dc.entries)) [
  | inl n ↦ rw n (registered-Holds now key dc.entries dc)
  | inr (d, s) ↦ elim (Bool-cases (ltb now d.expires_at)) [
    | inl l ↦ absurd (true_not_false (subst (λ b. b ≡ false) (rw (s, l) refl) new))
    | inr l ↦ rw (s, l) (registered-Holds now key (remove key dc.entries) dc)
  ]
]
  where
    true_not_false : true ≡ false → ⊥
    true_not_false h = cc h

Holds-check_with_result :
    (now : ℕ) (key : Text) (expires : ℕ) (result : Text) (dc : DedupCache)
    → Holds key expires result dc
    → (check_with_result now key dc).0 ≡ (if ltb now expires then some result else none)
unfolding check_with_result
Holds-check_with_result now key expires result dc (e, g, x, r) =
    rw (g, sym x, sym r)
      (elim (Bool-cases (ltb now e.expires_at)) [ inl l ↦ rw l refl | inr l ↦ rw l refl ])

-- After a check that finds a key new, whatever checks, results and sweeps of any keys happen
-- before the time to live is over, a further check at a time within the time to live finds a
-- duplicate and replays the result stored last (the empty one when none was), and a further
-- check at a later time finds the key new.
pub check_replays :
    (now : ℕ) (key : Text) (dc : DedupCache) (ops : List (ℕ × Op)) (later : ℕ)
    → (check now key dc).0 ≡ false
    → Before (now + dc.ttl) ops
    → (check_with_result later key (run ops (check now key dc).1)).0
      ≡ (if ltb later (now + dc.ttl) then some (last_result key [] ops) else none)
check_replays now key dc ops later new live =
    Holds-check_with_result later key (now + dc.ttl) (last_result key [] ops)
      (run ops (check now key dc).1)
      (run-Holds ops key (now + dc.ttl) [] (check now key dc).1 live (new-Holds now key dc new))
