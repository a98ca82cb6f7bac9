-- ===== src/Providers/Fallback/Candidates/Distinct.antt =====
-- The order and the keys of the resolved candidates: ResolveCandidatesWithLookup of fallback.go.
use aetherclaw.Common.{
  ◌≡◌, refl, sym, ap, ◌∙◌, ◌≢◌, inl, inr, Bool, true, Option, none, some, List, [], ◌∷◌, ◌++◌,
  append-nil, append_assoc, arith, if◌then◌else◌, ◌==◌, nat_key, eq_iff, Bool-cases, All,
}
use aetherclaw.Common.Text.{Text, text_key}
use aetherclaw.Common.Dict.{Dict, get, put, get-put}
use aetherclaw.Providers.ModelRef.{ModelRef, parse_model_ref, model_key}
use aetherclaw.Providers.Fallback.Candidates.{
  ModelConfig, FallbackCandidate, Resolving, candidate_raw, is_seen, add_candidate_ref,
  add_candidates, resolve_candidates_with_lookup,
}

abbrev pub candidate_key : FallbackCandidate → Text
candidate_key c = model_key c.provider c.model

abbrev candidate_of : ModelRef → FallbackCandidate
candidate_of ref = record { provider = ref.provider; model = ref.model }

-- The references of the texts that parse.
pub parsed : Option (Text → Option Text) → Text → List Text → List FallbackCandidate
parsed lookup d [] = []
parsed lookup d (raw ∷ raws) = elim (parse_model_ref (candidate_raw lookup raw) d) [
  | none ↦ parsed lookup d raws
  | some ref ↦ candidate_of ref ∷ parsed lookup d raws
]

-- The candidates whose key is not `k`.
pub without_key : Text → List FallbackCandidate → List FallbackCandidate
without_key k [] = []
without_key k (c ∷ cs) =
    let rest = without_key k cs in if k == candidate_key c then rest else c ∷ rest

-- Of the candidates with one key, only the first.
pub first_of_each : List FallbackCandidate → List FallbackCandidate
first_of_each [] = []
first_of_each (c ∷ cs) = c ∷ without_key (candidate_key c) (first_of_each cs)

-- The candidates whose key has not been seen.
unseen : Dict Text Bool → List FallbackCandidate → List FallbackCandidate
unseen seen [] = []
unseen seen (c ∷ cs) =
    let rest = unseen seen cs in if is_seen (candidate_key c) seen then rest else c ∷ rest

is_seen-put :
    (k j : Text) (seen : Dict Text Bool)
    → is_seen j (put k true seen) ≡ (if k == j then true else is_seen j seen)
is_seen-put k j seen = rw (get-put k j true seen, is_seen) (ground arith)

-- Marking a key as seen drops its candidates.
unseen-put :
    (k : Text) (seen : Dict Text Bool) (cs : List FallbackCandidate)
    → unseen (put k true seen) cs ≡ without_key k (unseen seen cs)
unfolding unseen without_key
unseen-put k seen [] = refl
unseen-put k seen (c ∷ cs) =
    ground (arith, unseen-put k seen cs, is_seen-put k (candidate_key c) seen)

-- Dropping unseen candidates commutes with dropping a key.
unseen-without_key :
    (k : Text) (seen : Dict Text Bool) (cs : List FallbackCandidate)
    → unseen seen (without_key k cs) ≡ without_key k (unseen seen cs)
unfolding unseen without_key
unseen-without_key k seen [] = refl
unseen-without_key k seen (c ∷ cs) = ground (arith, unseen-without_key k seen cs)

-- A key that has been seen has no unseen candidate.
unseen_of_seen :
    (k : Text) (seen : Dict Text Bool) (cs : List FallbackCandidate)
    → is_seen k seen ≡ true
    → without_key k (unseen seen cs) ≡ unseen seen cs
unfolding unseen without_key
unseen_of_seen k seen [] h = refl
unseen_of_seen k seen (c ∷ cs) h =
    ground (arith, unseen_of_seen k seen cs, eq_iff k (candidate_key c))

-- One step of the loop, given what holds of the rest.
add_candidate_ref-unseen :
    (rest : Resolving → Resolving) (firsts : List FallbackCandidate)
    → ((r : Resolving) → (rest r).candidates ≡ r.candidates ++ unseen r.seen firsts)
    → (r : Resolving) (ref : ModelRef)
    → (rest (add_candidate_ref r (some ref))).candidates
      ≡ r.candidates
        ++ unseen r.seen (candidate_of ref ∷ without_key (model_key ref.provider ref.model) firsts)
unfolding add_candidate_ref unseen
add_candidate_ref-unseen rest firsts ih r ref = elim (Bool-cases (is_seen key r.seen)) [
  | inl e ↦
      rw (e, add_candidate_ref)
        (ih r
          ∙ ap (◌++◌ r.candidates)
              (sym (unseen-without_key key r.seen firsts ∙ unseen_of_seen key r.seen firsts e)))
  | inr e ↦
      rw (e, add_candidate_ref)
        (ih _
          ∙ append_assoc r.candidates (candidate_of ref ∷ []) _
          ∙ ap (λ t. r.candidates ++ candidate_of ref ∷ t)
              (unseen-put key r.seen firsts ∙ sym (unseen-without_key key r.seen firsts)))
]
  where
    key : Text
    key = model_key ref.provider ref.model

add_candidates-unseen :
    (lookup : Option (Text → Option Text)) (d : Text) (raws : List Text) (r : Resolving)
    → (add_candidates lookup d r raws).candidates
      ≡ r.candidates ++ unseen r.seen (first_of_each (parsed lookup d raws))
unfolding add_candidates parsed first_of_each unseen
add_candidates-unseen lookup d [] r = sym (append-nil r.candidates)
add_candidates-unseen lookup d (raw ∷ raws) r =
    go (parse_model_ref (candidate_raw lookup raw) d) (add_candidates-unseen lookup d raws)
  where
    go :
        (o : Option ModelRef)
        → ((q : Resolving)
            → (add_candidates lookup d q raws).candidates
              ≡ q.candidates ++ unseen q.seen (first_of_each (parsed lookup d raws)))
        → (add_candidates lookup d (add_candidate_ref r o) raws).candidates
          ≡ r.candidates
            ++ unseen r.seen (
                first_of_each (elim o [
                  | none ↦ parsed lookup d raws
                  | some ref ↦ candidate_of ref ∷ parsed lookup d raws
                ]))
    go none ih = unfold add_candidate_ref in ih r
    go (some ref) ih =
        add_candidate_ref-unseen (λ q. add_candidates lookup d q raws)
          (first_of_each (parsed lookup d raws)) ih r ref

unseen-nothing : (cs : List FallbackCandidate) → unseen [] cs ≡ cs
unfolding unseen get
unseen-nothing [] = refl
unseen-nothing (c ∷ cs) = ap (◌∷◌ c) (unseen-nothing cs)

-- The resolved candidates are those that parse among the primary model and the fallbacks, in that
-- order, without the later ones of each provider/model key.
pub resolve_candidates-first_of_each :
    (cfg : ModelConfig) (d : Text) (lookup : Option (Text → Option Text))
    → resolve_candidates_with_lookup cfg d lookup
      ≡ first_of_each (parsed lookup d (cfg.primary ∷ cfg.fallbacks))
unfolding resolve_candidates_with_lookup
resolve_candidates-first_of_each cfg d lookup =
    unfold add_candidates in
    add_candidates-unseen lookup d (cfg.primary ∷ cfg.fallbacks) _ ∙ unseen-nothing _

-- No candidate has the key of another.
abbrev pub DistinctKeys : List FallbackCandidate → Type 0
DistinctKeys [] = Unit
DistinctKeys (c ∷ cs) = All (λ x. candidate_key c ≢ candidate_key x) cs × DistinctKeys cs

without_key-All :
    (P : FallbackCandidate → Type 0) (k : Text) (cs : List FallbackCandidate)
    → All P cs
    → All P (without_key k cs)
unfolding without_key
without_key-All P k [] h = tt
without_key-All P k (c ∷ cs) h = elim (Bool-cases (k == candidate_key c)) [
  | inl e ↦ rw e (without_key-All P k cs h.1)
  | inr e ↦ rw e (h.0, without_key-All P k cs h.1)
]

without_key-ne :
    (k : Text) (cs : List FallbackCandidate) → All (λ x. k ≢ candidate_key x) (without_key k cs)
unfolding without_key
without_key-ne k [] = tt
without_key-ne k (c ∷ cs) = elim (Bool-cases (k == candidate_key c)) [
  | inl e ↦ rw e (without_key-ne k cs)
  | inr e ↦ rw e ((λ q. cc (e, (eq_iff k (candidate_key c)).1 q)), without_key-ne k cs)
]

without_key-DistinctKeys :
    (k : Text) (cs : List FallbackCandidate) → DistinctKeys cs → DistinctKeys (without_key k cs)
unfolding without_key
without_key-DistinctKeys k [] h = tt
without_key-DistinctKeys k (c ∷ cs) h = elim (Bool-cases (k == candidate_key c)) [
  | inl e ↦ rw e (without_key-DistinctKeys k cs h.1)
  | inr e ↦ rw e (without_key-All _ k cs h.0, without_key-DistinctKeys k cs h.1)
]

first_of_each-DistinctKeys : (cs : List FallbackCandidate) → DistinctKeys (first_of_each cs)
unfolding first_of_each
first_of_each-DistinctKeys [] = tt
first_of_each-DistinctKeys (c ∷ cs) = (
  without_key-ne (candidate_key c) (first_of_each cs),
  without_key-DistinctKeys (candidate_key c) (first_of_each cs) (first_of_each-DistinctKeys cs),
)

-- The chain never tries one provider/model key twice.
pub resolve_candidates-DistinctKeys :
    (cfg : ModelConfig) (d : Text) (lookup : Option (Text → Option Text))
    → DistinctKeys (resolve_candidates_with_lookup cfg d lookup)
resolve_candidates-DistinctKeys cfg d lookup =
    rw (resolve_candidates-first_of_each cfg d lookup) (first_of_each-DistinctKeys _)
