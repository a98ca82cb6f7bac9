-- ===== src/Multiagent/Handoff/Chain.antt =====
-- Chains of handoffs (pkg/multiagent/handoff.go, pkg/multiagent/handoff_tool.go).
use aetherclaw.Common.{
  ℕ, zero, suc, ◌≤◌, ◌<◌, ◌≡◌, refl, sym, ◌∙◌, subst, inl, inr, false, Option, none, some, List, [],
  ◌∷◌, ◌++◌, arith, leb, if◌then◌else◌, ◌==◌, nat_key, eq_iff, some_inj, Bool-cases, length,
  length-append,
}
use aetherclaw.Common.Text.{Text, text_key}
use aetherclaw.Common.Dict.{Dict, get, put, get-put}
use aetherclaw.Tools.Registry.Order.{is_listed, is_listed-append}
use aetherclaw.Multiagent.Handoff.{
  HandoffRequest, HandoffTool, HandoffState, AgentInfo, max_depth_of, check_handoff, deeper,
  put_deeper, enter_handoff,
}
use aetherclaw.Multiagent.Handoff.Tool.{request_of}

-- No text is in the chain twice.
abbrev pub Distinct : List Text → Type 0
Distinct [] = Unit
Distinct (x ∷ xs) = (is_listed x xs ≡ false) × Distinct xs

-- The chain that a tool continues: as many different texts as its depth, within the limit.
pub record Chained (t : HandoffTool) : Type 0 where
  pub distinct : Distinct t.visited
  pub measured : length t.visited ≡ t.depth
  pub limited : t.depth ≤ max_depth_of t.max_depth

-- The states after any handoffs that tools of the agents asked for and that passed the guards, and
-- after anything that leaves the handoff tools alone.
pub data Chains {W A C E : Type 0} (get_agent_info : Text → Option (AgentInfo W A C E))
    (first : HandoffState W) : HandoffState W → Type 0 where
  unused : Chains get_agent_info first first
  elsewhere :
      {s : HandoffState W}
      → (s' : HandoffState W) → Chains get_agent_info first s
      → s'.handoff_tools ≡ s.handoff_tools
      → Chains get_agent_info first s'
  handed :
      {s : HandoffState W}
      → (agent to task key : Text) → (context : Dict Text Text) → (now : ℕ) → (t : HandoffTool)
      → (target : AgentInfo W A C E) → Chains get_agent_info first s
      → get agent s.handoff_tools ≡ some t
      → check_handoff get_agent_info (request_of to task context key t) ≡ inr target
      → Chains get_agent_info first (enter_handoff now (request_of to task context key t) target s)

Distinct-append :
    (x : Text) (xs : List Text) → Distinct xs → is_listed x xs ≡ false → Distinct (xs ++ x ∷ [])
unfolding is_listed
Distinct-append x [] d h = (refl, tt)
Distinct-append x (y ∷ xs) d h = (
  ground (arith, d.0, is_listed-append y xs (x ∷ []), eq_iff x y, eq_iff y x),
  Distinct-append x xs d.1 (ground arith),
)

-- What the guards establish.
check_handoff-passed :
    {T : Type 0} (get_agent_info : Text → Option T) (req : HandoffRequest) (target : T)
    → check_handoff get_agent_info req ≡ inr target
    → (req.depth < max_depth_of req.max_depth) × (is_listed req.to_agent_id req.visited ≡ false)
unfolding check_handoff
check_handoff-passed get_agent_info req target h =
    elim (Bool-cases (leb (max_depth_of req.max_depth) req.depth)) [
      | inl e ↦ cc (rw (e, check_handoff) at h)
      | inr e ↦ elim (Bool-cases (is_listed req.to_agent_id req.visited)) [
        | inl f ↦ cc (rw (e, f, check_handoff) at h)
        | inr f ↦ (ground arith, f)
      ]
    ]

max_depth_of-pos : (n : ℕ) → max_depth_of (max_depth_of n) ≡ max_depth_of n
unfolding max_depth_of
max_depth_of-pos zero = refl
max_depth_of-pos (suc n) = refl

deeper-Chained :
    (req : HandoffRequest) (t : HandoffTool)
    → Distinct req.visited
    → length req.visited ≡ req.depth
    → req.depth < max_depth_of req.max_depth
    → is_listed req.to_agent_id req.visited ≡ false
    → Chained (deeper req t)
unfolding deeper
deeper-Chained req t d measured lt fresh = record {
  distinct = Distinct-append req.to_agent_id req.visited d fresh;
  measured = omega (arith, measured, length-append req.visited (req.to_agent_id ∷ []));
  limited = omega (arith, lt, max_depth_of-pos req.max_depth);
}

abbrev AllChained : Dict Text HandoffTool → Type 0
AllChained tools = (agent : Text) (t : HandoffTool) → get agent tools ≡ some t → Chained t

put_deeper-AllChained :
    (id : Text) (req : HandoffRequest) (old : Option HandoffTool) (tools : Dict Text HandoffTool)
    → ((t : HandoffTool) → Chained (deeper req t))
    → AllChained tools
    → AllChained (put_deeper id req old tools)
put_deeper-AllChained id req none tools chained h agent t e = h agent t e
put_deeper-AllChained id req (some old) tools chained h agent t e =
    elim (Bool-cases (id == agent)) [
      | inl same ↦ subst Chained (some_inj (sym (rw same at got) ∙ e)) (chained old)
      | inr other ↦ h agent t (sym (rw other at got) ∙ e)
    ]
  where
    got :
        get agent (put id (deeper req old) tools)
        ≡ (if id == agent then some (deeper req old) else get agent tools)
    got = get-put id agent (deeper req old) tools

module _ {W A C E : Type 0} (get_agent_info : Text → Option (AgentInfo W A C E))
    (first : HandoffState W) where
  -- Suppose that at first the chain of each handoff tool has as many texts as its depth, none twice,
  -- and at most as many as the limit. However handoffs that pass the guards follow on each other, one
  -- within another or one after another, whatever else is done that leaves the handoff tools alone
  -- and whatever agents the resolver finds for the texts, this stays so: no chain has more texts than
  -- the limit, and no agent is asked for twice in a chain by one text.
  pub Chains-Chained :
      ((agent : Text) (t : HandoffTool) → get agent first.handoff_tools ≡ some t → Chained t)
      → (s : HandoffState W) → Chains get_agent_info first s
      → (agent : Text) (t : HandoffTool) → get agent s.handoff_tools ≡ some t
      → Chained t
  unfolding request_of enter_handoff
  Chains-Chained start _ unused = start
  Chains-Chained start _ (elsewhere {s} s' c same) = λ agent t found.
      Chains-Chained start s c agent t (subst (λ tools. get agent tools ≡ some t) same found)
  Chains-Chained start _ (handed {s} agent to task key context now t target c found passed) =
      let before = Chains-Chained start s c in
      let chained = before agent t found in
      let req = request_of to task context key t in
      let (lt, fresh) = check_handoff-passed get_agent_info req target passed in
      put_deeper-AllChained target.id req (get target.id s.handoff_tools) s.handoff_tools
        (λ old. deeper-Chained req old chained.distinct chained.measured lt fresh) before
