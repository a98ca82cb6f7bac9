-- ===== src/Routing/Route/Configured.antt =====
-- ResolveRoute and the agents of the configuration (pkg/routing/route.go).
use aetherclaw.Common.{
  ◌≡◌, refl, sym, ap, ◌∙◌, subst, inl, inr, Bool, true, false, Option, none, some, List, [], ◌∷◌,
  if◌then◌else◌, ◌==◌, nat_key, eq_iff, Bool-cases, All, Has,
}
use aetherclaw.Common.Text.{Text, text_key, is_empty, to_lower, trim_space, trim_space-trim_space}
use aetherclaw.Routing.AgentId.{
  default_agent_id, normalize_agent_id, normalize_account_id, sanitize,
}
use aetherclaw.Routing.AgentId.Idempotent.{StartsAlnum, normalize_again}
use aetherclaw.Routing.Route.{
  AgentConfig, Config, RouteInput, ResolvedRoute, MatchedBy, choose, filter_bindings, first_level,
  levels, resolve_route, resolve_default_agent_id, marked_default, is_configured, pick_agent_id,
}

-- The id is the normalised one of an agent of the list.
abbrev pub Configured : List AgentConfig → Text → Type 0
Configured agents id = (a : AgentConfig) × Has a agents × (id ≡ normalize_agent_id a.id)

-- An agent's id is not blank, and starts with a letter or a digit once it is normalised.
abbrev pub IsNamed : AgentConfig → Type 0
IsNamed a = (is_empty (trim_space a.id) ≡ false) × StartsAlnum (normalize_agent_id a.id)

normalize-trim_space : (id : Text) → normalize_agent_id (trim_space id) ≡ normalize_agent_id id
unfolding normalize_agent_id sanitize
normalize-trim_space id = rw (trim_space-trim_space id) refl

Configured-cons :
    (a : AgentConfig) (agents : List AgentConfig) (id : Text)
    → Configured agents id
    → Configured (a ∷ agents) id
Configured-cons a agents id (b, h, e) = (b, inr h, e)

-- What the search for a marked agent returns, when it returns.
abbrev FoundConfigured : List AgentConfig → Option Text → Type 0
FoundConfigured agents none = Unit
FoundConfigured agents (some id) = Configured agents id

FoundConfigured-cons :
    (a : AgentConfig) (agents : List AgentConfig) (o : Option Text)
    → FoundConfigured agents o
    → FoundConfigured (a ∷ agents) o
FoundConfigured-cons a agents none h = tt
FoundConfigured-cons a agents (some id) h = Configured-cons a agents id h

marked_default-FoundConfigured :
    (agents : List AgentConfig) → FoundConfigured agents (marked_default agents)
unfolding marked_default
marked_default-FoundConfigured [] = tt
marked_default-FoundConfigured (a ∷ agents) =
    go a.is_default (is_empty (trim_space a.id)) (
      FoundConfigured-cons a agents (marked_default agents) (marked_default-FoundConfigured agents))
  where
    go :
        (d b : Bool)
        → FoundConfigured (a ∷ agents) (marked_default agents)
        → FoundConfigured (a ∷ agents) (
            if d
            then (if b then marked_default agents else some (normalize_agent_id (trim_space a.id)))
            else marked_default agents)
    go true true h = h
    go true false h = (a, inl refl, normalize-trim_space a.id)
    go false b h = h

resolve_default-Configured :
    (a : AgentConfig) (agents : List AgentConfig)
    → is_empty (trim_space a.id) ≡ false
    → Configured (a ∷ agents) (resolve_default_agent_id (a ∷ agents))
unfolding resolve_default_agent_id
resolve_default-Configured a agents named =
    go (marked_default (a ∷ agents)) (marked_default-FoundConfigured (a ∷ agents))
  where
    go :
        (o : Option Text)
        → FoundConfigured (a ∷ agents) o
        → Configured (a ∷ agents) (elim o [
          | some id ↦ id
          | none ↦
              if is_empty (trim_space a.id)
              then default_agent_id
              else normalize_agent_id (trim_space a.id)
        ])
    go none h = rw named (a, inl refl, normalize-trim_space a.id)
    go (some id) h = h

IsNamed-of :
    (agents : List AgentConfig) (a : AgentConfig) → All IsNamed agents → Has a agents → IsNamed a
IsNamed-of [] a h has = absurd has
IsNamed-of (b ∷ agents) a h (inl e) = subst IsNamed e h.0
IsNamed-of (b ∷ agents) a h (inr has) = IsNamed-of agents a h.1 has

-- Normalising the id of a configured agent again keeps it.
Configured-normalize :
    (agents : List AgentConfig) (id : Text)
    → All IsNamed agents
    → Configured agents id
    → Configured agents (normalize_agent_id id)
Configured-normalize agents id h (a, has, e) =
    (a, has, ap normalize_agent_id e ∙ (normalize_again a.id).0 (IsNamed-of agents a h has).1)

is_configured-Configured :
    (id : Text) (agents : List AgentConfig) → is_configured id agents ≡ true → Configured agents id
unfolding is_configured
is_configured-Configured id [] h = cc h
is_configured-Configured id (a ∷ agents) h = elim (Bool-cases (normalize_agent_id a.id == id)) [
  | inl e ↦ (a, inl refl, sym ((eq_iff (normalize_agent_id a.id) id).0 e))
  | inr e ↦ Configured-cons a agents id (
      is_configured-Configured id agents
        (subst (λ b. (if b then true else is_configured id agents) ≡ true) e h))
]

pick_agent_id-Configured :
    (a : AgentConfig) (agents : List AgentConfig) (id : Text)
    → All IsNamed (a ∷ agents)
    → Configured (a ∷ agents) (pick_agent_id (a ∷ agents) id)
unfolding pick_agent_id
pick_agent_id-Configured a agents id h = elim (Bool-cases (is_empty (trim_space id))) [
  | inl e ↦ rw e default
  | inr e ↦
      rw e (elim (Bool-cases (is_configured (normalize_agent_id (trim_space id)) (a ∷ agents))) [
        | inl c ↦ rw c (is_configured-Configured _ (a ∷ agents) c)
        | inr c ↦ rw c default
      ])
]
  where
    default : Configured (a ∷ agents) (normalize_agent_id (resolve_default_agent_id (a ∷ agents)))
    default =
        Configured-normalize (a ∷ agents) (resolve_default_agent_id (a ∷ agents)) h
          (resolve_default-Configured a agents h.0.0)

-- Where agents are configured, and every one has an id that is not blank and starts with a
-- letter or a digit once it is normalised, every input is routed to one of them, whatever agents
-- the bindings name.
pub resolve_route-Configured :
    (cfg : Config) (input : RouteInput)
    → is_empty cfg.agents ≡ false
    → All IsNamed cfg.agents
    → Configured cfg.agents (resolve_route cfg input).agent_id
unfolding resolve_route choose
resolve_route-Configured cfg input some_agents named = go (
    first_level
      (filter_bindings (to_lower (trim_space input.channel)) (normalize_account_id input.account_id)
        cfg.bindings)
      input levels)
  where
    pick :
        (agents : List AgentConfig) (id : Text)
        → is_empty agents ≡ false
        → All IsNamed agents
        → Configured agents (pick_agent_id agents id)
    pick [] id some_agents named = cc some_agents
    pick (a ∷ agents) id some_agents named = pick_agent_id-Configured a agents id named

    go :
        (o : Option (Text × MatchedBy))
        → Configured cfg.agents
            (elim o as (λ x. ResolvedRoute) [
              | some (agent_id, matched_by) ↦
                  choose cfg
                    (to_lower (trim_space input.channel))
                    (normalize_account_id input.account_id)
                    input.peer
                    agent_id
                    matched_by
              | none ↦
                  choose cfg
                    (to_lower (trim_space input.channel))
                    (normalize_account_id input.account_id)
                    input.peer
                    (resolve_default_agent_id cfg.agents)
                    MatchedBy.default_route
            ]).agent_id
    go none = pick cfg.agents (resolve_default_agent_id cfg.agents) some_agents named
    go (some (agent_id, matched_by)) = pick cfg.agents agent_id some_agents named
