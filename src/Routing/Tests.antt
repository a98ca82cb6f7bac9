-- ===== src/Routing/Tests.antt =====
-- Routing at concrete configurations.
use aetherclaw.Common.{◌≡◌, refl, ◌≢◌, true, false, none, some, [], ◌∷◌, map, nat_key, All}
use aetherclaw.Common.Text.{
  Text, codes, lower, is_space, trim_left, trim_right, trim_space, text_beq, index,
}
use aetherclaw.Routing.AgentId.{normalize_agent_id, normalize_account_id}
use aetherclaw.Routing.AgentId.Laws.{IsSafeId, normalize-IsSafeId}
use aetherclaw.Routing.AgentId.Idempotent.{StartsAlnum}
use aetherclaw.Routing.SessionKey.{
  SessionKeyParams, build_agent_peer_session_key, dm_scope_per_peer, resolve_linked_peer_id,
  agent_key,
}
use aetherclaw.Routing.SessionKey.PeerKey.{ParsesTo, build_agent_peer_session_key-ParsesTo}
use aetherclaw.Routing.Route.{AgentBinding, Config, RouteInput, resolve_route, first_level, choose}
use aetherclaw.Routing.Route.Configured.{Configured, IsNamed, resolve_route-Configured}
use aetherclaw.Routing.Route.Isolation.{with_bindings, resolve_route_isolated}

normalize-IsSafeId_example :
    IsSafeId (normalize_agent_id (codes " Support Bot! "))
    × IsSafeId (normalize_account_id (codes " Support Bot! "))
normalize-IsSafeId_example = normalize-IsSafeId (codes " Support Bot! ")

normalize_support_bot : normalize_agent_id (codes " Support Bot! ") ≡ codes "support-bot"
unfolding normalize_agent_id trim_space trim_left trim_right is_space lower
normalize_support_bot = refl

abbrev linked_peer : SessionKeyParams
linked_peer = record {
  agent_id = codes "Sales";
  channel = codes "Telegram";
  account_id = [];
  peer = some (record { kind = codes "direct"; id = codes "42" });
  dm_scope = dm_scope_per_peer;
  identity_links = (codes "Alice", codes "telegram:42" ∷ []) ∷ [];
}

sales-StartsAlnum : StartsAlnum (normalize_agent_id (codes "Sales"))
unfolding normalize_agent_id trim_space trim_left trim_right is_space lower
sales-StartsAlnum = refl

linked_peer_key : build_agent_peer_session_key linked_peer ≡ codes "agent:sales:direct:alice"
unfolding build_agent_peer_session_key trim_space trim_left trim_right is_space lower text_beq index
    resolve_linked_peer_id agent_key normalize_agent_id
linked_peer_key = refl

build_agent_peer_session_key-ParsesTo_example :
    ParsesTo (normalize_agent_id (codes "Sales")) (build_agent_peer_session_key linked_peer)
build_agent_peer_session_key-ParsesTo_example =
    build_agent_peer_session_key-ParsesTo linked_peer sales-StartsAlnum

abbrev bound : Text → Text → AgentBinding
bound agent channel = record {
  agent_id = agent;
  matching = record {
    channel = channel;
    account_id = [];
    peer = none;
    guild_id = [];
    team_id = [];
  };
}

abbrev two_agents : Config
two_agents = record {
  bindings = [];
  agents =
      record { id = codes "main"; is_default = true }
      ∷ record { id = codes "sales"; is_default = false }
      ∷ [];
  dm_scope = [];
  identity_links = [];
}

abbrev telegram_input : RouteInput
telegram_input = record {
  channel = codes " Telegram";
  account_id = [];
  peer = none;
  parent_peer = none;
  guild_id = [];
  team_id = [];
}

telegram_route :
    (resolve_route
      (with_bindings two_agents (bound (codes "Sales") (codes "telegram") ∷ []))
      telegram_input).agent_id
    ≡ codes "sales"
unfolding resolve_route trim_space trim_left trim_right is_space lower text_beq first_level
    normalize_account_id choose normalize_agent_id
telegram_route = refl

resolve_route_isolated_example :
    resolve_route
      (with_bindings two_agents
        (bound (codes "main") (codes "slack") ∷ bound (codes "sales") (codes "telegram") ∷ []))
      telegram_input
    ≡ resolve_route
        (with_bindings two_agents (bound (codes "sales") (codes "telegram") ∷ []))
        telegram_input
resolve_route_isolated_example =
    resolve_route_isolated two_agents telegram_input (bound (codes "main") (codes "slack")) []
      (bound (codes "sales") (codes "telegram") ∷ []) slack_is_other
  where
    slack_is_other :
        map lower (trim_space (codes "slack")) ≢ map lower (trim_space (codes " Telegram"))
    slack_is_other = unfold trim_space trim_left trim_right is_space lower in λ e. cc e

two_agents-IsNamed : All IsNamed two_agents.agents
unfolding normalize_agent_id trim_space trim_left trim_right is_space lower
two_agents-IsNamed = ((refl, refl), ((refl, refl), tt))

resolve_route-Configured_example :
    Configured two_agents.agents (resolve_route two_agents telegram_input).agent_id
resolve_route-Configured_example =
    resolve_route-Configured two_agents telegram_input refl two_agents-IsNamed
