-- ===== src/Routing/Route.antt =====
-- pkg/routing/route.go, with the parts of pkg/config/config.go that it reads.
pub mod Isolation
pub mod Configured
use aetherclaw.Common.{
  Bool, true, false, ◌&&◌, ◌||◌, not, Option, none, some, List, [], ◌∷◌, if◌then◌else◌, ◌==◌,
  nat_key,
}
use aetherclaw.Common.Text.{Text, text_key, codes, is_empty, to_lower, trim_space}
use aetherclaw.Common.Dict.{Dict}
use aetherclaw.Routing.AgentId.{
  default_agent_id, default_account_id, normalize_agent_id, normalize_account_id,
}
use aetherclaw.Routing.SessionKey.{
  RoutePeer, dm_scope_main, build_agent_main_session_key, build_agent_peer_session_key,
}

pub record BindingMatch : Type 0 where
  pub channel : Text
  pub account_id : Text
  pub peer : Option RoutePeer
  pub guild_id : Text
  pub team_id : Text

pub record AgentBinding : Type 0 where
  pub agent_id : Text
  pub matching : BindingMatch

pub record AgentConfig : Type 0 where
  pub id : Text
  pub is_default : Bool

-- what the resolver reads of the configuration
pub record Config : Type 0 where
  pub bindings : List AgentBinding
  pub agents : List AgentConfig
  pub dm_scope : Text
  pub identity_links : Dict Text (List Text)

pub record RouteInput : Type 0 where
  pub channel : Text
  pub account_id : Text
  pub peer : Option RoutePeer
  pub parent_peer : Option RoutePeer
  pub guild_id : Text
  pub team_id : Text

pub data MatchedBy : Type 0 where
  binding_peer binding_peer_parent binding_guild binding_team : MatchedBy
  binding_account binding_channel default_route : MatchedBy

pub record ResolvedRoute : Type 0 where
  pub agent_id : Text
  pub channel : Text
  pub account_id : Text
  pub session_key : Text
  pub main_session_key : Text
  pub matched_by : MatchedBy

unfoldable pub matches_account_id : Text → Text → Bool
matches_account_id match_account_id actual =
    let trimmed = trim_space match_account_id in
    if is_empty trimmed
    then actual == default_account_id
    else if trimmed == codes "*"
    then true
    else to_lower trimmed == to_lower actual

-- whether filterBindings keeps a binding
unfoldable pub keeps_binding : Text → Text → AgentBinding → Bool
unfolding matches_account_id
keeps_binding channel account_id b =
    let match_channel = to_lower (trim_space b.matching.channel) in
    if is_empty match_channel || not (match_channel == channel)
    then false
    else matches_account_id b.matching.account_id account_id

unfoldable pub filter_bindings : Text → Text → List AgentBinding → List AgentBinding
unfolding keeps_binding
filter_bindings channel account_id [] = []
filter_bindings channel account_id (b ∷ bs) =
    let rest = filter_bindings channel account_id bs in
    if keeps_binding channel account_id b then b ∷ rest else rest

-- the loop of the find functions
unfoldable pub find_binding : (AgentBinding → Bool) → List AgentBinding → Option AgentBinding
find_binding test [] = none
find_binding test (b ∷ bs) = if test b then some b else find_binding test bs

unfoldable pub peer_matches : RoutePeer → AgentBinding → Bool
peer_matches peer b = elim b.matching.peer [
  | none ↦ false
  | some p ↦
      let peer_kind = to_lower (trim_space p.kind) in
      let peer_id = trim_space p.id in
      if is_empty peer_kind || is_empty peer_id
      then false
      else peer_kind == to_lower peer.kind && peer_id == peer.id
]

unfoldable pub guild_matches : Text → AgentBinding → Bool
guild_matches guild_id b =
    let match_guild = trim_space b.matching.guild_id in
    not (is_empty match_guild) && match_guild == guild_id

unfoldable pub team_matches : Text → AgentBinding → Bool
team_matches team_id b =
    let match_team = trim_space b.matching.team_id in
    not (is_empty match_team) && match_team == team_id

-- b.Match.Peer != nil || b.Match.GuildID != "" || b.Match.TeamID != ""
abbrev pub is_some_peer : Option RoutePeer → Bool
is_some_peer none = false
is_some_peer (some p) = true

unfoldable pub is_specific : AgentBinding → Bool
is_specific b =
    is_some_peer b.matching.peer
    || (not (is_empty b.matching.guild_id) || not (is_empty b.matching.team_id))

unfoldable pub account_matches : AgentBinding → Bool
unfolding is_specific
account_matches b =
    if trim_space b.matching.account_id == codes "*"
    then false
    else if is_specific b
    then false
    else true

unfoldable pub channel_matches : AgentBinding → Bool
unfolding is_specific
channel_matches b =
    if not (trim_space b.matching.account_id == codes "*")
    then false
    else if is_specific b
    then false
    else true

-- the id of the first agent that is marked as default and has an id
unfoldable pub marked_default : List AgentConfig → Option Text
marked_default [] = none
marked_default (a ∷ agents) =
    let rest = marked_default agents in
    if a.is_default
    then (if is_empty (trim_space a.id) then rest else some (normalize_agent_id (trim_space a.id)))
    else rest

unfoldable pub resolve_default_agent_id : List AgentConfig → Text
unfolding marked_default
resolve_default_agent_id [] = default_agent_id
resolve_default_agent_id (a ∷ agents) = elim (marked_default (a ∷ agents)) [
  | some id ↦ id
  | none ↦
      if is_empty (trim_space a.id) then default_agent_id else normalize_agent_id (trim_space a.id)
]

unfoldable pub is_configured : Text → List AgentConfig → Bool
is_configured normalized [] = false
is_configured normalized (a ∷ agents) =
    if normalize_agent_id a.id == normalized then true else is_configured normalized agents

unfoldable pub pick_agent_id : List AgentConfig → Text → Text
unfolding resolve_default_agent_id is_configured
pick_agent_id agents agent_id =
    let trimmed = trim_space agent_id in
    let normalized = normalize_agent_id trimmed in
    if is_empty trimmed
    then normalize_agent_id (resolve_default_agent_id agents)
    else if is_empty agents
    then normalized
    else if is_configured normalized agents
    then normalized
    else normalize_agent_id (resolve_default_agent_id agents)

-- the closure `choose` of ResolveRoute
unfoldable pub choose : Config → Text → Text → Option RoutePeer → Text → MatchedBy → ResolvedRoute
unfolding pick_agent_id
choose cfg channel account_id peer agent_id matched_by =
    let resolved = pick_agent_id cfg.agents agent_id in
    record {
      agent_id = resolved;
      channel = channel;
      account_id = account_id;
      session_key = to_lower (
          build_agent_peer_session_key (record {
            agent_id = resolved;
            channel = channel;
            account_id = account_id;
            peer = peer;
            dm_scope = if is_empty cfg.dm_scope then dm_scope_main else cfg.dm_scope;
            identity_links = cfg.identity_links;
          }));
      main_session_key = to_lower (build_agent_main_session_key resolved);
      matched_by = matched_by;
    }

-- a level that needs a peer: nil and a blank id match nothing
unfoldable pub find_peer_match : List AgentBinding → Option RoutePeer → Option AgentBinding
unfolding peer_matches find_binding
find_peer_match bindings none = none
find_peer_match bindings (some peer) =
    if is_empty (trim_space peer.id) then none else find_binding (peer_matches peer) bindings

-- a level that needs an id
unfoldable pub find_id_match :
    (Text → AgentBinding → Bool) → List AgentBinding → Text → Option AgentBinding
unfolding find_binding
find_id_match test bindings id =
    if is_empty (trim_space id) then none else find_binding (test (trim_space id)) bindings

-- the levels in their order of priority
unfoldable pub find_level : List AgentBinding → RouteInput → MatchedBy → Option AgentBinding
unfolding find_peer_match find_id_match guild_matches team_matches account_matches channel_matches
find_level bindings input binding_peer = find_peer_match bindings input.peer
find_level bindings input binding_peer_parent = find_peer_match bindings input.parent_peer
find_level bindings input binding_guild = find_id_match guild_matches bindings input.guild_id
find_level bindings input binding_team = find_id_match team_matches bindings input.team_id
find_level bindings input binding_account = find_binding account_matches bindings
find_level bindings input binding_channel = find_binding channel_matches bindings
find_level bindings input default_route = none

abbrev pub levels : List MatchedBy
levels =
    binding_peer ∷ binding_peer_parent ∷ binding_guild ∷ binding_team ∷ binding_account
    ∷ binding_channel ∷ []

-- the first level with a match
unfoldable pub first_level :
    List AgentBinding → RouteInput → List MatchedBy → Option (Text × MatchedBy)
unfolding find_level
first_level bindings input [] = none
first_level bindings input (l ∷ ls) = elim (find_level bindings input l) [
  | some b ↦ some (b.agent_id, l)
  | none ↦ first_level bindings input ls
]

-- ResolveRoute behind filterBindings
abbrev pub route_among : Config → Text → Text → RouteInput → List AgentBinding → ResolvedRoute
route_among cfg channel account_id input bindings = elim (first_level bindings input levels) [
  | some (agent_id, matched_by) ↦ choose cfg channel account_id input.peer agent_id matched_by
  | none ↦
      choose cfg channel account_id input.peer (resolve_default_agent_id cfg.agents) default_route
]

unfoldable pub resolve_route : Config → RouteInput → ResolvedRoute
unfolding filter_bindings
resolve_route cfg input =
    let channel = to_lower (trim_space input.channel) in
    let account_id = normalize_account_id input.account_id in
    route_among cfg channel account_id input (filter_bindings channel account_id cfg.bindings)
