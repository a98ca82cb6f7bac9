-- ===== src/Routing/SessionKey.antt =====
-- pkg/routing/session_key.go. A map is the list of its entries in the order of iteration.
pub mod RoundTrip
pub mod PeerKey
use aetherclaw.Common.{
  suc, ◌-◌, Bool, true, false, ◌&&◌, ◌||◌, not, Option, none, some, List, [], ◌∷◌, ◌++◌, map, ltb,
  if◌then◌else◌, ◌==◌, nat_key, length, take, drop,
}
use aetherclaw.Common.Text.{
  Text, text_key, codes, is_empty, to_lower, trim_space, index, has_prefix,
}
use aetherclaw.Common.Dict.{Dict}
use aetherclaw.Routing.AgentId.{default_main_key, normalize_agent_id, normalize_account_id}

abbrev pub dm_scope_main : Text
dm_scope_main = codes "main"

abbrev pub dm_scope_per_peer : Text
dm_scope_per_peer = codes "per-peer"

abbrev pub dm_scope_per_channel_peer : Text
dm_scope_per_channel_peer = codes "per-channel-peer"

abbrev pub dm_scope_per_account_channel_peer : Text
dm_scope_per_account_channel_peer = codes "per-account-channel-peer"

pub record RoutePeer : Type 0 where
  pub kind : Text
  pub id : Text

pub record SessionKeyParams : Type 0 where
  pub agent_id : Text
  pub channel : Text
  pub account_id : Text
  pub peer : Option RoutePeer
  pub dm_scope : Text
  pub identity_links : Dict Text (List Text)

pub record ParsedSessionKey : Type 0 where
  pub agent_id : Text
  pub rest : Text

-- "agent:%s:%s"
unfoldable pub agent_key : Text → Text → Text
agent_key agent rest = codes "agent:" ++ (agent ++ b':' ∷ rest)

unfoldable pub build_agent_main_session_key : Text → Text
unfolding agent_key
build_agent_main_session_key agent_id = agent_key (normalize_agent_id agent_id) default_main_key

abbrev pub or_unknown : Text → Text
or_unknown s = if is_empty s then codes "unknown" else s

unfoldable pub normalize_channel : Text → Text
normalize_channel channel = or_unknown (trim_space (to_lower channel))

-- candidates: the id, the id behind the channel, and the bare id behind a platform
unfoldable pub link_candidates : Text → Text → List Text
link_candidates channel peer_id =
    let raw = to_lower (trim_space peer_id) in
    let ch = to_lower (trim_space channel) in
    let scoped = if is_empty ch then [] else (ch ++ b':' ∷ raw) ∷ [] in
    let bare : List Text = elim (index b':' raw) [
      | none ↦ []
      | some idx ↦ if ltb 0 idx && ltb idx (length raw - 1) then drop (suc idx) raw ∷ [] else []
    ] in
    raw ∷ (scoped ++ bare)

unfoldable pub is_member : Text → List Text → Bool
is_member s [] = false
is_member s (x ∷ xs) = s == x || is_member s xs

-- the inner loop: whether one of the ids is a candidate
unfoldable pub links_to : List Text → List Text → Bool
unfolding is_member
links_to candidates [] = false
links_to candidates (id ∷ ids) =
    let normalized = to_lower (trim_space id) in
    (not (is_empty normalized) && is_member normalized candidates) || links_to candidates ids

unfoldable pub linked_name : List Text → Dict Text (List Text) → Text
unfolding links_to
linked_name candidates [] = []
linked_name candidates ((canonical, ids) ∷ links) =
    let name = trim_space canonical in
    let rest = linked_name candidates links in
    if is_empty name then rest else if links_to candidates ids then name else rest

unfoldable pub resolve_linked_peer_id : Dict Text (List Text) → Text → Text → Text
unfolding link_candidates linked_name
resolve_linked_peer_id identity_links channel peer_id =
    if is_empty identity_links
    then []
    else if is_empty (trim_space peer_id)
    then []
    else linked_name (link_candidates channel peer_id) identity_links

-- peerID of a direct peer: resolved through the identity links, in lower case
unfoldable pub direct_peer_id : SessionKeyParams → Text → Text → Text
direct_peer_id params dm_scope id =
    let peer_id = trim_space id in
    let linked = resolve_linked_peer_id params.identity_links params.channel peer_id in
    let resolved =
      if not (dm_scope == dm_scope_main) && not (is_empty peer_id)
      then (if is_empty linked then peer_id else linked)
      else peer_id in
    to_lower resolved

-- the switch over the scope of a direct message; `none` is the main key
unfoldable pub direct_rest : SessionKeyParams → Text → Text → Option Text
direct_rest params dm_scope peer_id =
    let channel = normalize_channel params.channel in
    if is_empty peer_id
    then none
    else if dm_scope == dm_scope_per_account_channel_peer
    then some (
        channel ++ b':' ∷ (normalize_account_id params.account_id ++ (codes ":direct:" ++ peer_id)))
    else if dm_scope == dm_scope_per_channel_peer
    then some (channel ++ (codes ":direct:" ++ peer_id))
    else if dm_scope == dm_scope_per_peer
    then some (codes "direct:" ++ peer_id)
    else none

abbrev pub nil_peer : RoutePeer
nil_peer = record { kind = codes "direct"; id = [] }

abbrev pub peer_or_direct : Option RoutePeer → RoutePeer
peer_or_direct none = nil_peer
peer_or_direct (some p) = p

abbrev pub kind_or_direct : Text → Text
kind_or_direct kind = if is_empty (trim_space kind) then codes "direct" else trim_space kind

abbrev pub scope_or_main : Text → Text
scope_or_main scope = if is_empty scope then dm_scope_main else scope

unfoldable pub direct_key : SessionKeyParams → Text → Text
unfolding direct_peer_id direct_rest
direct_key params id =
    let agent = normalize_agent_id params.agent_id in
    let scope = scope_or_main params.dm_scope in
    elim (direct_rest params scope (direct_peer_id params scope id)) [
      | none ↦ build_agent_main_session_key agent
      | some rest ↦ agent_key agent rest
    ]

unfoldable pub group_key : SessionKeyParams → Text → Text → Text
group_key params kind id = agent_key (normalize_agent_id params.agent_id) (
    normalize_channel params.channel
    ++ b':' ∷ (kind ++ b':' ∷ or_unknown (to_lower (trim_space id))))

unfoldable pub build_agent_peer_session_key : SessionKeyParams → Text
unfolding direct_key group_key
build_agent_peer_session_key params =
    let peer = peer_or_direct params.peer in
    let kind = kind_or_direct peer.kind in
    if kind == codes "direct" then direct_key params peer.id else group_key params kind peer.id

-- strings.SplitN(raw, ":", 3), where it has three parts
unfoldable pub split_three : Text → Option (Text × Text × Text)
split_three raw = elim (index b':' raw) [
  | none ↦ none
  | some i ↦
      let tail = drop (suc i) raw in
      elim (index b':' tail) [
        | none ↦ none
        | some j ↦ some (take i raw, take j tail, drop (suc j) tail)
      ]
]

unfoldable pub parse_parts : Option (Text × Text × Text) → Option ParsedSessionKey
parse_parts none = none
parse_parts (some (first, second, rest)) =
    let agent = trim_space second in
    if not (first == codes "agent")
    then none
    else if is_empty agent || is_empty rest
    then none
    else some (record { agent_id = agent; rest = rest })

unfoldable pub parse_agent_session_key : Text → Option ParsedSessionKey
unfolding split_three parse_parts
parse_agent_session_key session_key =
    let raw = trim_space session_key in if is_empty raw then none else parse_parts (split_three raw)

unfoldable pub is_subagent_session_key : Text → Bool
is_subagent_session_key session_key =
    let raw = trim_space session_key in
    if is_empty raw
    then false
    else if has_prefix (codes "subagent:") (to_lower raw)
    then true
    else elim (parse_agent_session_key raw) [
      | none ↦ false
      | some parsed ↦ has_prefix (codes "subagent:") (to_lower parsed.rest)
    ]
