-- ===== src/Routing/SessionKey/PeerKey.antt =====
-- BuildAgentPeerSessionKey against ParseAgentSessionKey (pkg/routing/session_key.go).
use aetherclaw.Common.{
  ◌≡◌, refl, ◌∙◌, subst, Bool, true, false, ◌&&◌, not, Option, none, some, List, [], ◌∷◌, ◌++◌,
  if◌then◌else◌, ◌==◌, nat_key,
}
use aetherclaw.Common.Text.{
  Text, text_key, codes, is_empty, to_lower, trim_space, is_space, is_space-lower,
  trim_space-IsTrimmed, EndsDense,
}
use aetherclaw.Common.Dict.{Dict}
use aetherclaw.Routing.AgentId.{normalize_agent_id, normalize_account_id}
use aetherclaw.Routing.AgentId.Laws.{normalize-IsSafeId}
use aetherclaw.Routing.AgentId.Idempotent.{StartsAlnum, normalize_again}
use aetherclaw.Routing.SessionKey.{
  SessionKeyParams, agent_key, build_agent_main_session_key, parse_agent_session_key,
  build_agent_peer_session_key, group_key, direct_key, direct_rest, direct_peer_id, or_unknown,
  normalize_channel, linked_name, links_to, resolve_linked_peer_id, link_candidates, scope_or_main,
  peer_or_direct, kind_or_direct, dm_scope_main, dm_scope_per_peer, dm_scope_per_channel_peer,
  dm_scope_per_account_channel_peer,
}
use aetherclaw.Routing.SessionKey.RoundTrip.{parse-agent_key, parse-main_key}
use aetherclaw.Common.Text.{EndsFilled, EndsFilled-append}

EndsDense-to_lower : (s : Text) → EndsDense s → EndsDense (to_lower s)
EndsDense-to_lower [] h = tt
EndsDense-to_lower (c ∷ []) h = is_space-lower c ∙ h
EndsDense-to_lower (c ∷ d ∷ s) h = EndsDense-to_lower (d ∷ s) h

linked_name-EndsDense :
    (candidates : List Text) (links : Dict Text (List Text))
    → EndsDense (linked_name candidates links)
unfolding linked_name
linked_name-EndsDense candidates [] = tt
linked_name-EndsDense candidates ((canonical, ids) ∷ links) =
    go (linked_name-EndsDense candidates links) (is_empty (trim_space canonical))
      (links_to candidates ids)
  where
    go :
        EndsDense (linked_name candidates links)
        → (b l : Bool)
        → EndsDense (
            if b
            then linked_name candidates links
            else if l
            then trim_space canonical
            else linked_name candidates links)
    go rest true l = rest
    go rest false true = (trim_space-IsTrimmed canonical).1
    go rest false false = rest

resolve_linked-EndsDense :
    (links : Dict Text (List Text)) (channel id : Text)
    → EndsDense (resolve_linked_peer_id links channel id)
unfolding resolve_linked_peer_id
resolve_linked-EndsDense links channel id = go (is_empty links) (is_empty (trim_space id))
  where
    go :
        (b l : Bool)
        → EndsDense
            (if b then [] else if l then [] else linked_name (link_candidates channel id) links)
    go true l = tt
    go false true = tt
    go false false = linked_name-EndsDense (link_candidates channel id) links

direct_peer_id-EndsDense :
    (params : SessionKeyParams) (scope id : Text) → EndsDense (direct_peer_id params scope id)
unfolding direct_peer_id
direct_peer_id-EndsDense params scope id =
    EndsDense-to_lower
      (if not (scope == dm_scope_main) && not (is_empty (trim_space id))
        then (if is_empty linked then trim_space id else linked)
        else trim_space id)
      (go (not (scope == dm_scope_main) && not (is_empty (trim_space id))) (is_empty linked))
  where
    linked : Text
    linked = resolve_linked_peer_id params.identity_links params.channel (trim_space id)

    go :
        (b l : Bool)
        → EndsDense (if b then (if l then trim_space id else linked) else trim_space id)
    go true true = (trim_space-IsTrimmed id).1
    go true false = resolve_linked-EndsDense params.identity_links params.channel (trim_space id)
    go false l = (trim_space-IsTrimmed id).1

-- A part of a key, when there is one, is filled.
abbrev PartFilled : Option Text → Type 0
PartFilled none = Unit
PartFilled (some s) = EndsFilled s

direct_rest-PartFilled :
    (params : SessionKeyParams) (scope peer_id : Text)
    → EndsDense peer_id
    → PartFilled (direct_rest params scope peer_id)
unfolding direct_rest
direct_rest-PartFilled params scope [] dense = tt
direct_rest-PartFilled params scope (c ∷ s) dense =
    go (scope == dm_scope_per_account_channel_peer) (scope == dm_scope_per_channel_peer)
      (scope == dm_scope_per_peer)
  where
    channel : Text
    channel = normalize_channel params.channel

    filled : EndsFilled (c ∷ s)
    filled = record { filled = refl; dense = dense }

    go :
        (b l p : Bool)
        → PartFilled (
            if b
            then some (
                channel
                ++ b':' ∷ (normalize_account_id params.account_id ++ (codes ":direct:" ++ c ∷ s)))
            else if l
            then some (channel ++ (codes ":direct:" ++ c ∷ s))
            else if p
            then some (codes "direct:" ++ c ∷ s)
            else none)
    go true l p = EndsFilled-append channel (
        EndsFilled-append (b':' ∷ []) (
          EndsFilled-append (normalize_account_id params.account_id)
            (EndsFilled-append (codes ":direct:") filled)))
    go false true p = EndsFilled-append channel (EndsFilled-append (codes ":direct:") filled)
    go false false true = EndsFilled-append (codes "direct:") filled
    go false false false = tt

-- The key parses, and names the agent.
abbrev pub ParsesTo : Text → Text → Type 0
ParsesTo agent key =
    (rest : Text) × (parse_agent_session_key key ≡ some (record { agent_id = agent; rest = rest }))

or_unknown-EndsFilled : (s : Text) → EndsDense s → EndsFilled (or_unknown s)
or_unknown-EndsFilled [] h = record { filled = refl; dense = unfold is_space in refl }
or_unknown-EndsFilled (c ∷ s) h = record { filled = refl; dense = h }

group_key-ParsesTo :
    (params : SessionKeyParams) (kind id : Text)
    → ParsesTo (normalize_agent_id params.agent_id) (group_key params kind id)
unfolding group_key
group_key-ParsesTo params kind id = (
  _,
  parse-agent_key (normalize_agent_id params.agent_id) _ (normalize-IsSafeId params.agent_id).0 (
      EndsFilled-append (normalize_channel params.channel) (
        EndsFilled-append (b':' ∷ []) (
          EndsFilled-append kind (
            EndsFilled-append (b':' ∷ []) (
              or_unknown-EndsFilled (to_lower (trim_space id))
                (EndsDense-to_lower (trim_space id) (trim_space-IsTrimmed id).1)))))),
)

direct_key-ParsesTo :
    (params : SessionKeyParams) (id : Text)
    → StartsAlnum (normalize_agent_id params.agent_id)
    → ParsesTo (normalize_agent_id params.agent_id) (direct_key params id)
unfolding direct_key
direct_key-ParsesTo params id alnum =
    go (direct_rest params scope (direct_peer_id params scope id)) (
      direct_rest-PartFilled params scope (direct_peer_id params scope id)
        (direct_peer_id-EndsDense params scope id))
  where
    agent : Text
    agent = normalize_agent_id params.agent_id

    scope : Text
    scope = scope_or_main params.dm_scope

    go :
        (o : Option Text)
        → PartFilled o
        → ParsesTo agent (elim o [
          | none ↦ build_agent_main_session_key agent
          | some rest ↦ agent_key agent rest
        ])
    go none h = (
      _,
      subst
          (λ a.
            parse_agent_session_key (build_agent_main_session_key agent)
            ≡ some (record { agent_id = a; rest = codes "main" }))
          ((normalize_again params.agent_id).0 alnum) (parse-main_key agent),
    )
    go (some rest) h = (rest, parse-agent_key agent rest (normalize-IsSafeId params.agent_id).0 h)

-- The session key of any peer, direct or not, in any scope and with any identity links, parses, and
-- the agent it names is the normalised agent of the parameters, where that id starts with a
-- letter or a digit.
pub build_agent_peer_session_key-ParsesTo :
    (params : SessionKeyParams)
    → StartsAlnum (normalize_agent_id params.agent_id)
    → ParsesTo (normalize_agent_id params.agent_id) (build_agent_peer_session_key params)
unfolding build_agent_peer_session_key
build_agent_peer_session_key-ParsesTo params alnum =
    go (kind_or_direct (peer_or_direct params.peer).kind == codes "direct")
  where
    go :
        (b : Bool)
        → ParsesTo (normalize_agent_id params.agent_id) (
            if b
            then direct_key params (peer_or_direct params.peer).id
            else group_key params
                (kind_or_direct (peer_or_direct params.peer).kind)
                (peer_or_direct params.peer).id)
    go true = direct_key-ParsesTo params (peer_or_direct params.peer).id alnum
    go false =
        group_key-ParsesTo params (kind_or_direct (peer_or_direct params.peer).kind)
          (peer_or_direct params.peer).id
