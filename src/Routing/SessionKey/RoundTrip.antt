-- ===== src/Routing/SessionKey/RoundTrip.antt =====
-- Keys of the form agent:<id>:<rest> and ParseAgentSessionKey (pkg/routing/session_key.go).
use aetherclaw.Common.{
  ℕ, suc, ◌≡◌, refl, ap, ◌≢◌, false, some, [], ◌∷◌, ◌++◌, arith, nat_key, length, take, drop, All,
}
use aetherclaw.Common.Text.{
  EndsFilled, EndsFilled-append, Text, text_key, codes, is_empty, trim_space-eq, is_space,
  IsTrimmed, index, text_beq,
}
use aetherclaw.Routing.AgentId.{default_main_key, is_id_char, normalize_agent_id}
use aetherclaw.Routing.AgentId.Laws.{IsIdChar, IsSafeId, normalize-IsSafeId}
use aetherclaw.Routing.AgentId.Idempotent.{IsTrimmed-id}
use aetherclaw.Routing.SessionKey.{
  agent_key, build_agent_main_session_key, split_three, parse_parts, parse_agent_session_key,
}

-- No character is a colon.
abbrev NoColon : Text → Type 0
NoColon = All (λ c. c ≢ b':')

id-NoColon : (s : Text) → All IsIdChar s → NoColon s
unfolding is_id_char
id-NoColon [] h = tt
id-NoColon (c ∷ s) h = (ground arith, id-NoColon s h.1)

index_of_append : (p m : Text) → NoColon p → index b':' (p ++ b':' ∷ m) ≡ some (length p)
unfolding index
index_of_append [] m h = refl
index_of_append (c ∷ p) m h = ground (arith, index_of_append p m h.1, h.0)

take_of_append : (p m : Text) → take (length p) (p ++ m) ≡ p
take_of_append [] m = refl
take_of_append (c ∷ p) m = ap (◌∷◌ c) (take_of_append p m)

drop_of_append : (p m : Text) (c : ℕ) → drop (suc (length p)) (p ++ c ∷ m) ≡ m
drop_of_append [] m c = refl
drop_of_append (d ∷ p) m c = drop_of_append p m c

split_three-agent_key :
    (agent rest : Text)
    → NoColon agent
    → split_three (agent_key agent rest) ≡ some (codes "agent", agent, rest)
unfolding split_three agent_key index
split_three-agent_key agent rest h =
    rw
      (
        index_of_append agent rest h,
        split_three,
        take_of_append agent (b':' ∷ rest),
        drop_of_append agent rest b':',
      )
      refl

agent_key-IsTrimmed : (agent rest : Text) → EndsFilled rest → IsTrimmed (agent_key agent rest)
unfolding agent_key
agent_key-IsTrimmed agent rest h = (
  unfold is_space in refl,
  (EndsFilled-append (codes "agent:")
      (EndsFilled-append agent (EndsFilled-append (b':' ∷ []) h))).dense,
)

safe_filled : (s : Text) → IsSafeId s → is_empty s ≡ false
safe_filled [] h = absurd (omega (arith, h.filled))
safe_filled (c ∷ s) h = refl

pub parse-agent_key :
    (agent rest : Text)
    → IsSafeId agent
    → EndsFilled rest
    → parse_agent_session_key (agent_key agent rest)
      ≡ some (record { agent_id = agent; rest = rest })
unfolding parse_agent_session_key
parse-agent_key agent rest safe h =
    rw (trim_space-eq (agent_key agent rest) (agent_key-IsTrimmed agent rest h))
      (rw (filled, split_three-agent_key agent rest (id-NoColon agent safe.chars)) parts)
  where
    filled : is_empty (agent_key agent rest) ≡ false
    filled = unfold agent_key in refl

    parts :
        parse_parts (some (codes "agent", agent, rest))
        ≡ some (record { agent_id = agent; rest = rest })
    parts =
        unfold parse_parts text_beq in
        rw (trim_space-eq agent (IsTrimmed-id agent safe.chars), safe_filled agent safe, h.filled)
          refl

-- The main key of any agent parses back to the id of the agent, normalised, and the rest "main".
pub parse-main_key :
    (agent_id : Text)
    → parse_agent_session_key (build_agent_main_session_key agent_id)
      ≡ some (record { agent_id = normalize_agent_id agent_id; rest = default_main_key })
unfolding build_agent_main_session_key
parse-main_key agent_id =
    parse-agent_key (normalize_agent_id agent_id) default_main_key (normalize-IsSafeId agent_id).0
      (record { filled = refl; dense = unfold is_space in refl })
