-- ===== src/Tools/Autonomy.antt =====
-- pkg/tools/autonomy.go. The levels are their numbers; the approver works on the state `W`.
use aetherclaw.Common.{
  ℕ, Bool, true, false, Option, none, some, List, [], ◌∷◌, leb, if◌then◌else◌, nat_key,
}
use aetherclaw.Common.Text.{Text, text_key, codes}
use aetherclaw.Common.Dict.{Dict, get, put}
use aetherclaw.Tools.Registry.{ToolHook}

abbrev pub l0_observe : ℕ
l0_observe = 0

abbrev pub l1_reversible : ℕ
l1_reversible = 1

abbrev pub l2_recoverable : ℕ
l2_recoverable = 2

abbrev pub l3_irreversible : ℕ
l3_irreversible = 3

abbrev pub at_level : ℕ → List Text → Dict Text ℕ → Dict Text ℕ
at_level level [] rest = rest
at_level level (name ∷ names) rest = (name, level) ∷ at_level level names rest

abbrev pub observing : List Text
observing =
    codes "read_file"
    ∷ codes "list_dir"
    ∷ codes "agents_list"
    ∷ codes "list_agents"
    ∷ codes "sessions_list"
    ∷ codes "sessions_history"
    ∷ codes "blackboard"
    ∷ codes "usage"
    ∷ []

abbrev pub reversible : List Text
reversible =
    codes "write_file"
    ∷ codes "edit_file"
    ∷ codes "append_file"
    ∷ codes "memory"
    ∷ codes "auto_reply"
    ∷ codes "pairing"
    ∷ codes "message"
    ∷ codes "tts"
    ∷ codes "channel_actions"
    ∷ []

abbrev pub recoverable : List Text
recoverable =
    codes "web_search"
    ∷ codes "web_fetch"
    ∷ codes "image_gen"
    ∷ codes "find_skills"
    ∷ codes "install_skill"
    ∷ codes "handoff"
    ∷ codes "spawn_agent"
    ∷ codes "sessions_send"
    ∷ []

abbrev pub irreversible : List Text
irreversible = codes "exec" ∷ codes "exec_approval" ∷ codes "cron" ∷ codes "i2c" ∷ codes "spi" ∷ []

unfoldable pub default_tool_classification : Dict Text ℕ
default_tool_classification = at_level l0_observe observing (
    at_level l1_reversible reversible
      (at_level l2_recoverable recoverable (at_level l3_irreversible irreversible [])))

-- the errors of BeforeExecute, without their texts
pub data AutonomyError (E : Type 0) : Type 0 where
  approval_failed : Text → E → AutonomyError E
  approval_denied : Text → ℕ → AutonomyError E
  not_allowed : Text → ℕ → AutonomyError E

-- RequestApproval: the agent, the tool and the two levels
abbrev pub ApprovalRequester : Type 0 → Type 0 → Type 0
ApprovalRequester W E = Text → Text → ℕ → ℕ → W → (Option E × Bool) × W

pub record AutonomyHook (W E : Type 0) : Type 0 where
  pub agent_level : ℕ
  pub agent_id : Text
  pub approver : Option (ApprovalRequester W E)
  pub classifications : Dict Text ℕ

abbrev pub level_or_default : Option ℕ → ℕ
level_or_default none = l1_reversible
level_or_default (some level) = level

module _ {W E : Type 0} where
  unfoldable pub new_autonomy_hook : Text → ℕ → Option (ApprovalRequester W E) → AutonomyHook W E
  new_autonomy_hook agent_id level approver = record {
    agent_level = level;
    agent_id = agent_id;
    approver = approver;
    classifications = default_tool_classification;
  }

  unfoldable pub set_classification : Text → ℕ → AutonomyHook W E → AutonomyHook W E
  set_classification tool_name level h = record {
    agent_level = h.agent_level;
    agent_id = h.agent_id;
    approver = h.approver;
    classifications = put tool_name level h.classifications;
  }

  unfoldable pub get_tool_level : AutonomyHook W E → Text → ℕ
  get_tool_level h tool_name = level_or_default (get tool_name h.classifications)

  -- what the approver's answer means
  abbrev pub answered : Text → ℕ → (Option E × Bool) × W → Option (AutonomyError E) × W
  answered tool_name level ((some e, approved), w) = (some (approval_failed tool_name e), w)
  answered tool_name level ((none, true), w) = (none, w)
  answered tool_name level ((none, false), w) = (some (approval_denied tool_name level), w)

  abbrev pub ask :
      AutonomyHook W E
      → Option (ApprovalRequester W E)
      → Text
      → ℕ
      → W
      → Option (AutonomyError E) × W
  ask h none tool_name level w = (some (not_allowed tool_name level), w)
  ask h (some request) tool_name level w =
      answered tool_name level (request h.agent_id tool_name h.agent_level level w)

  unfoldable pub check_autonomy : AutonomyHook W E → Text → W → Option (AutonomyError E) × W
  unfolding get_tool_level
  check_autonomy h tool_name w =
      let level = get_tool_level h tool_name in
      if leb level h.agent_level then (none, w) else ask h h.approver tool_name level w

  -- the hook as the registry calls it, for arguments of any type
  unfoldable pub autonomy_hook : {A : Type 0} → AutonomyHook W E → ToolHook W A (AutonomyError E)
  unfolding check_autonomy
  autonomy_hook h = record {
    before = λ tool_name args w. check_autonomy h tool_name w;
    after = λ tool_name args result w. w;
  }
