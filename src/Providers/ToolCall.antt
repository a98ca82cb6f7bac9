-- ===== src/Providers/ToolCall.antt =====
-- pkg/providers/protocoltypes/types.go, the parts that the loop over tool calls uses, and
-- pkg/providers/toolcall_utils.go. `A` is the type of argument maps; package json is a parameter.
use aetherclaw.Common.{ℕ, ◌&&◌, not, Option, none, some, List, [], nat_beq, if◌then◌else◌, nat_key}
use aetherclaw.Common.Text.{Text, is_empty}

pub record FunctionCall : Type 0 where
  pub name : Text
  pub arguments : Text
  pub thought_signature : Text

-- `none` of the arguments is the nil map; the extra content is Google's signature.
pub record ToolCall (A : Type 0) : Type 0 where
  pub id : Text
  pub type : Text
  pub function : Option FunctionCall
  pub name : Text
  pub arguments : Option A
  pub thought_signature : Text
  pub extra_content : Option Text

pub record Message (A : Type 0) : Type 0 where
  pub role : Text
  pub content : Text
  pub tool_calls : List (ToolCall A)
  pub tool_call_id : Text

pub record LlmResponse (A : Type 0) : Type 0 where
  pub content : Text
  pub tool_calls : List (ToolCall A)

-- Maps of arguments: the empty one, the number of entries, json.Marshal, and json.Unmarshal, with
-- `none` for an error or a null.
pub record Json (A : Type 0) : Type 0 where
  pub empty : A
  pub count : A → ℕ
  pub marshal : A → Text
  pub unmarshal : Text → Option A

-- Name, filled in from Function
abbrev pub call_name : {A : Type 0} → ToolCall A → Option FunctionCall → Text
call_name tc none = tc.name
call_name tc (some f) = if is_empty tc.name then f.name else tc.name

abbrev pub value_or : {A : Type 0} → A → Option A → A
value_or a none = a
value_or a (some b) = b

module _ {A : Type 0} (json : Json A) where
  -- Arguments, parsed from those of Function if they are empty
  abbrev pub call_arguments : A → Option FunctionCall → A
  call_arguments args none = args
  call_arguments args (some f) =
      if nat_beq (json.count args) 0 && not (is_empty f.arguments)
      then value_or args (json.unmarshal f.arguments)
      else args

  -- Function, filled in with the name and the arguments
  abbrev pub call_function : Text → A → Option FunctionCall → FunctionCall
  call_function name args none = record {
    name = name;
    arguments = json.marshal args;
    thought_signature = [];
  }
  call_function name args (some f) = record {
    name = if is_empty f.name then name else f.name;
    arguments = if is_empty f.arguments then json.marshal args else f.arguments;
    thought_signature = f.thought_signature;
  }

  unfoldable pub normalize_tool_call : ToolCall A → ToolCall A
  normalize_tool_call tc =
      let name = call_name tc tc.function in
      let args = call_arguments (value_or json.empty tc.arguments) tc.function in
      let f = call_function name args tc.function in
      record {
        id = tc.id;
        type = tc.type;
        function = some f;
        name = if is_empty name then f.name else name;
        arguments = some args;
        thought_signature = tc.thought_signature;
        extra_content = tc.extra_content;
      }
