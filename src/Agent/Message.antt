-- ===== src/Agent/Message.antt =====
-- internal/agent/convert.go: the messages of a transcript.
use node_shell.Base.{String, Bool, true, false, ◌&&◌, List, [], length, ltb}

-- The roles are texts: the four that the code names, or another that a provider sent.
pub data Role : Type 0 where
  system user assistant tool : Role
  other_role : String → Role

pub record FunctionCall : Type 0 where
  pub name : String
  pub arguments : String

pub record ToolCall : Type 0 where
  pub id : String
  pub type : String
  pub function : FunctionCall

pub record ChatMessage : Type 0 where
  pub role : Role
  pub content : String
  pub tool_calls : List ToolCall
  pub tool_call_id : String
  pub reasoning_content : String

abbrev pub message : Role → String → ChatMessage
message role content = record {
  role = role;
  content = content;
  tool_calls = [];
  tool_call_id = "";
  reasoning_content = "";
}

abbrev pub is_tool : Role → Bool
is_tool tool = true
is_tool _ = false

abbrev pub is_assistant : Role → Bool
is_assistant assistant = true
is_assistant _ = false

-- An assistant turn that called tools.
abbrev pub calls_tools : ChatMessage → Bool
calls_tools m = is_assistant m.role && ltb 0 (length m.tool_calls)
