-- ===== src/Loop/Port.antt =====
-- What internal/domain/service/loop/loop.go is given: the store, the services, the tools and the sandbox,
-- as functions on a world. A call that fails returns none or false, or the text of its error.
use whiteagent.Common.{ℕ, Bool, Option, List, Text, Result}
use whiteagent.Entity.{Message, Attachment}
use whiteagent.Llm.{CompletionRequest, CompletionResponse, ToolDef}

pub record Tenant : Type 0 where
  pub id : Text
  pub name : Text
  pub instructions : Text
  pub default_agent : Text
  pub allowed_tools : List Text

pub record Agent : Type 0 where
  pub id : Text
  pub name : Text
  pub instructions : Text

pub record User : Type 0 where
  pub id : Text
  pub name : Text

-- port.ChannelCapabilities
pub record Capabilities : Type 0 where
  pub reactions : Bool
  pub indication : Bool

pub record ToolContext : Type 0 where
  pub tenant : Text
  pub agent : Text
  pub user : Text
  pub chat : Text
  pub is_group : Bool
  pub message : Text
  pub conversation : Text

-- entity.ErrorLogEntry
pub record ErrorEntry : Type 0 where
  pub user : Text
  pub ref_type : Text
  pub ref_id : Text
  pub content : Text

-- compaction.Request
pub record CompactRequest : Type 0 where
  pub tenant : Text
  pub conversation : Text
  pub latest_message : Text

-- What a turn has found out before its first round.
pub record Setting : Type 0 where
  pub tenant : Tenant
  pub agent : Agent
  pub user : Option User
  pub inbound : Message
  pub conversation : Text
  pub caps : Capabilities
  pub out_path : Text
  pub has_proxy : Bool

-- `start_typing` and `stop_typing` stand for the indicator of the channel, `open_sandbox` for the proxy with
-- its outbox and its injection into the tools, `close_sandbox` for the deferred injection of the sandbox, and
-- `override_model` for the holder of the turn.
pub record Given (W : Type 0) : Type 0 where
  pub get_tenant : Text → W → Option (Option Tenant) × W
  pub get_agent : Text → Text → W → Option (Option Agent) × W
  pub get_user : Text → Text → W → Option (Option User) × W
  pub register_conversation : Text → Text → W → W
  pub resolve_conversation : Message → W → Option Text × W
  pub append : Text → Message → W → Bool × W
  pub start_typing : Message → W → Capabilities × W
  pub stop_typing : W → W
  pub has_sandbox : Bool
  pub home : Text → Text
  pub open_sandbox : Message → Text → Text → W → Bool × W
  pub close_sandbox : W → W
  pub override_model : W → W
  pub build : Setting → Option Text → W → Option (List Message × Option Text) × W
  pub has_compaction : Bool
  pub spawn_compaction : CompactRequest → W → W
  pub tool_defs : Tenant → Capabilities → List ToolDef
  pub complete : CompletionRequest → W → Result Text CompletionResponse × W
  pub is_done : W → Bool
  pub sanitize : Text → Text
  pub redact : Text → Text → Text → W → Text × W
  pub harvest : Text → W → Option (List Attachment) × W
  pub find_tool : Text → Option (ToolContext → Text → W → Result Text Text × W)
  pub append_error_log : Text → ErrorEntry → W → W
  pub publish : Message → W → Bool × W
  pub new_id : W → Text × W
  pub now : W → ℕ × W

-- The world, and the conversations that are being compacted.
pub record State (W : Type 0) : Type 0 where
  pub compactions : List Text
  pub world : W
