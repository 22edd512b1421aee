-- ===== src/Entity.antt =====
-- internal/domain/entity/message.go: the messages of a conversation, with all their fields.
-- A time is a natural number, 0 for the zero time; a metadata map is a list of bindings.
use whiteagent.Common.{ℕ, Bool, true, false, List, [], Text}

-- The kinds of messages; no kind is the empty string.
pub data MessageKind : Type 0 where
  no_kind message_kind reaction_kind cron_kind : MessageKind

pub data Role : Type 0 where
  system user assistant tool : Role

abbrev pub is_tool : Role → Bool
is_tool tool = true
is_tool system = false
is_tool user = false
is_tool assistant = false

abbrev pub is_assistant : Role → Bool
is_assistant assistant = true
is_assistant system = false
is_assistant user = false
is_assistant tool = false

abbrev pub is_user : Role → Bool
is_user user = true
is_user system = false
is_user assistant = false
is_user tool = false

abbrev pub is_message : MessageKind → Bool
is_message message_kind = true
is_message no_kind = false
is_message reaction_kind = false
is_message cron_kind = false

pub record ToolCall : Type 0 where
  pub id : Text
  pub name : Text
  pub arguments : Text

pub record Attachment : Type 0 where
  pub id : Text
  pub kind : Text
  pub filename : Text
  pub mime_type : Text
  pub size : ℕ
  pub path : Text
  pub caption : Text

pub record MessageContext : Type 0 where
  pub external_user : Text
  pub external_message : Text
  pub external_reply_to : Text

pub record Message : Type 0 where
  pub id : Text
  pub tenant : Text
  pub user_id : Text
  pub agent : Text
  pub conversation : Text
  pub chat : Text
  pub is_group : Bool
  pub context : MessageContext
  pub kind : MessageKind
  pub replied_to : Text
  pub target : Text
  pub caused_by : Text
  pub role : Role
  pub content : Text
  pub tool_calls : List ToolCall
  pub tool_call : Text
  pub tool_name : Text
  pub attachments : List Attachment
  pub is_mention : Bool
  pub evicted : Bool
  pub metadata : List (Text × Text)
  pub created_at : ℕ

abbrev pub no_context : MessageContext
no_context = record { external_user = []; external_message = []; external_reply_to = [] }

-- The zero value of a message, with a role and a content.
abbrev pub bare : Role → Text → Message
bare role content = record {
  id = [];
  tenant = [];
  user_id = [];
  agent = [];
  conversation = [];
  chat = [];
  is_group = false;
  context = no_context;
  kind = no_kind;
  replied_to = [];
  target = [];
  caused_by = [];
  role = role;
  content = content;
  tool_calls = [];
  tool_call = [];
  tool_name = [];
  attachments = [];
  is_mention = false;
  evicted = false;
  metadata = [];
  created_at = 0;
}

-- `m.NewReply(id, role)` at a time
unfoldable pub new_reply : Message → Text → Role → ℕ → Message
new_reply m id role now = record (bare role []) {
  id = id;
  tenant = m.tenant;
  user_id = m.user_id;
  agent = m.agent;
  chat = m.chat;
  is_group = m.is_group;
  conversation = m.conversation;
  caused_by = m.id;
  replied_to = m.id;
  target = m.id;
  created_at = now;
}
