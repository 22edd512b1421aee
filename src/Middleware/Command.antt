-- ===== src/Middleware/Command.antt =====
-- pkg/plugins/middleware/command/plugin.go: the commands `/new` and `/logs`.
-- The conversation service is the one of this library; the transport, the table of errors and the format
-- of times are parameters. The world beside the service is any type.
pub mod Session
pub mod Limits
use whiteagent.Common.{
  ℕ, ◌*◌, ◌^◌, Bool, true, false, not, ◌||◌, ◌&&◌, Option, none, some, List, [], ◌∷◌, ◌++◌, Text,
  codes, text_eq, has_prefix, after, fields, atoi, ltb, ◌==◌, if◌then◌else◌, is_empty,
}
use whiteagent.Conversation.{
  Service, ChatMessage, MessageRow, resolve_conversation, reset_conversation,
}
use whiteagent.Middleware.{Role, user_role, assistant_role, other_role, Message, Handler}

-- entity.ErrorLogEntry
pub record ErrorEntry : Type 0 where
  pub created_at : ℕ
  pub content : Text
  pub ref_type : Text
  pub ref_id : Text

-- What the plugin is given: the names of new conversations, the transport's `Publish` on the topic of
-- replies, `GetErrorLog` (tenant, user and limit), if there is a store, and the format of times.
pub record Given (W : Type 0) : Type 0 where
  pub name : ℕ → Text
  pub publish : Message → W → Bool × W
  pub errors : Option (Text → Text → ℕ → W → Option (List ErrorEntry) × W)
  pub stamp : ℕ → Text

-- What the conversation service reads of the store: the messages, and whether the lookup fails.
pub record Lookup : Type 0 where
  pub rows : List MessageRow
  pub fails : Bool

abbrev pub chat_message : Message → ChatMessage
chat_message msg = record { tenant = msg.tenant; chat = msg.chat }

abbrev is_user : Role → Bool
is_user user_role = true
is_user assistant_role = false
is_user other_role = false

-- A bit pattern of an int64 that stands for a number above 0.
abbrev pub is_positive : ℕ → Bool
is_positive n = ltb 0 n && ltb n (2 ^ 63)

limit_of : Option ℕ → ℕ
limit_of none = 10
limit_of (some n) = if not (is_positive n) then 10 else if ltb 100 n then 100 else n

pub parse_logs_limit : List Text → ℕ
unfolding limit_of
parse_logs_limit [] = 10
parse_logs_limit (command ∷ []) = 10
parse_logs_limit (command ∷ limit ∷ rest) = limit_of (atoi limit)

-- strings.TrimPrefix(s, "/")
abbrev pub trim_slash : Text → Text
trim_slash s = if has_prefix s (codes "/") then after 1 s else s

module _ {W : Type 0} (given : Given W) where
  log_line : ErrorEntry → Text
  log_line e =
      let line = codes "[" ++ given.stamp e.created_at ++ codes "] " ++ e.content in
      if is_empty e.ref_type
      then line
      else line ++ codes " (" ++ e.ref_type ++ codes ": " ++ e.ref_id ++ codes ")"

  pub format_error_log : List ErrorEntry → Text
  unfolding log_line
  format_error_log [] = []
  format_error_log (e ∷ []) = log_line e
  format_error_log (e ∷ f ∷ es) = log_line e ++ (10 ∷ format_error_log (f ∷ es))

  pub publish_reply : Message → Text → Service × W → Bool × (Service × W)
  publish_reply msg content (s, w) =
      let (sent, w') =
        given.publish
          (record {
            tenant = msg.tenant;
            chat = msg.chat;
            user = [];
            role = assistant_role;
            content = content;
            is_group = false;
            attachments = [];
            details = msg.details;
          })
          w in
      (sent, (s, w'))

  reset_and_reply : Message → Option Text × Service → W → Bool × (Service × W)
  unfolding publish_reply
  reset_and_reply msg (none, s) w = (false, (s, w))
  reset_and_reply msg (some conv, s) w =
      publish_reply msg (codes "Session reset. Starting fresh.")
        (reset_conversation given.name conv s, w)

  new_session : Lookup → Message → Service × W → Bool × (Service × W)
  unfolding reset_and_reply
  new_session lookup msg (s, w) =
      reset_and_reply msg
        (resolve_conversation given.name lookup.rows lookup.fails (chat_message msg) s) w

  log_reply : Option (List ErrorEntry) → Text
  unfolding format_error_log
  log_reply none = codes "Failed to retrieve error log."
  log_reply (some []) = codes "No recent errors."
  log_reply (some (e ∷ es)) = format_error_log (e ∷ es)

  ask_errors :
      Option (Text → Text → ℕ → W → Option (List ErrorEntry) × W)
      → List Text
      → Message
      → Service × W
      → Bool × (Service × W)
  unfolding log_reply parse_logs_limit publish_reply
  ask_errors none words msg st = publish_reply msg (codes "Error log not available.") st
  ask_errors (some get_error_log) words msg (s, w) =
      let (found, w') = get_error_log msg.tenant msg.user (parse_logs_limit words) w in
      publish_reply msg (log_reply found) (s, w')

  logs : List Text → Message → Service × W → Bool × (Service × W)
  unfolding ask_errors publish_reply
  logs words msg st =
      if msg.is_group || is_empty msg.user
      then publish_reply msg (codes "Error log is only available in direct messages.") st
      else ask_errors given.errors words msg st

  by_words : Lookup → Handler (Service × W) → List Text → Handler (Service × W)
  unfolding new_session logs
  by_words lookup next [] msg st = next msg st
  by_words lookup next (first ∷ more) msg st =
      if text_eq (trim_slash first) (codes "new")
      then new_session lookup msg st
      else if text_eq (trim_slash first) (codes "logs")
      then logs (first ∷ more) msg st
      else next msg st

  pub wrap : Lookup → Handler (Service × W) → Handler (Service × W)
  unfolding by_words
  wrap lookup next msg st =
      if not (is_user msg.role) || not (has_prefix msg.content (codes "/"))
      then next msg st
      else by_words lookup next (fields msg.content) msg st
