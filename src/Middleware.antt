-- ===== src/Middleware.antt =====
-- pkg/plugins/middleware: the handlers that the middleware plugins put around the handler of messages.
-- A handler reads a message and acts on a world, and tells whether it returned without an error.
pub mod Command
pub mod Whisper
pub mod Tests
use whiteagent.Common.{Bool, Text, List}

pub data Role : Type 0 where
  user_role assistant_role other_role : Role

pub record Attachment : Type 0 where
  pub kind : Text
  pub path : Text
  pub filename : Text

-- entity.Message, as far as the middleware reads or writes it; `details` is what it only passes on.
pub record Message : Type 0 where
  pub tenant : Text
  pub chat : Text
  pub user : Text
  pub role : Role
  pub content : Text
  pub is_group : Bool
  pub attachments : List Attachment
  pub details : Text

abbrev pub Handler : Type 0 → Type 0
Handler S = Message → S → Bool × S
