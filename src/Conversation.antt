-- ===== src/Conversation.antt =====
-- internal/domain/service/conversation/service.go: which conversation a chat is in.
-- The rows of messages are given with the newest first, as the query orders them.
pub mod Mirror
pub mod Maps
pub mod Resolve
pub mod Reach
pub mod Tests
use whiteagent.Common.{
  ℕ, suc, Bool, true, false, Option, none, some, List, [], ◌∷◌, Text, text_eq, ◌&&◌, if◌then◌else◌,
  is_empty, load, store, erase,
}
use whiteagent.Store.{find_row}

-- The three maps of the service, and how many identifiers were made.
pub record Service : Type 0 where
  pub cache : List (Text × Text)
  pub reverse : List (Text × Text)
  pub tenants : List (Text × Text)
  pub serial : ℕ

-- Of a message, what the service reads.
pub record ChatMessage : Type 0 where
  pub tenant : Text
  pub chat : Text

pub record MessageRow : Type 0 where
  pub tenant : Text
  pub chat : Text
  pub conversation : Text

abbrev conversation_or_empty : Option MessageRow → Text
conversation_or_empty none = []
conversation_or_empty (some r) = r.conversation

-- The empty identifier, if the chat has no message.
unfoldable pub get_last_conversation_id : List MessageRow → ChatMessage → Text
get_last_conversation_id rows msg =
    conversation_or_empty
      (find_row (λ r. text_eq r.tenant msg.tenant && text_eq r.chat msg.chat) rows)

unfoldable pub store_mapping : Text → Text → Text → Service → Service
store_mapping key conv tenant s = record s {
  cache = store key conv s.cache;
  reverse = store conv key s.reverse;
  tenants = store conv tenant s.tenants;
}

pub register_conversation : Text → Text → Service → Service
register_conversation tenant conv s = record s { tenants = store conv tenant s.tenants }

drop_old : Option Text → Service → Service
drop_old none s = s
drop_old (some old) s = record s { reverse = erase old s.reverse; tenants = erase old s.tenants }

pub switch_conversation : ChatMessage → Text → Service → Service
unfolding drop_old
switch_conversation msg target s =
    store_mapping msg.chat target msg.tenant (drop_old (load msg.chat s.cache) s)

module _ (name : ℕ → Text) where
  abbrev counted : Service → Service
  counted s = record s { serial = suc s.serial }

  pub generate : ChatMessage → Service → Option Text × Service
  generate msg s =
      (some (name s.serial), store_mapping msg.chat (name s.serial) msg.tenant (counted s))

  last_or_new : Text → ChatMessage → Service → Option Text × Service
  unfolding generate
  last_or_new conv msg s =
      if is_empty conv
      then generate msg s
      else (some conv, store_mapping msg.chat conv msg.tenant s)

  -- None is the error of a lookup that failed.
  by_cache : Option Text → List MessageRow → Bool → ChatMessage → Service → Option Text × Service
  unfolding last_or_new
  by_cache (some conv) rows fails msg s = (some conv, s)
  by_cache none rows true msg s = (none, s)
  by_cache none rows false msg s = last_or_new (get_last_conversation_id rows msg) msg s

  unfoldable pub resolve_conversation :
      List MessageRow → Bool → ChatMessage → Service → Option Text × Service
  unfolding by_cache
  resolve_conversation rows fails msg s = by_cache (load msg.chat s.cache) rows fails msg s

  renewed : Text → Text → Text → Service → Service
  renewed key conv tenant s = store_mapping key (name s.serial) tenant (record s {
    cache = erase key s.cache;
    reverse = erase conv s.reverse;
    tenants = erase conv s.tenants;
    serial = suc s.serial;
  })

  reset_known : Option Text → Option Text → Text → Service → Service
  unfolding renewed
  reset_known none tenant conv s = s
  reset_known (some key) none conv s = s
  reset_known (some key) (some tenant) conv s = renewed key conv tenant s

  pub reset_conversation : Text → Service → Service
  unfolding reset_known
  reset_conversation conv s = reset_known (load conv s.reverse) (load conv s.tenants) conv s
