-- ===== src/Identity/Tests.antt =====
-- internal/domain/service/identity/resolver.go on a user of a mapped workspace.
use whiteagent.Common.{ℕ, [], ◌∷◌, Text, codes, text_eq, load, store, false, ◌+◌}
use whiteagent.Store.{
  Db, open_policy, query, execute, find_row, upsert, user_of, get_tenant, get_user_by_channel,
  get_tenant_by_mapping, get_chat_by_channel, save_chat, new_id,
}
use whiteagent.Onboarding.{Incoming, create_chat}
use whiteagent.Identity.{
  ResolvedIdentity, State, resolve, resolve_user_inbound, user_by_cache, resolve_chat,
  chat_by_cache, chat_or_new, remember_chat, get_user, set_user, get_chat, set_chat, mapped_tenant,
}

abbrev test_name : ℕ → Text
test_name n = (48 + n) ∷ []

abbrev start : State
start = record {
  cache = record { users = []; chats = [] };
  db = record {
    tenants =
        record {
          id = codes "acme";
          name = codes "Acme";
          default_agent = codes "bot";
          join_policy = open_policy;
          rejection = [];
          deleted = false;
        }
        ∷ [];
    users =
        record {
          id = codes "u1";
          tenant = codes "acme";
          name = codes "Ann";
          preferred_channel = codes "tg";
          deleted = false;
        }
        ∷ [];
    identities =
        record {
          tenant = codes "acme";
          channel = codes "tg";
          external = codes "ann";
          user = codes "u1";
        }
        ∷ [];
    mappings = record { channel = codes "tg"; external = codes "ws"; tenant = codes "acme" } ∷ [];
    invites = [];
    agents = [];
    chats = [];
    faults = [];
    serial = 0;
  };
}

abbrev from_ann : Incoming
from_ann = record {
  tenant = codes "ws";
  user = codes "ann";
  chat = codes "dm";
  content = codes "hello";
  is_group = false;
  agent_name = [];
  tenant_name = [];
  user_name = codes "Ann";
  group_name = [];
}

abbrev ann : ResolvedIdentity
ann = record {
  tenant = codes "acme";
  user = codes "u1";
  agent = codes "bot";
  chat = codes "0";
  is_group = false;
}

-- What a run of `Resolve` computes with.
test_resolve : Unit {0}
unfolding resolve resolve_user_inbound user_by_cache resolve_chat chat_by_cache chat_or_new
    remember_chat get_user set_user get_chat set_chat mapped_tenant create_chat get_tenant
    get_user_by_channel get_tenant_by_mapping get_chat_by_channel save_chat new_id query execute
    find_row upsert user_of text_eq load store
test_resolve = tt

abbrev resolved : State
resolved = (resolve test_name (codes "tg") from_ann start).1

abbrev no_rows : Db
no_rows = record {
  tenants = [];
  users = [];
  identities = [];
  mappings = [];
  invites = [];
  agents = [];
  chats = [];
  faults = [];
  serial = 0;
}
