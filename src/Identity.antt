-- ===== src/Identity.antt =====
-- internal/domain/service/identity/resolver.go and cache.go: from the identity of a sender on a channel
-- to tenant, user, agent and chat.
pub mod Users
pub mod Stable
pub mod Tests
use whiteagent.Common.{
  ℕ, Bool, true, false, Option, none, some, List, [], ◌∷◌, ◌++◌, Text, if◌then◌else◌, is_empty,
  load, store,
}
use whiteagent.Store.{
  Tenant, User, Chat, Db, Stop, Reply, M, get_tenant, get_user_by_channel, get_tenant_by_mapping,
  get_chat_by_channel,
}
use whiteagent.Onboarding.{Incoming, create_chat}

pub record ResolvedIdentity : Type 0 where
  pub tenant : Text
  pub user : Text
  pub agent : Text
  pub chat : Text
  pub is_group : Bool

pub record UserEntry : Type 0 where
  pub tenant : Text
  pub user : Text
  pub agent : Text

pub record ChatEntry : Type 0 where
  pub tenant : Text
  pub agent : Text
  pub chat : Text
  pub is_group : Bool

pub record Cache : Type 0 where
  pub users : List (Text × UserEntry)
  pub chats : List (Text × ChatEntry)

pub record State : Type 0 where
  pub cache : Cache
  pub db : Db

-- `userKey` and `chatKey`
abbrev pub cache_key : Text → Text → Text
cache_key channel external = channel ++ (b':' ∷ external)

-- How a resolution ends without an identity: ErrUnknownUser with the identity that is returned along
-- with it, ErrUnknownGroup, an error of the store, or a dereference of nil.
pub data Fault : Type 0 where
  unknown_user : ResolvedIdentity → Fault
  unknown_group store_error crashed : Fault

pub data Answer {ℓ} (A : Type ℓ) : Type ℓ where
  found : A → Answer A
  fault : Fault → Answer A

abbrev pub R : Type 0 → Type 0
R A = State → Answer A × State

abbrev pub pure : {A : Type 0} → A → R A
pure a st = (found a, st)

abbrev pub fail : {A : Type 0} → Fault → R A
fail f st = (fault f, st)

abbrev pub continue : {A B : Type 0} → Answer A → State → (A → R B) → Answer B × State
continue (found a) st k = k a st
continue (fault f) st k = (fault f, st)

module _ {A B : Type 0} where
  infixl 5 ◌>>=◌
  abbrev pub ◌>>=◌ : R A → (A → R B) → R B
  (call >>= next) st = continue (call st).0 (call st).1 next

infixl 5 ◌>>◌
abbrev pub ◌>>◌ : {Rest : Type 0} → R (Unit {0}) → R Rest → R Rest
(call >> next) st = continue (call st).0 (call st).1 (λ _. next)

abbrev pub answered {ℓ} : {A : Type ℓ} → Fault → Reply A → Answer A
answered f (Reply.ok a) = found a
answered f (Reply.stop Stop.crashed) = fault crashed
answered f (Reply.stop s) = fault f

-- A call of the store, whose errors are turned into a fault.
abbrev pub from_store : {A : Type 0} → Fault → M A → R A
from_store f m st = (answered f (m st.db).0, record st { db = (m st.db).1 })

abbrev pub deref : {A : Type 0} → Option A → R A
deref none = fail crashed
deref (some a) = pure a

abbrev pub nobody : ResolvedIdentity
nobody = record { tenant = []; user = []; agent = []; chat = []; is_group = false }

abbrev pub present : {A : Type 0} → Fault → Option A → R A
present f none = fail f
present f (some a) = pure a

pub get_user : Text → R (Option UserEntry)
get_user key st = (found (load key st.cache.users), st)

pub set_user : Text → UserEntry → R (Unit {0})
set_user key e st =
    (found tt, record st { cache = record st.cache { users = store key e st.cache.users } })

pub get_chat : Text → R (Option ChatEntry)
get_chat key st = (found (load key st.cache.chats), st)

pub set_chat : Text → ChatEntry → R (Unit {0})
set_chat key e st =
    (found tt, record st { cache = record st.cache { chats = store key e st.cache.chats } })

-- An external tenant's own, which `fault` is returned without.
mapped_tenant : Fault → Text → Incoming → R Text
mapped_tenant f channel msg = do
  tenant ← from_store f (get_tenant_by_mapping channel msg.tenant)
  if is_empty tenant then fail f else pure tenant

module _ (name : ℕ → Text) where
  pub remember_chat : Text → Incoming → Text → Chat → R (Text × Bool)
  remember_chat channel msg tenant chat = do
    set_chat (cache_key channel msg.chat)
        (record { tenant = tenant; agent = chat.agent; chat = chat.id; is_group = chat.is_group })
    pure (chat.id, chat.is_group)

  chat_or_new : Option Chat → Text → Text → Incoming → Text → R (Text × Bool)
  unfolding remember_chat
  chat_or_new (some chat) tenant channel msg agent = remember_chat channel msg tenant chat
  chat_or_new none tenant channel msg agent = do
    chat ← from_store store_error (create_chat name tenant channel msg agent)
    remember_chat channel msg tenant chat

  chat_by_cache : Option ChatEntry → Text → Text → Incoming → Text → R (Text × Bool)
  unfolding chat_or_new
  chat_by_cache (some e) tenant channel msg agent = pure (e.chat, e.is_group)
  chat_by_cache none tenant channel msg agent = do
    chat ← from_store store_error (get_chat_by_channel tenant channel msg.chat)
    chat_or_new chat tenant channel msg agent

  pub resolve_chat : Text → Text → Incoming → Text → R (Text × Bool)
  unfolding chat_by_cache get_chat
  resolve_chat tenant channel msg agent = do
    hit ← get_chat (cache_key channel msg.chat)
    chat_by_cache hit tenant channel msg agent

  abbrev identity_of : UserEntry → Text × Bool → ResolvedIdentity
  identity_of e chat = record {
    tenant = e.tenant;
    user = e.user;
    agent = e.agent;
    chat = chat.0;
    is_group = chat.1;
  }

  user_by_cache : Option UserEntry → Text → Incoming → R ResolvedIdentity
  unfolding resolve_chat mapped_tenant
  user_by_cache (some e) channel msg = do
    chat ← resolve_chat e.tenant channel msg e.agent
    pure (identity_of e chat)
  user_by_cache none channel msg = do
    tenant ← mapped_tenant (unknown_user nobody) channel msg
    row ← from_store (unknown_user nobody) (get_user_by_channel tenant channel msg.user)
    user ← present (unknown_user nobody) row
    owner ← from_store store_error (get_tenant tenant)
    t ← deref owner
    let e : UserEntry = record { tenant = tenant; user = user.id; agent = t.default_agent }
    chat ← resolve_chat tenant channel msg t.default_agent
    set_user (cache_key channel msg.user) e
    pure (identity_of e chat)

  pub resolve_user_inbound : Text → Incoming → R ResolvedIdentity
  unfolding user_by_cache get_user
  resolve_user_inbound channel msg = do
    hit ← get_user (cache_key channel msg.user)
    user_by_cache hit channel msg

  -- The sender's own identifier, which is empty if the message names no sender.
  resolve_group_sender : Text → Incoming → Text → ResolvedIdentity → R Text
  resolve_group_sender channel msg tenant partial = if is_empty msg.user then pure [] else do
    row ← from_store store_error (get_user_by_channel tenant channel msg.user)
    user ← present (unknown_user partial) row
    pure user.id

  -- The agent of the chat, or the tenant's.
  agent_of : Chat → R Text
  agent_of chat =
      if is_empty chat.agent
      then (do
        owner ← from_store store_error (get_tenant chat.tenant)
        t ← deref owner
        pure t.default_agent)
      else pure chat.agent

  pub with_sender : Text → Incoming → ResolvedIdentity → R ResolvedIdentity
  unfolding resolve_group_sender
  with_sender channel msg ri = do
    user ← resolve_group_sender channel msg ri.tenant ri
    pure (record ri { user = user })

  resolve_existing_chat : Text → Incoming → Chat → R ResolvedIdentity
  unfolding agent_of with_sender
  resolve_existing_chat channel msg chat = do
    agent ← agent_of chat
    set_chat (cache_key channel msg.chat)
        (record { tenant = chat.tenant; agent = agent; chat = chat.id; is_group = chat.is_group })
    with_sender channel msg (record {
      tenant = chat.tenant;
      user = [];
      agent = agent;
      chat = chat.id;
      is_group = chat.is_group;
    })

  auto_create_chat : Text → Incoming → Text → Text → R ResolvedIdentity
  unfolding resolve_existing_chat
  auto_create_chat channel msg tenant agent = do
    chat ← from_store store_error (create_chat name tenant channel msg agent)
    resolve_existing_chat channel msg chat

  group_chat_or_new : Option Chat → Text → Incoming → Text → R ResolvedIdentity
  unfolding auto_create_chat
  group_chat_or_new (some chat) channel msg tenant = resolve_existing_chat channel msg chat
  group_chat_or_new none channel msg tenant = do
    owner ← from_store store_error (get_tenant tenant)
    t ← deref owner
    auto_create_chat channel msg tenant t.default_agent

  group_by_cache : Option ChatEntry → Text → Incoming → R ResolvedIdentity
  unfolding group_chat_or_new
  group_by_cache (some e) channel msg = with_sender channel msg (record {
    tenant = e.tenant;
    user = [];
    agent = e.agent;
    chat = e.chat;
    is_group = e.is_group;
  })
  group_by_cache none channel msg = do
    tenant ← mapped_tenant unknown_group channel msg
    chat ← from_store store_error (get_chat_by_channel tenant channel msg.chat)
    group_chat_or_new chat channel msg tenant

  pub resolve_group_inbound : Text → Incoming → R ResolvedIdentity
  unfolding group_by_cache get_chat
  resolve_group_inbound channel msg = do
    hit ← get_chat (cache_key channel msg.chat)
    group_by_cache hit channel msg

  pub resolve : Text → Incoming → R ResolvedIdentity
  unfolding resolve_user_inbound resolve_group_inbound
  resolve channel msg =
      if msg.is_group then resolve_group_inbound channel msg else resolve_user_inbound channel msg
