-- ===== src/Onboarding.antt =====
-- internal/domain/service/onboarding/service.go: joining by invite code or by an open policy, and the
-- creation of tenants, users and chats.
mod Messages
pub mod Codes
pub mod Chains
pub mod NewCode
pub mod Redeem
pub mod Once
pub mod Race
pub mod Tests
unfoldable pub use Messages.*
use whiteagent.Common.{
  ℕ, Bool, true, false, not, ◌&&◌, Option, none, some, List, [], ◌∷◌, ◌++◌, Text, codes, text_eq,
  if◌then◌else◌, is_empty, leb, ◌||◌, ◌==◌, ◌-◌,
}
use whiteagent.Store.{
  Tenant, User, Identity, Mapping, Invite, Agent, Chat, Db, Policy, invite_required, open_policy,
  closed_policy, InviteKind, tenant_invite, user_invite, other_invite, Stop, rejected, failed,
  crashed, Reply, ok, stop, M, pure, halt, resume, ◌>>=◌, ◌>>◌, get_tenant, save_tenant, save_agent,
  get_user_by_channel, get_user, save_user, add_user_identity, get_invite, use_invite, save_mapping,
  get_tenant_by_mapping, save_chat, merge_user, new_id,
}

module _ (name : ℕ → Text) where
  pub create_user : Text → Text → Incoming → M User
  create_user tenant channel msg = do
    id ← new_id name
    let user : User = record {
      id = id;
      tenant = tenant;
      name = msg.user_name;
      preferred_channel = channel;
      deleted = false;
    }
    save_user user
    add_user_identity
        (record { tenant = tenant; channel = channel; external = msg.user; user = id })
    pure user

  pub join_user : Text → Text → Invite → Incoming → M Joined
  join_user channel code inv msg = if is_empty inv.tenant then refuse else do
    tenant ← or_refuse (get_tenant inv.tenant)
    user ← or_refuse (create_user inv.tenant channel msg)
    or_refuse (use_invite code user.id)
    pure (record { tenant = tenant; user = some user; action = user_joined })

  -- The name of a new tenant: its own, the user's, or the code's.
  tenant_name : Text → Incoming → Text
  tenant_name code msg =
      if not (is_empty msg.tenant_name)
      then msg.tenant_name
      else if not (is_empty msg.user_name)
      then msg.user_name ++ codes "'s Workspace"
      else codes "Tenant-" ++ first_four code

  pub create_tenant : Text → Text → Incoming → M Joined
  unfolding tenant_name
  create_tenant channel code msg = do
    id ← new_id name
    let label = tenant_name code msg
    let fresh : Tenant = record {
      id = id;
      name = label;
      default_agent = [];
      join_policy = invite_required;
      rejection = default_rejection;
      deleted = false;
    }
    or_refuse (save_tenant fresh)
    agent ← new_id name
    or_refuse (
        save_agent (record {
          id = agent;
          tenant = id;
          name = (if is_empty msg.agent_name then label ++ codes " Agent" else msg.agent_name);
        }))
    let tenant : Tenant = record fresh { default_agent = agent }
    or_refuse (save_tenant tenant)
    user ← or_refuse (create_user id channel msg)
    if is_empty msg.tenant
        then pure tt
        else or_refuse
            (save_mapping (record { channel = channel; external = msg.tenant; tenant = id }))
    or_refuse (use_invite code user.id)
    pure (record { tenant = some tenant; user = some user; action = tenant_created })

  -- The redeemer's own user is merged into the target, if it is another one, and the target is read
  -- again. `GetUser` may find nothing then, which the code dereferences below.
  relink : Text → Text → Option User → User → M User
  relink tenant target none user = pure user
  relink tenant target (some existing) user = if text_eq existing.id target then pure user else do
    or_refuse (merge_user tenant existing.id target)
    found ← or_refuse (get_user tenant target)
    deref found

  pub link_user : Text → Text → Invite → Incoming → M Joined
  unfolding relink
  link_user channel code inv msg = do
    found ← or_refuse (get_user inv.tenant inv.target)
    user ← present found
    tenant ← or_refuse (get_tenant inv.tenant)
    existing ← ignore_error (get_user_by_channel inv.tenant channel msg.user)
    user' ← relink inv.tenant inv.target existing user
    or_refuse (
        add_user_identity
          (record { tenant = inv.tenant; channel = channel; external = msg.user; user = user'.id }))
    or_refuse (use_invite code inv.target)
    pure (record { tenant = tenant; user = some user'; action = user_linked })

  pub link_tenant : Text → Text → Invite → Incoming → M Joined
  link_tenant channel code inv msg = do
    found ← or_refuse (get_tenant inv.target)
    tenant ← present found
    if is_empty msg.tenant then refuse else pure tt
    mapped ← ignore_failure (get_tenant_by_mapping channel msg.tenant)
    if not (is_empty mapped) && not (text_eq mapped inv.target)
        then halt (rejected already_linked)
        else pure tt
    or_refuse
        (save_mapping (record { channel = channel; external = msg.tenant; tenant = inv.target }))
    or_refuse (use_invite code (codes "system:tenant-link"))
    pure (record { tenant = some tenant; user = none; action = tenant_linked })

  redeem : InviteKind → Text → Text → Invite → Incoming → M Joined
  redeem tenant_invite channel code inv msg =
      if is_empty inv.target
      then create_tenant channel code msg
      else link_tenant channel code inv msg
  redeem user_invite channel code inv msg =
      if is_empty inv.target then join_user channel code inv msg else link_user channel code inv msg
  redeem other_invite channel code inv msg = refuse

  checked : Text → Text → Option Invite → Incoming → M Joined
  unfolding redeem
  checked channel code none msg = refuse
  checked channel code (some inv) msg =
      if validate_code (some inv) then redeem inv.kind channel code inv msg else refuse

  pub join_with_code : Text → Text → Incoming → M Joined
  unfolding checked
  join_with_code channel code msg = do
    inv ← or_refuse (get_invite code)
    checked channel code inv msg

  by_policy : Policy → Text → Text → Tenant → Incoming → M Joined
  by_policy open_policy channel id tenant msg = do
    user ← or_refuse (create_user id channel msg)
    pure (record { tenant = some tenant; user = some user; action = auto_joined })
  by_policy _ channel id tenant msg =
      halt (rejected (if is_empty tenant.rejection then default_rejection else tenant.rejection))

  -- The tenant that the caller resolved, or the one that the workspace is mapped to.
  resolve_tenant : Text → Text → Incoming → M Text
  resolve_tenant channel tenant msg =
      if not (is_empty tenant) then pure tenant else if is_empty msg.tenant then refuse else do
        mapped ← or_refuse (get_tenant_by_mapping channel msg.tenant)
        if is_empty mapped then refuse else pure mapped

  pub join_without_code : Text → Incoming → Text → M Joined
  unfolding resolve_tenant by_policy
  join_without_code channel msg tenant = do
    id ← resolve_tenant channel tenant msg
    found ← or_refuse (get_tenant id)
    row ← deref found
    by_policy row.join_policy channel id row msg

  pub try_join : Text → Incoming → Text → M Joined
  unfolding join_with_code join_without_code
  try_join channel msg tenant =
      let code = extract_code msg.content in
      if is_empty code
      then join_without_code channel msg tenant
      else join_with_code channel code msg

  -- For a chat of two, the user is looked up; a failure of that lookup is ignored.
  unfoldable pub create_chat : Text → Text → Incoming → Text → M Chat
  create_chat tenant channel msg agent = do
    id ← new_id name
    user ←
        if not msg.is_group && not (is_empty msg.user)
        then ignore_error (get_user_by_channel tenant channel msg.user)
        else pure none
    let chat : Chat = record {
      id = id;
      tenant = tenant;
      channel = channel;
      external = msg.chat;
      user = owner user;
      is_group = msg.is_group;
      name = msg.group_name;
      agent = agent;
    }
    save_chat chat
    pure chat
