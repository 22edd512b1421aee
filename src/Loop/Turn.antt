-- ===== src/Loop/Turn.antt =====
-- internal/domain/service/loop/loop.go: `Handle` and `runTurn`, up to the rounds.
pub mod Once
pub mod History
use whiteagent.Common.{
  ℕ, Bool, true, false, not, ◌&&◌, Option, none, some, List, [], ◌∷◌, ◌++◌, Text, codes,
  if◌then◌else◌, is_empty,
}
use whiteagent.Entity.{Message}
use whiteagent.Loop.{
  Given, State, Tenant, Agent, User, Capabilities, Setting, Out, to_world, publish_response, rounds,
}

module _ {W : Type 0} (given : Given W) where
  -- A deferred call.
  abbrev then_do : (W → W) → Out given → Out given
  then_do f (returned, s) = (returned, to_world given s (f s.world))

  opened :
      Bool
      → ℕ
      → Tenant
      → Agent
      → Option User
      → Message
      → Text
      → Capabilities
      → Text
      → State W
      → Out given
  unfolding rounds
  opened has_proxy max tenant agent user inbound conv caps out s =
      let set : Setting = record {
        tenant = tenant;
        agent = agent;
        user = user;
        inbound = inbound;
        conversation = conv;
        caps = caps;
        out_path =
            if given.has_sandbox
            then given.home inbound.user_id ++ codes "/.outbox/" ++ out
            else [];
        has_proxy = has_proxy;
      } in
      then_do (if has_proxy then given.close_sandbox else λ w. w)
        (rounds given set max true false [] (to_world given s (given.override_model s.world)))

  pub open_if : Bool → Message → Text → Text → W → Bool × W
  open_if false inbound out conv w = (false, w)
  open_if true inbound out conv w = given.open_sandbox inbound out conv w

  prepared : ℕ → Tenant → Agent → Option User → Message → Text → Capabilities → State W → Out given
  unfolding opened open_if
  prepared max tenant agent user inbound conv caps s =
      let (out, w) = given.new_id s.world in
      let (has_proxy, w') = open_if given.has_sandbox inbound out conv w in
      opened has_proxy max tenant agent user inbound conv caps out (to_world given s w')

  -- By whether the message was saved, and whether it is of no chat.
  in_conversation :
      Bool → Bool → ℕ → Tenant → Agent → Option User → Message → Text → State W → Out given
  unfolding prepared publish_response
  in_conversation false homeless max tenant agent user inbound conv s =
      publish_response given inbound (codes "Internal error: unable to save message.") s
  in_conversation true true max tenant agent user inbound conv s =
      prepared max tenant agent user inbound conv (record { reactions = false; indication = false })
        s
  in_conversation true false max tenant agent user inbound conv s =
      let (caps, w) = given.start_typing inbound s.world in
      then_do given.stop_typing
        (prepared max tenant agent user inbound conv caps (to_world given s w))

  found_conversation :
      Option Text → ℕ → Tenant → Agent → Option User → Message → State W → Out given
  unfolding in_conversation publish_response
  found_conversation none max tenant agent user inbound s =
      publish_response given inbound (codes "Internal error: unable to resolve conversation.") s
  found_conversation (some conv) max tenant agent user inbound s =
      let (saved, w) = given.append conv inbound s.world in
      in_conversation saved (is_empty inbound.chat) max tenant agent user inbound conv
        (to_world given s w)

  abbrev or_none : {A : Type 0} → Option (Option A) → Option A
  or_none none = none
  or_none (some found) = found

  -- Whether the user is looked up.
  pub load_user : Bool → Message → W → Option User × W
  load_user false inbound w = (none, w)
  load_user true inbound w =
      let (found, w') = given.get_user inbound.tenant inbound.user_id w in (or_none found, w')

  -- Whether the message comes without a conversation.
  pub load_conversation : Bool → Message → W → Option Text × W
  load_conversation false inbound w =
      (some inbound.conversation, given.register_conversation inbound.tenant inbound.conversation w)
  load_conversation true inbound w = given.resolve_conversation inbound w

  with_agent : Option Agent → ℕ → Tenant → Message → State W → Out given
  unfolding load_user load_conversation found_conversation publish_response
  with_agent none max tenant inbound s =
      publish_response given inbound
        (codes "Configuration error: no agent configured for this tenant.") s
  with_agent (some agent) max tenant inbound s =
      let stamped : Message = record inbound { agent = agent.id } in
      let (user, w) =
        load_user (not inbound.is_group && not (is_empty inbound.user_id)) stamped s.world in
      let (conv, w') = load_conversation (is_empty inbound.conversation) stamped w in
      found_conversation conv max tenant agent user stamped (to_world given s w')

  -- Whether there is no agent to look up.
  pub load_agent : Bool → Text → Message → W → Option Agent × W
  load_agent true id inbound w = (none, w)
  load_agent false id inbound w =
      let (found, w') = given.get_agent inbound.tenant id w in (or_none found, w')

  abbrev pub agent_id : Tenant → Message → Text
  agent_id tenant inbound = if is_empty inbound.agent then tenant.default_agent else inbound.agent

  with_tenant : Option (Option Tenant) → ℕ → Message → State W → Out given
  unfolding load_agent with_agent publish_response
  with_tenant none max inbound s =
      publish_response given inbound (codes "Internal error: unable to load tenant configuration.")
        s
  with_tenant (some none) max inbound s =
      publish_response given inbound (codes "Internal error: tenant not found.") s
  with_tenant (some (some tenant)) max inbound s =
      let id = agent_id tenant inbound in
      let (agent, w) = load_agent (is_empty id) id inbound s.world in
      with_agent agent max tenant inbound (to_world given s w)

  unfoldable pub run_turn : ℕ → Message → State W → Out given
  unfolding with_tenant
  run_turn max inbound s =
      let (tenant, w) = given.get_tenant inbound.tenant s.world in
      with_tenant tenant max inbound (to_world given s w)

  -- `Handle`, less the semaphore and the lock of the chat, which only wait.
  pub handle : Bool → ℕ → Message → State W → Out given
  unfolding run_turn
  handle true max inbound s = (true, s)
  handle false max inbound s = run_turn max inbound s
