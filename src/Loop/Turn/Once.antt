-- ===== src/Loop/Turn/Once.antt =====
-- internal/domain/service/loop/loop.go: what a whole turn publishes by itself.
use whiteagent.Common.{
  ℕ, Bool, true, false, not, ◌&&◌, Option, none, some, [], ◌∷◌, ◌++◌, Text, is_empty, ◌≡◌, refl, ap,
  subst, ◌∙◌,
}
use whiteagent.Entity.{Message}
use whiteagent.Loop.{Given, State, Tenant, Agent, User, Capabilities}
use whiteagent.Loop.Recorded.{Traced, recording, trace, silent}
use whiteagent.Loop.Published.{IsReplyTo, Sent, publish_response-Sent, rounds-Sends}
use whiteagent.Loop.Turn.{
  opened, open_if, agent_id, prepared, in_conversation, found_conversation, load_user,
  load_conversation, with_agent, load_agent, with_tenant, run_turn,
}

restamped :
    (inbound m : Message) (agent : Text)
    → IsReplyTo (record inbound { agent = agent }) m
    → IsReplyTo inbound m
restamped inbound m agent r = record {
  role = r.role;
  kind = r.kind;
  tenant = r.tenant;
  chat = r.chat;
  user_id = r.user_id;
  caused_by = r.caused_by;
}

module _ {W : Type 0} (given : Given W) (max : ℕ) (tenant : Tenant) where
  abbrev S : Type 0
  S = State (Traced W)

  module _ (agent : Agent) (user : Option User) (inbound : Message) (conv : Text) where
    opened-Sent :
        (has_proxy : Bool) (caps : Capabilities) (out : Text) (s : S)
        → Sent given inbound
            (trace s).replies
            (opened (recording given) has_proxy max tenant agent user inbound conv caps out s)
    unfolding opened
    opened-Sent true caps out s = rounds-Sends given _ max true false [] _
    opened-Sent false caps out s = rounds-Sends given _ max true false [] _

    pub open_if-kept :
        (b : Bool) (out : Text) (w : Traced W)
        → (open_if (recording given) b inbound out conv w).1.1 ≡ w.1
    unfolding open_if
    open_if-kept true out w = refl
    open_if-kept false out w = refl

    prepared-Sent :
        (caps : Capabilities) (s : S)
        → Sent given inbound
            (trace s).replies
            (prepared (recording given) max tenant agent user inbound conv caps s)
    unfolding prepared
    prepared-Sent caps s =
        let (out, w) = silent given.new_id s.world in
        let (has_proxy, w') = open_if (recording given) given.has_sandbox inbound out conv w in
        subst
          (λ t.
            Sent given inbound t.replies
              (prepared (recording given) max tenant agent user inbound conv caps s))
          (open_if-kept given.has_sandbox out w)
          (opened-Sent has_proxy caps out (record { compactions = s.compactions; world = w' }))

    in_conversation-Sent :
        (saved homeless : Bool) (s : S)
        → Sent given inbound
            (trace s).replies
            (in_conversation (recording given) saved homeless max tenant agent user inbound conv s)
    unfolding in_conversation
    in_conversation-Sent false homeless s = publish_response-Sent given inbound _ s
    in_conversation-Sent true true s =
        prepared-Sent (record { reactions = false; indication = false }) s
    in_conversation-Sent true false s =
        let (caps, w) = silent (given.start_typing inbound) s.world in
        prepared-Sent caps (record { compactions = s.compactions; world = w })

  found_conversation-Sent :
      (found : Option Text) (agent : Agent) (user : Option User) (inbound : Message) (s : S)
      → Sent given inbound
          (trace s).replies
          (found_conversation (recording given) found max tenant agent user inbound s)
  unfolding found_conversation
  found_conversation-Sent none agent user inbound s = publish_response-Sent given inbound _ s
  found_conversation-Sent (some conv) agent user inbound s =
      let (saved, w) = (recording given).append conv inbound s.world in
      in_conversation-Sent agent user inbound conv saved (is_empty inbound.chat)
        (record { compactions = s.compactions; world = w })

  pub load_user-kept :
      (b : Bool) (m : Message) (w : Traced W) → (load_user (recording given) b m w).1.1 ≡ w.1
  unfolding load_user
  load_user-kept true m w = refl
  load_user-kept false m w = refl

  pub load_conversation-kept :
      (b : Bool) (m : Message) (w : Traced W)
      → (load_conversation (recording given) b m w).1.1 ≡ w.1
  unfolding load_conversation
  load_conversation-kept true m w = refl
  load_conversation-kept false m w = refl

  pub load_agent-kept :
      (b : Bool) (id : Text) (m : Message) (w : Traced W)
      → (load_agent (recording given) b id m w).1.1 ≡ w.1
  unfolding load_agent
  load_agent-kept true id m w = refl
  load_agent-kept false id m w = refl

  with_agent-Sent :
      (found : Option Agent) (inbound : Message) (s : S)
      → Sent given inbound
          (trace s).replies
          (with_agent (recording given) found max tenant inbound s)
  unfolding with_agent
  with_agent-Sent none inbound s = publish_response-Sent given inbound _ s
  with_agent-Sent (some agent) inbound s =
      let stamped : Message = record inbound { agent = agent.id } in
      let asked = not inbound.is_group && not (is_empty inbound.user_id) in
      let (user, w) = load_user (recording given) asked stamped s.world in
      let none_yet = is_empty inbound.conversation in
      let (conv, w') = load_conversation (recording given) none_yet stamped w in
      let done : Bool =
        (found_conversation (recording given) conv max tenant agent user stamped
          (record { compactions = s.compactions; world = w' })).0 in
      let (m, is, reply) =
        found_conversation-Sent conv agent user stamped
          (record { compactions = s.compactions; world = w' }) in
      (
        m,
        is
            ∙ ap (λ t. t.replies ++ ((m, done) ∷ []))
                (load_conversation-kept none_yet stamped w ∙ load_user-kept asked stamped s.world),
        restamped inbound m agent.id reply,
      )

module _ {W : Type 0} (given : Given W) (max : ℕ) where
  with_tenant-Sent :
      (found : Option (Option Tenant)) (inbound : Message) (s : State (Traced W))
      → Sent given inbound (trace s).replies (with_tenant (recording given) found max inbound s)
  unfolding with_tenant
  with_tenant-Sent none inbound s = publish_response-Sent given inbound _ s
  with_tenant-Sent (some none) inbound s = publish_response-Sent given inbound _ s
  with_tenant-Sent (some (some tenant)) inbound s =
      let id = agent_id (recording given) tenant inbound in
      let (agent, w) = load_agent (recording given) (is_empty id) id inbound s.world in
      subst
        (λ t.
          Sent given inbound t.replies
            (with_tenant (recording given) (some (some tenant)) max inbound s))
        (load_agent-kept given max tenant (is_empty id) id inbound s.world)
        (with_agent-Sent given max tenant agent inbound
          (record { compactions = s.compactions; world = w }))

  -- Whatever fails, and however many rounds it takes, a turn ends, and besides what its tools may publish
  -- it calls `Publish` exactly once: with a message of the assistant to the chat, user and tenant of the
  -- inbound message, in reply to it. The turn returns an error exactly if that call does.
  pub run_turn_publishes :
      (inbound : Message) (s : State (Traced W))
      → let (returned, after) = run_turn (recording given) max inbound s in
        (m : Message) × ((trace after).replies ≡ (trace s).replies ++ ((m, returned) ∷ []))
        × IsReplyTo inbound m
  unfolding run_turn
  run_turn_publishes inbound s =
      let (tenant, w) = silent (given.get_tenant inbound.tenant) s.world in
      with_tenant-Sent tenant inbound (record { compactions = s.compactions; world = w })
