-- ===== src/Loop/Turn/History.antt =====
-- internal/domain/service/loop/loop.go: what a whole turn leaves in the history.
use whiteagent.Common.{
  ℕ, ◌≤◌, if◌then◌else◌, Bool, true, false, not, ◌&&◌, Option, none, some, List, [], ◌∷◌, ◌++◌,
  append_assoc, Text, is_empty, length, All, All-append, ◌≡◌, refl, sym, ap, ◌∙◌, subst, inl,
}
use whiteagent.Entity.{Message, is_tool}
use whiteagent.Prompt.{has_calls, group_messages}
use whiteagent.Prompt.Groups.{IsRound, joined, ungrouped_all, group_messages-joined}
use whiteagent.Loop.{Given, State, Tenant, Agent, User, Capabilities}
use whiteagent.Loop.Recorded.{Traced, recording, trace, silent}
use whiteagent.Loop.History.{Leaves, Saves, NamesCalls, rounds-Leaves}
use whiteagent.Loop.Turn.{
  opened, open_if, agent_id, prepared, in_conversation, found_conversation, load_user,
  load_conversation, with_agent, load_agent, with_tenant, run_turn,
}
use whiteagent.Loop.Turn.Once.{
  open_if-kept, load_user-kept, load_conversation-kept, load_agent-kept,
}

module _ {W : Type 0} (given : Given W) (saves : Saves given) (names : NamesCalls given) (max : ℕ)
    (tenant : Tenant) where
  abbrev S : Type 0
  S = State (Traced W)

  module _ (agent : Agent) (user : Option User) (inbound : Message) (conv : Text) where
    opened-Leaves :
        (has_proxy : Bool) (caps : Capabilities) (out : Text) (s : S)
        → Leaves max
            (trace s).saved
            (opened (recording given) has_proxy max tenant agent user inbound conv caps out s)
    unfolding opened
    opened-Leaves true caps out s = rounds-Leaves given _ saves names max true false [] _
    opened-Leaves false caps out s = rounds-Leaves given _ saves names max true false [] _

    prepared-Leaves :
        (caps : Capabilities) (s : S)
        → Leaves max
            (trace s).saved
            (prepared (recording given) max tenant agent user inbound conv caps s)
    unfolding prepared
    prepared-Leaves caps s =
        let (out, w) = silent given.new_id s.world in
        let (has_proxy, w') = open_if (recording given) given.has_sandbox inbound out conv w in
        subst
          (λ t.
            Leaves max t.saved
              (prepared (recording given) max tenant agent user inbound conv caps s))
          (open_if-kept given max tenant agent user inbound conv given.has_sandbox out w)
          (opened-Leaves has_proxy caps out (record { compactions = s.compactions; world = w' }))

    in_conversation-Leaves :
        (saved homeless : Bool) (s : S)
        → saved ≡ true
        → Leaves max
            (trace s).saved
            (in_conversation (recording given) saved homeless max tenant agent user inbound conv s)
    unfolding in_conversation
    in_conversation-Leaves false homeless s is = cc
    in_conversation-Leaves true true s is =
        prepared-Leaves (record { reactions = false; indication = false }) s
    in_conversation-Leaves true false s is =
        let (caps, w) = silent (given.start_typing inbound) s.world in
        prepared-Leaves caps (record { compactions = s.compactions; world = w })

  -- The inbound message was saved, and then the rounds of the turn.
  abbrev Adds : Message → S → Bool × S → Type 0
  Adds inbound s out = Leaves max ((trace s).saved ++ (inbound ∷ [])) out

  found_conversation-Adds :
      (found : Option Text) (conv : Text) (agent : Agent) (user : Option User) (inbound : Message)
      (s : S)
      → found ≡ some conv
      → Adds inbound s (found_conversation (recording given) found max tenant agent user inbound s)
  unfolding found_conversation
  found_conversation-Adds none conv agent user inbound s is = cc
  found_conversation-Adds (some c) conv agent user inbound s is =
      let (saved, w) = (recording given).append c inbound s.world in
      let s1 : S = record { compactions = s.compactions; world = w } in
      let done : saved ≡ true = saves c inbound s.world.0 in
      let grown : (trace s1).saved ≡ (trace s).saved ++ (inbound ∷ []) = rw done refl in
      subst
        (λ l.
          Leaves max l
            (found_conversation (recording given) (some c) max tenant agent user inbound s))
        grown (in_conversation-Leaves agent user inbound c saved (is_empty inbound.chat) s1 done)

  load_conversation-found :
      (none_yet : Bool) (m : Message) (w : Traced W)
      → (none_yet ≡ true → (c : Text) × ((given.resolve_conversation m w.0).0 ≡ some c))
      → (c : Text) × ((load_conversation (recording given) none_yet m w).0 ≡ some c)
  unfolding load_conversation
  load_conversation-found false m w resolves = (_, refl)
  load_conversation-found true m w resolves = resolves refl

  with_agent-Adds :
      (found : Option Agent) (agent : Agent) (inbound : Message) (s : S)
      → found ≡ some agent
      → ((w : W)
          → is_empty inbound.conversation ≡ true
          → (c : Text) × ((given.resolve_conversation (record inbound { agent = agent.id }) w).0
              ≡ some c))
      → Adds
          (record inbound { agent = agent.id })
          s
          (with_agent (recording given) found max tenant inbound s)
  unfolding with_agent
  with_agent-Adds none agent inbound s is resolves = cc
  with_agent-Adds (some a) agent inbound s is resolves =
      let same : agent ≡ a = cc in
      subst
        (λ ag.
          Adds (record inbound { agent = ag.id }) s
            (with_agent (recording given) (some a) max tenant inbound s))
        (sym same)
        (found_agent (
          subst
            (λ ag.
              (w : W)
              → is_empty inbound.conversation ≡ true
              → (c : Text) × ((given.resolve_conversation (record inbound { agent = ag.id }) w).0
                  ≡ some c))
            same resolves))
    where
      stamped : Message
      stamped = record inbound { agent = a.id }

      found_agent :
          ((w : W)
            → is_empty inbound.conversation ≡ true
            → (c : Text) × ((given.resolve_conversation stamped w).0 ≡ some c))
          → Adds stamped s (with_agent (recording given) (some a) max tenant inbound s)
      found_agent resolves =
          let asked = not inbound.is_group && not (is_empty inbound.user_id) in
          let (user, w) = load_user (recording given) asked stamped s.world in
          let none_yet = is_empty inbound.conversation in
          let (conv, w') = load_conversation (recording given) none_yet stamped w in
          let (c, at) = load_conversation-found none_yet stamped w (resolves w.0) in
          subst
            (λ t.
              Leaves max (t.saved ++ (stamped ∷ []))
                (with_agent (recording given) (some a) max tenant inbound s))
            (load_conversation-kept given max tenant none_yet stamped w
              ∙ load_user-kept given max tenant asked stamped s.world)
            (found_conversation-Adds conv c a user stamped
              (record { compactions = s.compactions; world = w' }) at)

-- The identifier of the agent that a message is for.
abbrev pub agent_for : Tenant → Message → Text
agent_for tenant inbound = if is_empty inbound.agent then tenant.default_agent else inbound.agent

-- The store has the tenant and the agent of a message, and its conversation is found.
pub record Opens {W : Type 0} (given : Given W) (inbound : Message) (tenant : Tenant)
    (agent : Agent) : Type 0 where
  pub tenant_found : (w : W) → (given.get_tenant inbound.tenant w).0 ≡ some (some tenant)
  pub agent_named : is_empty (agent_for tenant inbound) ≡ false
  pub agent_found :
      (w : W) → (given.get_agent inbound.tenant (agent_for tenant inbound) w).0 ≡ some (some agent)
  pub conversation_found :
      (w : W)
      → is_empty inbound.conversation ≡ true
      → (c : Text) × ((given.resolve_conversation (record inbound { agent = agent.id }) w).0
          ≡ some c)

module _ {W : Type 0} (given : Given W) (saves : Saves given) (names : NamesCalls given) (max : ℕ)
    (inbound : Message) (tenant : Tenant) (agent : Agent)
    (opens : Opens given inbound tenant agent) where
  load_agent-found :
      (none_named : Bool) (w : Traced W)
      → none_named ≡ false
      → (load_agent (recording given) none_named (agent_for tenant inbound) inbound w).0
        ≡ some agent
  unfolding load_agent
  load_agent-found true w is = cc
  load_agent-found false w is = ap or_none (opens.agent_found w.0)
    where
      or_none : Option (Option Agent) → Option Agent
      or_none none = none
      or_none (some found) = found

  with_tenant-Adds :
      (found : Option (Option Tenant)) (s : State (Traced W))
      → found ≡ some (some tenant)
      → Leaves max
          ((trace s).saved ++ (record inbound { agent = agent.id } ∷ []))
          (with_tenant (recording given) found max inbound s)
  unfolding with_tenant
  with_tenant-Adds none s is = cc
  with_tenant-Adds (some none) s is = cc
  with_tenant-Adds (some (some t)) s is =
      let same : tenant ≡ t = cc in
      subst
        (λ t'.
          Leaves max ((trace s).saved ++ (record inbound { agent = agent.id } ∷ []))
            (with_tenant (recording given) (some (some t')) max inbound s))
        same found_tenant
    where
      found_tenant :
          Leaves max
            ((trace s).saved ++ (record inbound { agent = agent.id } ∷ []))
            (with_tenant (recording given) (some (some tenant)) max inbound s)
      found_tenant =
          let id = agent_id (recording given) tenant inbound in
          let (found, w) = load_agent (recording given) (is_empty id) id inbound s.world in
          subst
            (λ t.
              Leaves max (t.saved ++ (record inbound { agent = agent.id } ∷ []))
                (with_tenant (recording given) (some (some tenant)) max inbound s))
            (load_agent-kept given max tenant (is_empty id) id inbound s.world)
            (with_agent-Adds given saves names max tenant found agent inbound
              (record { compactions = s.compactions; world = w })
              (load_agent-found (is_empty id) s.world opens.agent_named) opens.conversation_found)

  run_turn-Adds :
      (s : State (Traced W))
      → Leaves max
          ((trace s).saved ++ (record inbound { agent = agent.id } ∷ []))
          (run_turn (recording given) max inbound s)
  unfolding run_turn
  run_turn-Adds s =
      let (found, w) = silent (given.get_tenant inbound.tenant) s.world in
      with_tenant-Adds found (record { compactions = s.compactions; world = w })
        (opens.tenant_found s.world.0)

joined-append : (rs ts : List (List Message)) → joined (rs ++ ts) ≡ joined rs ++ joined ts
joined-append [] ts = refl
joined-append (r ∷ rs) ts =
    ap (λ l. r ++ l) (joined-append rs ts) ∙ sym (append_assoc r (joined rs) (joined ts))

-- Where the message's tenant, agent and conversation are found, messages can be saved, and the model gives
-- the calls of a response identifiers of their own, a turn that begins with a history of whole rounds ends
-- with one: it adds the message that came in, which calls no tools and is no result, with its agent, and
-- then at most one round for each of the permitted iterations; and the groups of the prompt are these
-- rounds, each call with its result.
pub run_turn-group_messages :
    {W : Type 0} (given : Given W) (max : ℕ) (inbound : Message) (tenant : Tenant) (agent : Agent)
    (s : State (Traced W)) (before : List (List Message))
    → Saves given
    → NamesCalls given
    → Opens given inbound tenant agent
    → is_tool inbound.role ≡ false
    → has_calls inbound ≡ false
    → All IsRound before
    → (trace s).saved ≡ joined before
    → (rounds : List (List Message)) × (length rounds ≤ max)
      × All IsRound rounds
      × (group_messages (trace (run_turn (recording given) max inbound s).1).saved
          ≡ ungrouped_all (before ++ ((record inbound { agent = agent.id } ∷ []) ∷ rounds)))
run_turn-group_messages given max inbound tenant agent s before saves names opens own plain whole
      is =
    let (rounds, grown, all, few) =
      run_turn-Adds given saves names max inbound tenant agent opens s in
    let first : List Message = record inbound { agent = agent.id } ∷ [] in
    (
      rounds,
      few,
      all,
      ap group_messages (
            grown
            ∙ append_assoc (trace s).saved first (joined rounds)
            ∙ ap (λ l. l ++ (first ++ joined rounds)) is
            ∙ sym (joined-append before (first ∷ rounds)))
          ∙ group_messages-joined (before ++ (first ∷ rounds))
              (All-append IsRound before (first ∷ rounds) whole (inl (own, plain, refl), all)),
    )
