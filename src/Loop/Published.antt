-- ===== src/Loop/Published.antt =====
-- internal/domain/service/loop/loop.go: what a turn publishes by itself.
use whiteagent.Common.{
  ℕ, zero, suc, Bool, true, false, Option, none, some, List, [], ◌∷◌, ◌++◌, Text, Result, ok, err,
  if◌then◌else◌, ◌≡◌, refl, ap, ◌∙◌, subst, arith,
}
use whiteagent.Entity.{Message, ToolCall, assistant, message_kind, new_reply}
use whiteagent.Llm.{CompletionResponse}
use whiteagent.Loop.{
  Given, State, Setting, ToolContext, publish_response, log_error, tool_result, tool_context,
  run_tool, execute_tools, if_saved, append_message, save_results, harvested, finish, after_calls,
  answered, request_of, completed, start_compaction, compact_once, built, round, rounds,
}
use whiteagent.Loop.Recorded.{Traced, recording, trace, silent_tool}

-- A message of the agent to the chat and the user of an inbound message, in reply to it.
pub record IsReplyTo (inbound m : Message) : Type 0 where
  pub role : m.role ≡ assistant
  pub kind : m.kind ≡ message_kind
  pub tenant : m.tenant ≡ inbound.tenant
  pub chat : m.chat ≡ inbound.chat
  pub user_id : m.user_id ≡ inbound.user_id
  pub caused_by : m.caused_by ≡ inbound.id

module _ {W : Type 0} (given : Given W) where
  abbrev pub Ended : Type 0
  Ended = Bool × State (Traced W)

  -- Publish was called once more, with a reply, and the turn returns as that call did.
  abbrev pub Sent : Message → List (Message × Bool) → Ended → Type 0
  Sent inbound before out =
      (m : Message) × ((trace out.1).replies ≡ before ++ ((m, out.0) ∷ [])) × IsReplyTo inbound m

  pub publish_response-Sent :
      (inbound : Message) (content : Text) (s : State (Traced W))
      → Sent inbound (trace s).replies (publish_response (recording given) inbound content s)
  unfolding publish_response new_reply
  publish_response-Sent inbound content s = (
    _,
    refl,
    record {
      role = refl;
      kind = refl;
      tenant = refl;
      chat = refl;
      user_id = refl;
      caused_by = refl;
    },
  )

  -- The same after an entry in the log of errors.
  logged-Sent :
      (inbound : Message) (msg content : Text) (s : State (Traced W))
      → Sent inbound (trace s).replies (
          publish_response
            (recording given)
            inbound
            content
            (log_error (recording given) inbound msg s))
  unfolding log_error
  logged-Sent inbound msg content s =
      publish_response-Sent inbound content (log_error (recording given) inbound msg s)

  run_tool-kept :
      (inbound : Message) (tc : ToolContext) (call : ToolCall)
      (found : Option (ToolContext → Text → W → Result Text Text × W)) (s : State (Traced W))
      → trace (run_tool (recording given) inbound tc call (silent_tool found) s).1 ≡ trace s
  unfolding run_tool tool_result
  run_tool-kept inbound tc call none s = refl
  run_tool-kept inbound tc call (some execute) s = refl

  pub execute_tools-kept :
      (inbound : Message) (tc : ToolContext) (calls : List ToolCall) (s : State (Traced W))
      → trace (execute_tools (recording given) inbound tc calls s).1 ≡ trace s
  unfolding execute_tools
  execute_tools-kept inbound tc [] s = refl
  execute_tools-kept inbound tc (c ∷ cs) s =
      execute_tools-kept inbound tc cs _ ∙ run_tool-kept inbound tc c (given.find_tool c.name) s

  module _ (set : Setting) where
    -- What the rest of the turn does from every state.
    abbrev Sends : (State (Traced W) → Ended) → Type 0
    Sends next = (t : State (Traced W)) → Sent set.inbound (trace t).replies (next t)

    if_saved-Sends :
        (failure : Text) (saved : Bool) (next : State (Traced W) → Ended)
        → Sends next
        → Sends (if_saved (recording given) set failure saved next)
    unfolding if_saved
    if_saved-Sends failure true next h s = h s
    if_saved-Sends failure false next h s = publish_response-Sent set.inbound failure s

    append_message-Sends :
        (failure : Text) (m : Message) (next : State (Traced W) → Ended)
        → Sends next
        → Sends (append_message (recording given) set failure m next)
    unfolding append_message
    append_message-Sends failure m next h s = if_saved-Sends failure _ next h _

    save_results-Sends :
        (rs : List Message) (next : State (Traced W) → Ended)
        → Sends next
        → Sends (save_results (recording given) set rs next)
    unfolding save_results
    save_results-Sends [] next h = h
    save_results-Sends (r ∷ rs) next h = append_message-Sends _ _ _ (save_results-Sends rs next h)

    pub harvested-kept :
        (b : Bool) (m : Message) (s : State (Traced W))
        → trace (harvested (recording given) set b m s).1 ≡ trace s
    unfolding harvested
    harvested-kept false m s = refl
    harvested-kept true m s = refl

    harvested-IsReplyTo :
        (b : Bool) (m : Message) (s : State (Traced W))
        → IsReplyTo set.inbound m
        → IsReplyTo set.inbound (harvested (recording given) set b m s).0
    unfolding harvested
    harvested-IsReplyTo false m s reply = reply
    harvested-IsReplyTo true m s reply = record {
      role = reply.role;
      kind = reply.kind;
      tenant = reply.tenant;
      chat = reply.chat;
      user_id = reply.user_id;
      caused_by = reply.caused_by;
    }

    -- The assistant's message of a round, before it is the final one.
    abbrev IsAnswer : Message → Type 0
    IsAnswer m = IsReplyTo set.inbound (record m { kind = message_kind })

    finish-Sends : (m : Message) → IsAnswer m → Sends (finish (recording given) set m)
    unfolding finish
    finish-Sends m answer s =
        let (text, w) = given.redact m.content set.inbound.tenant set.inbound.user_id s.world.0 in
        let final : Message = record m { content = text; kind = message_kind } in
        let redacted : State (Traced W) = record {
          compactions = s.compactions;
          world = (w, trace s);
        } in
        let sent : Message = (harvested (recording given) set set.has_proxy final redacted).0 in
        let s1 = (harvested (recording given) set set.has_proxy final redacted).1 in
        let done : Bool = (given.publish sent s1.world.0).0 in
        (
          sent,
          ap (λ t. t.replies ++ ((sent, done) ∷ [])) (harvested-kept set.has_proxy final redacted),
          harvested-IsReplyTo set.has_proxy final redacted (record {
            role = answer.role;
            kind = refl;
            tenant = answer.tenant;
            chat = answer.chat;
            user_id = answer.user_id;
            caused_by = answer.caused_by;
          }),
        )

    -- Whatever comes after a round.
    module _ (next : Text → State (Traced W) → Ended) (on : (last : Text) → Sends (next last)) where
      after_calls-Sends :
          (calls : List ToolCall) (m : Message)
          → IsAnswer m
          → Sends (after_calls (recording given) set calls m next)
      unfolding after_calls
      after_calls-Sends [] m answer s = finish-Sends m answer s
      after_calls-Sends (c ∷ cs) m answer s =
          let tc : ToolContext = tool_context (recording given) set.inbound set.conversation in
          let (results, s1) = execute_tools (recording given) set.inbound tc (c ∷ cs) s in
          subst
            (λ t.
              Sent set.inbound t.replies
                (save_results (recording given) set results (next m.content) s1))
            (execute_tools-kept set.inbound tc (c ∷ cs) s)
            (save_results-Sends results (next m.content) (on m.content) s1)

      answered-Sends :
          (resp : CompletionResponse) → Sends (answered (recording given) set resp next)
      unfolding answered new_reply
      answered-Sends resp s =
          append_message-Sends _ _ _
            (after_calls-Sends resp.tool_calls _ (record {
              role = refl;
              kind = refl;
              tenant = refl;
              chat = refl;
              user_id = refl;
              caused_by = refl;
            }))
            _

      completed-Sends :
          (done : Bool) (reply : Result Text CompletionResponse) (last : Text)
          → Sends (completed (recording given) set done reply last next)
      unfolding completed
      completed-Sends true reply last s = logged-Sent set.inbound _ _ s
      completed-Sends false (err e) last s = logged-Sent set.inbound _ _ s
      completed-Sends false (ok resp) last s = answered-Sends resp s

    pub compact_once-kept :
        (triggered : Bool) (signal : Option Text) (s : State (Traced W))
        → trace (compact_once (recording given) set triggered signal s).1 ≡ trace s
    unfolding compact_once start_compaction
    compact_once-kept true signal s = refl
    compact_once-kept false none s = refl
    compact_once-kept false (some latest) s = ground arith

    built-Sends :
        (prompt : Option (List Message × Option Text)) (triggered : Bool) (last : Text)
        (next : Bool → Text → State (Traced W) → Ended)
        → ((b : Bool) (t : Text) → Sends (next b t))
        → Sends (built (recording given) set prompt triggered last next)
    unfolding built
    built-Sends none triggered last next on s = publish_response-Sent set.inbound _ s
    built-Sends (some (messages, signal)) triggered last next on s =
        let (now, s1) = compact_once (recording given) set triggered signal s in
        let (reply, w) = given.complete (request_of (recording given) set messages) s1.world.0 in
        subst
          (λ t.
            Sent set.inbound t.replies
              (built (recording given) set (some (messages, signal)) triggered last next s))
          (compact_once-kept triggered signal s)
          (completed-Sends (next now) (on now) (given.is_done w) reply last
            (record { compactions = s1.compactions; world = (w, trace s1) }))

    pub rounds-Sends :
        (n : ℕ) (first triggered : Bool) (last : Text)
        → Sends (rounds (recording given) set n first triggered last)
    unfolding rounds round
    rounds-Sends zero first triggered last s = logged-Sent set.inbound _ _ s
    rounds-Sends (suc n) first triggered last s =
        let up_to = if first then some set.inbound.id else none in
        let (prompt, w) = given.build set up_to s.world.0 in
        built-Sends prompt triggered last (rounds (recording given) set n false)
          (rounds-Sends n false) (record { compactions = s.compactions; world = (w, trace s) })
