-- ===== src/Loop.antt =====
-- internal/domain/service/loop/loop.go: the turn of an agent, which is a bounded number of rounds of a model
-- call and the tool calls that the model asks for. A handler tells whether it returned without an error.
-- Tools that run in parallel are taken one after the other, in the order of their calls.
mod Port
pub mod Turn
pub mod Recorded
pub mod Published
pub mod History
pub mod Limit
pub mod Tests
pub use Port.*
use whiteagent.Common.{
  ℕ, zero, suc, Bool, true, false, not, ◌&&◌, ◌||◌, Option, none, some, List, [], ◌∷◌, ◌++◌, Text,
  codes, text_eq, if◌then◌else◌, is_empty, Result, ok, err,
}
use whiteagent.Entity.{Message, ToolCall, Attachment, assistant, tool, message_kind, new_reply}
use whiteagent.Llm.{CompletionRequest, CompletionResponse}

abbrev limit_note : Text
limit_note = codes "[Processing limit reached]"

-- What is said when the limit is reached: the last content, with a note.
abbrev pub limit_text : Text → Text
limit_text last =
    if is_empty last
    then codes "I was unable to complete your request. " ++ limit_note
    else last ++ codes "\n\n" ++ limit_note

abbrev is_running : Text → List Text → Bool
is_running conv [] = false
is_running conv (c ∷ cs) = text_eq conv c || is_running conv cs

module _ {W : Type 0} (given : Given W) where
  abbrev pub Out : Type 0
  Out = Bool × State W

  abbrev pub to_world : State W → W → State W
  to_world s w = record s { world = w }

  pub publish_response : Message → Text → State W → Out
  publish_response inbound content s =
      let (id, w) = given.new_id s.world in
      let (t, w1) = given.now w in
      let (sent, w2) =
        given.publish
          (record (new_reply inbound id assistant t) {
            agent = inbound.agent;
            content = content;
            kind = message_kind;
          })
          w1 in
      (sent, to_world s w2)

  pub log_error : Message → Text → State W → State W
  log_error inbound msg s = to_world s (
      given.append_error_log inbound.tenant
        (record {
          user = inbound.user_id;
          ref_type = codes "message";
          ref_id = inbound.id;
          content = msg;
        })
        s.world)

  -- The text of a tool's result, before it is redacted.
  abbrev outcome_text : Result Text Text → Text
  outcome_text (err e) = codes "Tool error: " ++ e
  outcome_text (ok text) = text

  tool_result : Message → ToolCall → Text → State W → Message × State W
  tool_result inbound call content s =
      let (id, w) = given.new_id s.world in
      let (t, w') = given.now w in
      (
        record (new_reply inbound id tool t) {
          content = content;
          tool_call = call.id;
          tool_name = call.name;
        },
        to_world s w',
      )

  abbrev arguments_of : ToolCall → Text
  arguments_of call = if is_empty call.arguments then codes "{}" else call.arguments

  pub run_tool :
      Message
      → ToolContext
      → ToolCall
      → Option (ToolContext → Text → W → Result Text Text × W)
      → State W
      → Message × State W
  unfolding tool_result
  run_tool inbound tc call none s = tool_result inbound call (codes "Unknown tool: " ++ call.name) s
  run_tool inbound tc call (some execute) s =
      let (outcome, w) = execute tc (arguments_of call) s.world in
      let (text, w') = given.redact (outcome_text outcome) tc.tenant tc.user w in
      tool_result inbound call text (to_world s w')

  -- `executeToolsParallel`: the results in the order of the calls.
  pub execute_tools : Message → ToolContext → List ToolCall → State W → List Message × State W
  unfolding run_tool
  execute_tools inbound tc [] s = ([], s)
  execute_tools inbound tc (call ∷ calls) s =
      let (result, s1) = run_tool inbound tc call (given.find_tool call.name) s in
      let (results, s2) = execute_tools inbound tc calls s1 in (result ∷ results, s2)

  abbrev pub tool_context : Message → Text → ToolContext
  tool_context inbound conv = record {
    tenant = inbound.tenant;
    agent = inbound.agent;
    user = inbound.user_id;
    chat = inbound.chat;
    is_group = inbound.is_group;
    message = inbound.id;
    conversation = conv;
  }

  module _ (set : Setting) where
    -- What comes after a call of `Append`, by whether it succeeded.
    if_saved : Text → Bool → (State W → Out) → State W → Out
    unfolding publish_response
    if_saved failure true next s = next s
    if_saved failure false next s = publish_response set.inbound failure s

    pub append_message : Text → Message → (State W → Out) → State W → Out
    unfolding if_saved
    append_message failure msg next s =
        let (saved, w) = given.append set.conversation msg s.world in
        if_saved failure saved next (to_world s w)

    pub save_results : List Message → (State W → Out) → State W → Out
    unfolding append_message
    save_results [] next s = next s
    save_results (r ∷ rs) next s =
        append_message (codes "Internal error: unable to save tool result.")
          (record r { agent = set.agent.id }) (save_results rs next) s

    pub harvested : Bool → Message → State W → Message × State W
    harvested false msg s = (msg, s)
    harvested true msg s =
        let (found, w) = given.harvest msg.id s.world in
        (
          record msg { attachments = elim found [ none ↦ msg.attachments | some files ↦ files ] },
          to_world s w,
        )

    -- The final answer.
    finish : Message → State W → Out
    unfolding harvested
    finish msg s =
        let (text, w) = given.redact msg.content set.inbound.tenant set.inbound.user_id s.world in
        let (msg', s1) =
          harvested set.has_proxy (record msg { content = text; kind = message_kind })
            (to_world s w) in
        let (sent, w') = given.publish msg' s1.world in (sent, to_world s1 w')

    after_calls : List ToolCall → Message → (Text → State W → Out) → State W → Out
    unfolding finish execute_tools save_results
    after_calls [] msg next s = finish msg s
    after_calls (c ∷ cs) msg next s =
        let (results, s1) =
          execute_tools set.inbound (tool_context set.inbound set.conversation) (c ∷ cs) s in
        save_results results (next msg.content) s1

    answered : CompletionResponse → (Text → State W → Out) → State W → Out
    unfolding append_message after_calls
    answered resp next s =
        let (id, w) = given.new_id s.world in
        let (t, w') = given.now w in
        let msg : Message = record (new_reply set.inbound id assistant t) {
          agent = set.agent.id;
          content = given.sanitize resp.content;
          tool_calls = resp.tool_calls;
        } in
        append_message (codes "Internal error: unable to save response.") msg
          (after_calls resp.tool_calls msg next) (to_world s w')

    -- What comes after the model's call, by whether the time of the turn is up.
    completed :
        Bool → Result Text CompletionResponse → Text → (Text → State W → Out) → State W → Out
    unfolding log_error publish_response answered
    completed true reply last next s =
        publish_response set.inbound (limit_text last)
          (log_error set.inbound (codes "Turn timed out") s)
    completed false (err e) last next s =
        publish_response set.inbound (codes "I encountered an error processing your request.")
          (log_error set.inbound (codes "LLM error: " ++ e) s)
    completed false (ok resp) last next s = answered resp next s

    start_compaction : Text → State W → State W
    start_compaction latest s = if is_running set.conversation s.compactions then s else record {
      compactions = set.conversation ∷ s.compactions;
      world =
          given.spawn_compaction
            (record {
              tenant = set.inbound.tenant;
              conversation = set.conversation;
              latest_message = latest;
            })
            s.world;
    }

    -- Whether a compaction was triggered in this turn, and the state.
    pub compact_once : Bool → Option Text → State W → Bool × State W
    unfolding start_compaction
    compact_once true signal s = (true, s)
    compact_once false none s = (false, s)
    compact_once false (some latest) s =
        if given.has_compaction then (true, start_compaction latest s) else (false, s)

    abbrev request_of : List Message → CompletionRequest
    request_of messages = record {
      tenant = set.inbound.tenant;
      messages = messages;
      tools = given.tool_defs set.tenant set.caps;
      model = [];
      stream = false;
    }

    built :
        Option (List Message × Option Text)
        → Bool
        → Text
        → (Bool → Text → State W → Out)
        → State W
        → Out
    unfolding publish_response compact_once completed
    built none triggered last next s = publish_response set.inbound (codes "Internal error.") s
    built (some (messages, signal)) triggered last next s =
        let (triggered', s1) = compact_once triggered signal s in
        let (reply, w) = given.complete (request_of messages) s1.world in
        completed (given.is_done w) reply last (next triggered') (to_world s1 w)

    -- One round: whether it is the first, whether a compaction was triggered, and the last content.
    round : Bool → Bool → Text → (Bool → Text → State W → Out) → State W → Out
    unfolding built
    round first triggered last next s =
        let (prompt, w) = given.build set (if first then some set.inbound.id else none) s.world in
        built prompt triggered last next (to_world s w)

    pub rounds : ℕ → Bool → Bool → Text → State W → Out
    unfolding round log_error publish_response
    rounds zero first triggered last s =
        publish_response set.inbound (limit_text last)
          (log_error set.inbound (codes "Max iterations reached") s)
    rounds (suc n) first triggered last s = round first triggered last (rounds n false) s
