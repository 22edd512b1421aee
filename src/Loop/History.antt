-- ===== src/Loop/History.antt =====
-- internal/domain/service/loop/loop.go: what the rounds of a turn leave in the history.
use whiteagent.Common.{
  ℕ, zero, suc, ◌≤◌, Bool, true, false, Option, none, some, List, [], ◌∷◌, ◌++◌, append-nil,
  append_assoc, Text, codes, length, Result, ok, err, if◌then◌else◌, All, ◌≡◌, refl, sym, ap, ◌∙◌,
  subst, inl, inr, arith,
}
use whiteagent.Entity.{Message, ToolCall, tool, is_tool, assistant, new_reply}
use whiteagent.Llm.{CompletionRequest, CompletionResponse}
use whiteagent.Prompt.{call_ids, expects}
use whiteagent.Prompt.Groups.{AllAnswered, IsRound, joined}
use whiteagent.Loop.{
  Given, State, Setting, ToolContext, tool_context, limit_text, publish_response, log_error,
  tool_result, run_tool, execute_tools, if_saved, append_message, save_results, finish, after_calls,
  answered, request_of, completed, compact_once, built, round, rounds,
}
use whiteagent.Loop.Recorded.{Traced, recording, trace, silent, silent_tool}
use whiteagent.Loop.Published.{Ended, execute_tools-kept, compact_once-kept, harvested-kept}

abbrev pub AreDistinct : List Text → Type 0
AreDistinct [] = Unit
AreDistinct (i ∷ is) = (expects i is ≡ false) × AreDistinct is

-- Whole rounds were saved, at most `n` of them.
abbrev pub Leaves : {W : Type 0} → ℕ → List Message → Bool × State (Traced W) → Type 0
Leaves n before out =
    (rs : List (List Message)) × ((trace out.1).saved ≡ before ++ joined rs)
    × All IsRound rs
    × (length rs ≤ n)

module _ {W : Type 0} (given : Given W) where
  -- Every message can be saved.
  abbrev pub Saves : Type 0
  Saves = (conv : Text) (m : Message) (w : W) → (given.append conv m w).0 ≡ true

  -- The calls of a response have identifiers of their own.
  abbrev pub NamesCalls : Type 0
  NamesCalls =
      (req : CompletionRequest) (w : W) (resp : CompletionResponse)
      → (given.complete req w).0 ≡ ok resp
      → AreDistinct (call_ids resp.tool_calls)

  pub publish_response-Leaves :
      (n : ℕ) (inbound : Message) (content : Text) (s : State (Traced W))
      → Leaves n (trace s).saved (publish_response (recording given) inbound content s)
  unfolding publish_response
  publish_response-Leaves n inbound content s =
      ([], sym (append-nil (trace s).saved), tt, omega arith)

  logged-Leaves :
      (n : ℕ) (inbound : Message) (msg content : Text) (s : State (Traced W))
      → Leaves n (trace s).saved (
          publish_response
            (recording given)
            inbound
            content
            (log_error (recording given) inbound msg s))
  unfolding log_error
  logged-Leaves n inbound msg content s =
      publish_response-Leaves n inbound content (log_error (recording given) inbound msg s)

  abbrev pub stamped : Text → List Message → List Message
  stamped agent [] = []
  stamped agent (r ∷ rs) = record r { agent = agent } ∷ stamped agent rs

  abbrev pub IsResultOf : ToolCall → Message → Type 0
  IsResultOf c m = (m.role ≡ tool) × (m.tool_call ≡ c.id)

  pub run_tool-IsResultOf :
      (inbound : Message) (tc : ToolContext) (c : ToolCall)
      (found : Option (ToolContext → Text → Traced W → Result Text Text × Traced W))
      (s : State (Traced W))
      → IsResultOf c (run_tool (recording given) inbound tc c found s).0
  unfolding run_tool tool_result new_reply
  run_tool-IsResultOf inbound tc c none s = (refl, refl)
  run_tool-IsResultOf inbound tc c (some execute) s = (refl, refl)

  execute_tools-AllAnswered :
      (inbound : Message) (tc : ToolContext) (agent : Text) (cs : List ToolCall)
      (s : State (Traced W))
      → AreDistinct (call_ids cs)
      → AllAnswered
          (call_ids cs)
          (stamped agent (execute_tools (recording given) inbound tc cs s).0)
  unfolding execute_tools
  execute_tools-AllAnswered inbound tc agent [] s distinct = tt
  execute_tools-AllAnswered inbound tc agent (c ∷ cs) s (fresh, distinct) =
      let (role, id) = run_tool-IsResultOf inbound tc c (silent_tool (given.find_tool c.name)) s in
      (ap is_tool role, id, fresh, execute_tools-AllAnswered inbound tc agent cs _ distinct)

  -- A round, and what the rest of the turn leaves.
  pub Leaves-round :
      (n : ℕ) (before after : List Message) (r : List Message) (out : Ended given)
      → IsRound r
      → after ≡ before ++ r
      → Leaves n after out
      → Leaves (suc n) before out
  Leaves-round n before after r out is grown (rs, saved, whole, few) = (
    r ∷ rs,
    saved ∙ ap (λ l. l ++ joined rs) grown ∙ append_assoc before r (joined rs),
    (is, whole),
    omega arith,
  )

  module _ (set : Setting) (saves : Saves) where
    if_saved-true :
        (failure : Text) (saved : Bool) (next : State (Traced W) → Ended given)
        (s : State (Traced W))
        → saved ≡ true
        → if_saved (recording given) set failure saved next s ≡ next s
    unfolding if_saved
    if_saved-true failure true next s is = refl
    if_saved-true failure false next s is = cc

    -- The state after a message was saved.
    pub appended : Message → State (Traced W) → State (Traced W)
    appended m s = record {
      compactions = s.compactions;
      world = ((recording given).append set.conversation m s.world).1;
    }

    pub appended-saved :
        (m : Message) (s : State (Traced W))
        → (trace (appended m s)).saved ≡ (trace s).saved ++ (m ∷ [])
    unfolding appended
    appended-saved m s = rw (saves set.conversation m s.world.0) refl

    -- What a message and the rest of the turn leave.
    pub append_message-saved :
        (failure : Text) (m : Message) (next : State (Traced W) → Ended given)
        (s : State (Traced W)) (P : Ended given → Type 0)
        → P (next (appended m s))
        → P (append_message (recording given) set failure m next s)
    unfolding append_message appended
    append_message-saved failure m next s P h =
        subst P (sym (if_saved-true failure _ next _ (saves set.conversation m s.world.0))) h

    pub appended-replies :
        (m : Message) (s : State (Traced W)) → (trace (appended m s)).replies ≡ (trace s).replies
    unfolding appended
    appended-replies m s = refl

    pub appended_all : List Message → State (Traced W) → State (Traced W)
    appended_all [] s = s
    appended_all (r ∷ rs) s = appended_all rs (appended (record r { agent = set.agent.id }) s)

    pub appended_all-saved :
        (rs : List Message) (s : State (Traced W))
        → (trace (appended_all rs s)).saved ≡ (trace s).saved ++ stamped set.agent.id rs
    unfolding appended_all
    appended_all-saved [] s = sym (append-nil (trace s).saved)
    appended_all-saved (r ∷ rs) s =
        let m : Message = record r { agent = set.agent.id } in
        appended_all-saved rs (appended m s)
        ∙ ap (λ l. l ++ stamped set.agent.id rs) (appended-saved m s)
        ∙ append_assoc (trace s).saved (m ∷ []) (stamped set.agent.id rs)

    pub appended_all-replies :
        (rs : List Message) (s : State (Traced W))
        → (trace (appended_all rs s)).replies ≡ (trace s).replies
    unfolding appended_all
    appended_all-replies [] s = refl
    appended_all-replies (r ∷ rs) s =
        appended_all-replies rs _ ∙ appended-replies (record r { agent = set.agent.id }) s

    pub save_results-saved :
        (rs : List Message) (next : State (Traced W) → Ended given) (s : State (Traced W))
        (P : Ended given → Type 0)
        → P (next (appended_all rs s))
        → P (save_results (recording given) set rs next s)
    unfolding save_results appended_all
    save_results-saved [] next s P h = h
    save_results-saved (r ∷ rs) next s P h =
        append_message-saved _ _ _ s P (save_results-saved rs next _ P h)

    finish-Leaves :
        (n : ℕ) (m : Message) (s : State (Traced W))
        → Leaves n (trace s).saved (finish (recording given) set m s)
    unfolding finish
    finish-Leaves n m s = (
      [],
      ap (λ t. t.saved) (harvested-kept given set set.has_proxy _ _)
          ∙ sym (append-nil (trace s).saved),
      tt,
      omega arith,
    )

    module _ (n : ℕ) (next : Text → State (Traced W) → Ended given)
        (on : (last : Text) (t : State (Traced W)) → Leaves n (trace t).saved (next last t)) where
      -- The model's message is saved already.
      after_calls-Leaves :
          (m : Message) (before : List Message) (s : State (Traced W))
          → m.role ≡ assistant
          → AreDistinct (call_ids m.tool_calls)
          → (trace s).saved ≡ before ++ (m ∷ [])
          → (calls : List ToolCall) → m.tool_calls ≡ calls
          → Leaves (suc n) before (after_calls (recording given) set calls m next s)
      unfolding after_calls
      after_calls-Leaves m before s role distinct saved [] none_called =
          Leaves-round n before (trace s).saved (m ∷ []) (finish (recording given) set m s)
            (inl (rw role refl, rw (role, none_called) refl, refl)) saved (finish-Leaves n m s)
      after_calls-Leaves m before s role distinct saved (c ∷ cs) is =
          let tc : ToolContext = tool_context (recording given) set.inbound set.conversation in
          let (results, s1) = execute_tools (recording given) set.inbound tc (c ∷ cs) s in
          let all : AllAnswered (call_ids m.tool_calls) (stamped set.agent.id results) =
            subst (λ calls. AllAnswered (call_ids calls) (stamped set.agent.id results)) (sym is)
              (execute_tools-AllAnswered set.inbound tc set.agent.id (c ∷ cs) s
                (subst (λ calls. AreDistinct (call_ids calls)) is distinct)) in
          let before' : (trace s1).saved ≡ before ++ (m ∷ []) =
            ap (λ t. t.saved) (execute_tools-kept given set.inbound tc (c ∷ cs) s) ∙ saved in
          save_results-saved results (next m.content) s1 (Leaves (suc n) before) (
            Leaves-round n before (trace (appended_all results s1)).saved
              (m ∷ stamped set.agent.id results) (next m.content (appended_all results s1))
              (inr (rw (role, is) refl, all))
              (appended_all-saved results s1
                ∙ ap (λ l. l ++ stamped set.agent.id results) before'
                ∙ append_assoc before (m ∷ []) (stamped set.agent.id results))
              (on m.content (appended_all results s1)))

      answered-Leaves :
          (resp : CompletionResponse) (s : State (Traced W))
          → AreDistinct (call_ids resp.tool_calls)
          → Leaves (suc n) (trace s).saved (answered (recording given) set resp next s)
      unfolding answered new_reply
      answered-Leaves resp s distinct =
          let (id, w) = silent given.new_id s.world in
          let (t, w') = silent given.now w in
          let named : State (Traced W) = record { compactions = s.compactions; world = w' } in
          let m : Message = record (new_reply set.inbound id assistant t) {
            agent = set.agent.id;
            content = given.sanitize resp.content;
            tool_calls = resp.tool_calls;
          } in
          append_message-saved _ m (after_calls (recording given) set resp.tool_calls m next) named
            (Leaves (suc n) (trace s).saved)
            (after_calls-Leaves m (trace s).saved (appended m named) refl distinct
              (appended-saved m named) resp.tool_calls refl)

      completed-Leaves :
          (done : Bool) (reply : Result Text CompletionResponse) (last : Text)
          (s : State (Traced W))
          → ((resp : CompletionResponse) → reply ≡ ok resp → AreDistinct (call_ids resp.tool_calls))
          → Leaves (suc n) (trace s).saved (completed (recording given) set done reply last next s)
      unfolding completed
      completed-Leaves true reply last s names =
          logged-Leaves (suc n) set.inbound (codes "Turn timed out") (limit_text last) s
      completed-Leaves false (err e) last s names =
          logged-Leaves (suc n) set.inbound (codes "LLM error: " ++ e)
            (codes "I encountered an error processing your request.") s
      completed-Leaves false (ok resp) last s names = answered-Leaves resp s (names resp refl)

    built-Leaves :
        (names : NamesCalls) (n : ℕ) (prompt : Option (List Message × Option Text))
        (triggered : Bool) (last : Text) (next : Bool → Text → State (Traced W) → Ended given)
        → ((b : Bool) (t : Text) (s : State (Traced W)) → Leaves n (trace s).saved (next b t s))
        → (s : State (Traced W))
        → Leaves (suc n) (trace s).saved (built (recording given) set prompt triggered last next s)
    unfolding built
    built-Leaves names n none triggered last next on s =
        publish_response-Leaves (suc n) set.inbound (codes "Internal error.") s
    built-Leaves names n (some (messages, signal)) triggered last next on s =
        let (now, s1) = compact_once (recording given) set triggered signal s in
        let req = request_of (recording given) set messages in
        let (reply, w) = given.complete req s1.world.0 in
        subst
          (λ t.
            Leaves (suc n) t.saved
              (built (recording given) set (some (messages, signal)) triggered last next s))
          (compact_once-kept given set triggered signal s)
          (completed-Leaves n (next now) (on now) (given.is_done w) reply last
            (record { compactions = s1.compactions; world = (w, trace s1) }) (names req s1.world.0))

    -- At most one round in the history for each round of the loop.
    pub rounds-Leaves :
        (names : NamesCalls) (n : ℕ) (first triggered : Bool) (last : Text) (s : State (Traced W))
        → Leaves n (trace s).saved (rounds (recording given) set n first triggered last s)
    unfolding rounds round
    rounds-Leaves names zero first triggered last s =
        logged-Leaves zero set.inbound (codes "Max iterations reached") (limit_text last) s
    rounds-Leaves names (suc n) first triggered last s =
        let up_to = if first then some set.inbound.id else none in
        let (prompt, w) = given.build set up_to s.world.0 in
        built-Leaves names n prompt triggered last (rounds (recording given) set n false)
          (rounds-Leaves names n false)
          (record { compactions = s.compactions; world = (w, trace s) })
