-- ===== src/Loop/Recorded.antt =====
-- internal/domain/service/loop/loop.go: a world in which the messages that the loop saves, and its own calls
-- of Publish with their results, are written down, in order.
use whiteagent.Common.{Bool, Option, none, some, List, [], ◌∷◌, ◌++◌, if◌then◌else◌, Text, Result}
use whiteagent.Entity.{Message}
use whiteagent.Loop.{Given, State, ToolContext}

pub record Trace : Type 0 where
  pub saved : List Message
  pub replies : List (Message × Bool)

abbrev pub Traced : Type 0 → Type 0
Traced W = W × Trace

-- A call that writes nothing down.
abbrev pub silent : {W A : Type 0} → (W → A × W) → Traced W → A × Traced W
silent f (w, t) = let (a, w') = f w in (a, (w', t))

abbrev pub quiet : {W : Type 0} → (W → W) → Traced W → Traced W
quiet f (w, t) = (f w, t)

-- What a tool does, the messages that it publishes itself included, is a change of the world.
abbrev pub silent_tool :
    {W : Type 0}
    → Option (ToolContext → Text → W → Result Text Text × W)
    → Option (ToolContext → Text → Traced W → Result Text Text × Traced W)
silent_tool none = none
silent_tool (some execute) = some (λ tc args. silent (execute tc args))

abbrev pub recording : {W : Type 0} → Given W → Given (Traced W)
recording given = record {
  get_tenant = λ t. silent (given.get_tenant t);
  get_agent = λ t a. silent (given.get_agent t a);
  get_user = λ t u. silent (given.get_user t u);
  register_conversation = λ t c. quiet (given.register_conversation t c);
  resolve_conversation = λ m. silent (given.resolve_conversation m);
  append = λ c m (w, t).
      let (done, w') = given.append c m w in
      (done, (w', record t { saved = if done then t.saved ++ (m ∷ []) else t.saved }));
  start_typing = λ m. silent (given.start_typing m);
  stop_typing = quiet given.stop_typing;
  has_sandbox = given.has_sandbox;
  home = given.home;
  open_sandbox = λ m o c. silent (given.open_sandbox m o c);
  close_sandbox = quiet given.close_sandbox;
  override_model = quiet given.override_model;
  build = λ set up_to. silent (given.build set up_to);
  has_compaction = given.has_compaction;
  spawn_compaction = λ req. quiet (given.spawn_compaction req);
  tool_defs = given.tool_defs;
  complete = λ req. silent (given.complete req);
  is_done = λ (w, t). given.is_done w;
  sanitize = given.sanitize;
  redact = λ text t u. silent (given.redact text t u);
  harvest = λ id. silent (given.harvest id);
  find_tool = λ name. silent_tool (given.find_tool name);
  append_error_log = λ t e. quiet (given.append_error_log t e);
  publish = λ m (w, t).
      let (sent, w') = given.publish m w in
      (sent, (w', record t { replies = t.replies ++ ((m, sent) ∷ []) }));
  new_id = silent given.new_id;
  now = silent given.now;
}

-- The trace of a state.
abbrev pub trace : {W : Type 0} → State (Traced W) → Trace
trace s = s.world.1
