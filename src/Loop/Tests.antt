-- ===== src/Loop/Tests.antt =====
-- Tests and examples for internal/domain/service/loop: a model that asks for the time again and again.
-- The world counts the identifiers.
use whiteagent.Common.{
  ℕ, suc, ◌+◌, ◌≤◌, true, false, none, some, List, [], ◌∷◌, ◌++◌, codes, text_eq, if◌then◌else◌,
  length, ok, ok-injective, All, ◌≡◌, refl, subst,
}
use whiteagent.Entity.{Message, ToolCall, user, bare, new_reply}
use whiteagent.Llm.{CompletionResponse}
use whiteagent.Prompt.{call_ids, group_messages}
use whiteagent.Prompt.Groups.{IsRound, ungrouped_all}
use whiteagent.Loop.{Given, State, Tenant, Agent, Setting, rounds}
use whiteagent.Loop.Recorded.{Traced, recording, trace}
use whiteagent.Loop.Published.{IsReplyTo}
use whiteagent.Loop.History.{Saves, NamesCalls, AreDistinct}
use whiteagent.Loop.Turn.{run_turn}
use whiteagent.Loop.Turn.Once.{run_turn_publishes}
use whiteagent.Loop.Turn.History.{Opens, run_turn-group_messages}

abbrev clock_call : ToolCall
clock_call = record { id = codes "c1"; name = codes "time"; arguments = [] }

abbrev asking : CompletionResponse
asking = record {
  content = codes "the secret is s3";
  tool_calls = clock_call ∷ [];
  finish_reason = codes "tool_calls";
  tokens_in = 1;
  tokens_out = 1;
  endpoint = codes "a";
  model = codes "x";
}

abbrev agent : Agent
agent = record { id = codes "ag"; name = []; instructions = [] }

abbrev tenant : Tenant
tenant = record {
  id = codes "t";
  name = [];
  instructions = [];
  default_agent = codes "ag";
  allowed_tools = [];
}

abbrev world : Given ℕ
world = record {
  get_tenant = λ t n. (some (some tenant), n);
  get_agent = λ t a n. (some (some agent), n);
  get_user = λ t u n. (none, n);
  register_conversation = λ t c n. n;
  resolve_conversation = λ m n. (some (codes "conv"), n);
  append = λ c m n. (true, n);
  start_typing = λ m n. (record { reactions = true; indication = false }, n);
  stop_typing = λ n. n;
  has_sandbox = true;
  home = λ u. codes "/home";
  open_sandbox = λ m o c n. (true, n);
  close_sandbox = λ n. n;
  override_model = λ n. n;
  build = λ set up_to n. (some ([], some (codes "m")), n);
  has_compaction = true;
  spawn_compaction = λ req n. n;
  tool_defs = λ t c. [];
  complete = λ req n. (ok asking, n);
  is_done = λ n. false;
  sanitize = λ s. s;
  redact = λ s t u n. ([], n);
  harvest = λ id n. (some [], n);
  find_tool = λ name.
      if text_eq name (codes "time") then some (λ tc args n. (ok (codes "noon"), n)) else none;
  append_error_log = λ t e n. n;
  publish = λ m n. (true, n);
  new_id = λ n. ((48 + n) ∷ [], suc n);
  now = λ n. (n, n);
}

abbrev hello : Message
hello = record (bare user (codes "hi")) {
  id = codes "m0";
  tenant = codes "t";
  user_id = codes "u";
  chat = codes "ch";
}

abbrev start : State (Traced ℕ)
start = record { compactions = []; world = (0, record { saved = []; replies = [] }) }

run_turn_publishes_example :
    let (returned, after) = run_turn (recording world) 2 hello start in
    (m : Message) × ((trace after).replies ≡ (trace start).replies ++ ((m, returned) ∷ []))
    × IsReplyTo hello m
run_turn_publishes_example = run_turn_publishes world 2 hello start

world-Saves : Saves world
world-Saves conv m w = refl

world-NamesCalls : NamesCalls world
world-NamesCalls req w resp is =
    subst (λ r. AreDistinct (call_ids r.tool_calls)) (ok-injective is) (refl, tt)

world-Opens : Opens world hello tenant agent
world-Opens = record {
  tenant_found = λ w. refl;
  agent_named = refl;
  agent_found = λ w. refl;
  conversation_found = λ w none_yet. (codes "conv", refl);
}

run_turn-group_messages_example :
    (rounds : List (List Message)) × (length rounds ≤ 2)
    × All IsRound rounds
    × (group_messages (trace (run_turn (recording world) 2 hello start).1).saved
        ≡ ungrouped_all ((record hello { agent = codes "ag" } ∷ []) ∷ rounds))
run_turn-group_messages_example =
    run_turn-group_messages world 2 hello tenant agent start [] world-Saves world-NamesCalls
      world-Opens refl refl tt refl

abbrev setting : Setting
setting = record {
  tenant = tenant;
  agent = agent;
  user = none;
  inbound = hello;
  conversation = codes "conv";
  caps = record { reactions = true; indication = false };
  out_path = [];
  has_proxy = false;
}

-- Five messages are saved: the question, and twice a call with its result.
saved_messages : length (trace (run_turn (recording world) 2 hello start).1).saved ≡ 5
unfolding run_turn rounds text_eq new_reply
saved_messages = refl
