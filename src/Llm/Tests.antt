-- ===== src/Llm/Tests.antt =====
-- Tests and examples for internal/domain/service/llm: two endpoints, of which the first is out of order.
use whiteagent.Common.{
  ℕ, true, false, List, [], ◌∷◌, codes, text_eq, cut, load, if◌then◌else◌, ◌≡◌, refl,
}
use whiteagent.Llm.{
  Route, CompletionRequest, CompletionResponse, answered, broken, Given, parse_route, new_router,
  select, complete,
}
use whiteagent.Llm.Calls.{recording, Follows, OwnModel}
use whiteagent.Llm.OneModel.{complete_one_model}
use whiteagent.Llm.Routes.{}

abbrev response : CompletionResponse
response = record {
  content = codes "hi";
  tool_calls = [];
  finish_reason = codes "stop";
  tokens_in = 1;
  tokens_out = 1;
  endpoint = [];
  model = [];
}

abbrev two_endpoints : Given ℕ
two_endpoints = record {
  clock = λ n. (n, n);
  has_endpoint = λ e. true;
  call = λ e req n. (if text_eq e (codes "a") then broken else answered response, n);
  cancelled = λ n. false;
}

abbrev plain_request : CompletionRequest
plain_request = record { tenant = codes "t"; messages = []; tools = []; model = []; stream = false }

abbrev routes : List Route
routes =
    record { endpoint = codes "a"; model = codes "x" }
    ∷ record { endpoint = codes "b"; model = codes "y" }
    ∷ []

complete_one_model_example :
    let out =
      complete
        (recording two_endpoints)
        60
        routes
        []
        plain_request
        (record { cooldown = []; world = (0, []) }) in
    Follows out.1.world.1 (select routes []) × OwnModel (select routes []) out.1.world.1 out.0
unfolding new_router parse_route cut
complete_one_model_example =
    complete_one_model two_endpoints 60 (codes "a:x") (codes "b:y" ∷ []) [] routes plain_request []
      0 refl refl

-- The second endpoint is asked for the model of the first.
fails_over :
    (complete
      (recording two_endpoints)
      60
      routes
      []
      plain_request
      (record { cooldown = []; world = (0, []) })).1.world.1
    ≡ record { endpoint = codes "a"; model = codes "x" }
      ∷ record { endpoint = codes "b"; model = codes "x" }
      ∷ []
unfolding complete select load text_eq
fails_over = refl
