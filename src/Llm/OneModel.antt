-- ===== src/Llm/OneModel.antt =====
-- internal/domain/service/llm: the models that the calls of one `Complete` ask for.
use whiteagent.Common.{ℕ, none, List, [], Text, length, is_empty, if◌then◌else◌, ok, ◌≡◌, ap}
use whiteagent.Llm.{
  Route, CompletionRequest, Given, Tracked, new_router, select, parse_route, routed, try_routes,
  complete,
}
use whiteagent.Llm.Calls.{Call, recording, Follows, OwnModel, try_routes-OwnModel}
use whiteagent.Llm.Routes.{select-HasModels}

complete-no_model :
    {W : Type 0} (given : Given W) (d : ℕ) (chain : List Route) (overrides : List Text)
    (req : CompletionRequest) (s : Tracked W)
    → req.model ≡ []
    → complete given d chain overrides req s
      ≡ try_routes given d (length (select chain overrides)) (select chain overrides) req s
unfolding complete
complete-no_model given d chain overrides req s none_yet =
    ap
      (λ m.
        let (routes, req') =
          routed given d (if is_empty m then none else parse_route m) (select chain overrides)
            req in
        try_routes given d (length routes) routes req' s)
      none_yet

-- For a request that names no model, on a chain as `NewRouter` makes it, the calls of `Complete` go along
-- the overrides and then the chain, each route at most once. All of them ask for the model of the route
-- that is called first: the models of the routes that the call fails over to are not used. The response,
-- if there is one, names that model, and without a call there is none.
pub complete_one_model :
    {W : Type 0} (given : Given W) (d : ℕ) (primary : Text) (fallbacks overrides : List Text)
    (chain : List Route) (req : CompletionRequest) (cooldown : List (Text × ℕ)) (w : W)
    → new_router primary fallbacks ≡ ok chain
    → req.model ≡ []
    → let out =
        complete
          (recording given)
          d
          chain
          overrides
          req
          (record { cooldown = cooldown; world = (w, []) }) in
      Follows out.1.world.1 (select chain overrides)
      × OwnModel (select chain overrides) out.1.world.1 out.0
complete_one_model given d primary fallbacks overrides chain req cooldown w made no_model =
    let s : Tracked (_ × List Call) = record { cooldown = cooldown; world = (w, []) } in
    let routes = select chain overrides in
    let (new, is, (follows, own)) =
      try_routes-OwnModel given d (length routes) routes req
        (select-HasModels primary fallbacks overrides chain made) no_model s in
    rw (complete-no_model (recording given) d chain overrides req s no_model) (rw is (follows, own))
