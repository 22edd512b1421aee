-- ===== src/Llm.antt =====
-- internal/domain/service/llm (router.go, completion.go): the choice of a model endpoint and the failover.
-- The clock, the endpoints and the context of the call are parameters over any world. A duration is a
-- natural number, 0 for one that is not above 0; of a missing model override holder and of an empty one
-- the override is none.
pub mod Routes
pub mod Calls
pub mod OneModel
pub mod Tests
use whiteagent.Common.{
  ℕ, suc, ◌+◌, Bool, true, false, Option, none, some, List, [], ◌∷◌, ◌++◌, Text, cut, length, ltb,
  ◌==◌, if◌then◌else◌, is_empty, load, store, erase, Result, ok, err,
}
use whiteagent.Entity.{Message, ToolCall}

-- RouteSelection
pub record Route : Type 0 where
  pub endpoint : Text
  pub model : Text

non_empty_parts : Text × Text → Option Route
non_empty_parts ([], model) = none
non_empty_parts (b ∷ endpoint, []) = none
non_empty_parts (b ∷ endpoint, c ∷ model) =
    some (record { endpoint = b ∷ endpoint; model = c ∷ model })

parse_parts : Option (Text × Text) → Option Route
unfolding non_empty_parts
parse_parts none = none
parse_parts (some parts) = non_empty_parts parts

pub parse_route : Text → Option Route
unfolding parse_parts
parse_route s = parse_parts (cut b':' s)

pub data RouterError : Type 0 where
  bad_primary : RouterError
  bad_fallback : ℕ → RouterError

-- A route before a chain; the route's own error comes first.
prefixed :
    RouterError → Option Route → Result RouterError (List Route) → Result RouterError (List Route)
prefixed bad none rest = err bad
prefixed bad (some sel) (err e) = err e
prefixed bad (some sel) (ok chain) = ok (sel ∷ chain)

-- The loop over the fallbacks, from the index on.
parse_fallbacks : ℕ → List Text → Result RouterError (List Route)
unfolding prefixed
parse_fallbacks i [] = ok []
parse_fallbacks i (fb ∷ fbs) =
    prefixed (bad_fallback i) (parse_route fb) (parse_fallbacks (suc i) fbs)

pub new_router : Text → List Text → Result RouterError (List Route)
unfolding parse_fallbacks
new_router primary fallbacks =
    prefixed bad_primary (parse_route primary) (parse_fallbacks 0 fallbacks)

-- An override that is no route is left out.
if_valid : Option Route → List Route → List Route
if_valid none rest = rest
if_valid (some sel) rest = sel ∷ rest

pub valid_overrides : List Text → List Route
unfolding if_valid
valid_overrides [] = []
valid_overrides (o ∷ os) = if_valid (parse_route o) (valid_overrides os)

pub select : List Route → List Text → List Route
unfolding valid_overrides
select chain overrides = valid_overrides overrides ++ chain

pub record ToolDef : Type 0 where
  pub name : Text
  pub description : Text
  pub parameters : Text

pub record CompletionRequest : Type 0 where
  pub tenant : Text
  pub messages : List Message
  pub tools : List ToolDef
  pub model : Text
  pub stream : Bool

pub record CompletionResponse : Type 0 where
  pub content : Text
  pub tool_calls : List ToolCall
  pub finish_reason : Text
  pub tokens_in : ℕ
  pub tokens_out : ℕ
  pub endpoint : Text
  pub model : Text

-- What an endpoint replies: a response, a ProviderError with its RetryAfter, or another error.
pub data Reply : Type 0 where
  answered : CompletionResponse → Reply
  refused : ℕ → Reply
  broken : Reply

-- The clock, the table of endpoints with their Complete, and `ctx.Err() != nil`.
pub record Given (W : Type 0) : Type 0 where
  pub clock : W → ℕ × W
  pub has_endpoint : Text → Bool
  pub call : Text → CompletionRequest → W → Reply × W
  pub cancelled : W → Bool

pub record Tracked (W : Type 0) : Type 0 where
  pub cooldown : List (Text × ℕ)
  pub world : W

pub data CompleteError : Type 0 where
  cancelled_call : CompleteError
  exhausted : ℕ → CompleteError

-- `sel.EndpointID + ":" + model`
abbrev pub cooldown_key : Text → Text → Text
cooldown_key endpoint model = endpoint ++ (b':' ∷ model)

-- `model := sel.Model`, unless the request has a model
abbrev pub chosen_model : Route → CompletionRequest → Text
chosen_model sel req = if is_empty req.model then sel.model else req.model

module _ {W : Type 0} (given : Given W) (default_cooldown : ℕ) where
  abbrev Out : Type 0
  Out = Result CompleteError CompletionResponse × Tracked W

  check_until : Option ℕ → Text → Tracked W → Bool × Tracked W
  check_until none key s = (false, s)
  check_until (some t) key s =
      let (now, w) = given.clock s.world in
      if ltb t now
      then (false, record { cooldown = erase key s.cooldown; world = w })
      else (true, record s { world = w })

  pub is_cooled_down : Text → Tracked W → Bool × Tracked W
  unfolding check_until
  is_cooled_down key s = check_until (load key s.cooldown) key s

  pub set_cool_down : Text → ℕ → Tracked W → Tracked W
  set_cool_down key retry s =
      let (now, w) = given.clock s.world in
      record {
        cooldown = store key (now + (if retry == 0 then default_cooldown else retry)) s.cooldown;
        world = w;
      }

  -- What comes after an error, by whether the context is done: the next route, if it is not.
  failed_over : Bool → (Tracked W → Out) → (Tracked W → Tracked W) → Tracked W → Out
  failed_over true next note s = (err cancelled_call, s)
  failed_over false next note s = next (note s)

  replied : Route → Text → (Tracked W → Out) → Reply → Tracked W → Out
  unfolding failed_over set_cool_down
  replied sel model next (answered resp) s =
      (ok (record resp { endpoint = sel.endpoint; model = model }), s)
  replied sel model next (refused retry) s =
      failed_over (given.cancelled s.world) next
        (set_cool_down (cooldown_key sel.endpoint model) retry) s
  replied sel model next broken s = failed_over (given.cancelled s.world) next (λ t. t) s

  call_route : Route → CompletionRequest → (Tracked W → Out) → Tracked W → Out
  unfolding replied
  call_route sel req next s =
      let (reply, w) = given.call sel.endpoint req s.world in
      replied sel req.model next reply (record s { world = w })

  -- By whether the route is cooled down, and whether there is its endpoint.
  unless_cold :
      Bool
      → Bool
      → Route
      → CompletionRequest
      → (CompletionRequest → Tracked W → Out)
      → Tracked W
      → Out
  unfolding call_route
  unless_cold true known sel req next s = next req s
  unless_cold false false sel req next s = next req s
  unless_cold false true sel req next s =
      let called = record req { model = chosen_model sel req; stream = true } in
      call_route sel called (next called) s

  -- One round of the loop; the rest of it, with the request as the round leaves it, is `next`.
  try_route : Route → CompletionRequest → (CompletionRequest → Tracked W → Out) → Tracked W → Out
  unfolding unless_cold is_cooled_down
  try_route sel req next s =
      let (cold, s1) = is_cooled_down (cooldown_key sel.endpoint (chosen_model sel req)) s in
      unless_cold cold (given.has_endpoint sel.endpoint) sel req next s1

  pub try_routes : ℕ → List Route → CompletionRequest → Tracked W → Out
  unfolding try_route
  try_routes total [] req s = (err (exhausted total), s)
  try_routes total (sel ∷ chain) req s = try_route sel req (try_routes total chain) s

  -- The request's own model, if it is a route, is the whole chain.
  routed : Option Route → List Route → CompletionRequest → List Route × CompletionRequest
  routed none chain req = (chain, req)
  routed (some sel) chain req = (sel ∷ [], record req { model = sel.model })

  pub complete : List Route → List Text → CompletionRequest → Tracked W → Out
  unfolding try_routes routed
  complete chain overrides req s =
      let (routes, req') =
        routed (if is_empty req.model then none else parse_route req.model) (select chain overrides)
          req in
      try_routes (length routes) routes req' s
