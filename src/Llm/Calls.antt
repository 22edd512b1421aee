-- ===== src/Llm/Calls.antt =====
-- internal/domain/service/llm/completion.go: the calls that one `Complete` makes.
mod Recorded
pub use Recorded.*
use whiteagent.Common.{
  ℕ, Bool, true, false, Bool-cases, inl, inr, ◌⊎◌, Option, none, some, List, [], ◌∷◌, ◌++◌,
  append-nil, append_assoc, Text, length, is_empty, if◌then◌else◌, All, In, here, there, Result, ok,
  err, ◌≡◌, ◌≢◌, refl, sym, ap, ◌∙◌, subst, arith, load,
}
use whiteagent.Llm.{
  Route, CompletionRequest, CompletionResponse, Reply, answered, refused, broken, Given, Tracked,
  CompleteError, cooldown_key, chosen_model, check_until, is_cooled_down, set_cool_down,
  failed_over, replied, call_route, unless_cold, try_route, try_routes, select, complete,
}

abbrev pub Answers : Text → Result CompleteError CompletionResponse → Type 0
Answers m (err e) = Unit
Answers m (ok resp) = resp.model ≡ m

module _ {W : Type 0} (given : Given W) (d : ℕ) where
  abbrev Out : Type 0
  Out = Result CompleteError CompletionResponse × Tracked (W × List Call)

  abbrev logged : Tracked (W × List Call) → List Call
  logged s = s.world.1

  -- What was called after the calls before, and the result.
  abbrev Ran :
      List Call → (List Call → Result CompleteError CompletionResponse → Type 0) → Out → Type 0
  Ran before Q out = (new : List Call) × (logged out.1 ≡ before ++ new) × Q new out.0

  abbrev Steady : Text → List Route → List Call → Result CompleteError CompletionResponse → Type 0
  Steady m chain new r = Follows new chain × All (λ c. c.model ≡ m) new × Answers m r

  check_until-logged :
      (until : Option ℕ) (key : Text) (s : Tracked (W × List Call))
      → logged (check_until (recording given) d until key s).1 ≡ logged s
  unfolding check_until
  check_until-logged none key s = refl
  check_until-logged (some t) key s = ground arith

  cooled-logged :
      (key : Text) (s : Tracked (W × List Call))
      → logged (is_cooled_down (recording given) d key s).1 ≡ logged s
  unfolding is_cooled_down
  cooled-logged key s = check_until-logged (load key s.cooldown) key s

  set-logged :
      (key : Text) (retry : ℕ) (s : Tracked (W × List Call))
      → logged (set_cool_down (recording given) d key retry s) ≡ logged s
  unfolding set_cool_down
  set-logged key retry s = refl

  -- A call of a route with a model.
  abbrev made : Route → Text → Call
  made sel m = record { endpoint = sel.endpoint; model = m }

  module _ (m : Text) (chain : List Route) (next : Tracked (W × List Call) → Out)
      (later : (t : Tracked (W × List Call)) → Ran (logged t) (Steady m chain) (next t)) where
    failed_over-Steady :
        (stop : Bool) (note : Tracked (W × List Call) → Tracked (W × List Call))
        (s : Tracked (W × List Call))
        → logged (note s) ≡ logged s
        → Ran (logged s) (Steady m chain) (failed_over (recording given) d stop next note s)
    unfolding failed_over
    failed_over-Steady true note s same = ([], sym (append-nil (logged s)), (nothing, tt, tt))
    failed_over-Steady false note s same =
        let (new, more, rest) = later (note s) in (new, more ∙ ap (λ l. l ++ new) same, rest)

    replied-Steady :
        (sel : Route) (reply : Reply) (s : Tracked (W × List Call))
        → Ran (logged s) (Steady m chain) (replied (recording given) d sel m next reply s)
    unfolding replied
    replied-Steady sel (answered resp) s = ([], sym (append-nil (logged s)), (nothing, tt, refl))
    replied-Steady sel (refused retry) s =
        failed_over-Steady _ _ s (set-logged (cooldown_key sel.endpoint m) retry s)
    replied-Steady sel broken s = failed_over-Steady _ (λ t. t) s refl

  -- A round that makes a call, and the rounds after it, which call with the same model.
  call_route-Steady :
      (req : CompletionRequest) (sel : Route) (chain : List Route)
      (next : Tracked (W × List Call) → Out)
      → ((t : Tracked (W × List Call)) → Ran (logged t) (Steady req.model chain) (next t))
      → (s : Tracked (W × List Call))
      → Ran
          (logged s ++ (made sel req.model ∷ []))
          (Steady req.model chain)
          (call_route (recording given) d sel req next s)
  unfolding call_route
  call_route-Steady req sel chain next later s = replied-Steady req.model chain next later sel _ _

  abbrev called : Route → CompletionRequest → CompletionRequest
  called sel req = record req { model = chosen_model sel req; stream = true }

  -- A round goes on to the next route, or makes its call.
  module _ (Q : List Call → Result CompleteError CompletionResponse → Type 0) (sel : Route)
      (req : CompletionRequest) (next : CompletionRequest → Tracked (W × List Call) → Out)
      (before : List Call)
      (on : (t : Tracked (W × List Call)) → logged t ≡ before → Ran before Q (next req t))
      (call' : (t : Tracked (W × List Call))
        → logged t ≡ before
        → Ran before Q
            (call_route (recording given) d sel (called sel req) (next (called sel req)) t)) where
    unless_cold-Ran :
        (cold known : Bool) (t : Tracked (W × List Call))
        → logged t ≡ before
        → Ran before Q (unless_cold (recording given) d cold known sel req next t)
    unfolding unless_cold
    unless_cold-Ran true known t same = on t same
    unless_cold-Ran false false t same = on t same
    unless_cold-Ran false true t same = call' t same

    try_route-Ran :
        (s : Tracked (W × List Call))
        → logged s ≡ before
        → Ran before Q (try_route (recording given) d sel req next s)
    unfolding try_route
    try_route-Ran s same = unless_cold-Ran _ _ _ (cooled-logged _ s ∙ same)

  -- A round that makes a call with a model, and the rounds after it.
  called-Steady :
      (k : Text) (sel : Route) (req : CompletionRequest) (chain : List Route)
      (next : Tracked (W × List Call) → Out)
      → chosen_model sel req ≡ k
      → ((t : Tracked (W × List Call)) → Ran (logged t) (Steady k chain) (next t))
      → (before : List Call) (t : Tracked (W × List Call)) → logged t ≡ before
      → let out = call_route (recording given) d sel (called sel req) next t in
        (new : List Call) × (logged out.1 ≡ before ++ (made sel k ∷ new)) × Steady k chain new out.0
  called-Steady k sel req chain next is later before t same =
      let out = call_route (recording given) d sel (called sel req) next t in
      let (new, more, steady) =
        call_route-Steady (called sel req) sel chain next
          (λ t'. subst (λ j. Ran (logged t') (Steady j chain) (next t')) (sym is) (later t')) t in
      (
        new,
        more
            ∙ append_assoc (logged t) (made sel (chosen_model sel req) ∷ []) new
            ∙ ap (λ l. l ++ (made sel (chosen_model sel req) ∷ new)) same
            ∙ ap (λ j. before ++ (made sel j ∷ new)) is,
        subst (λ j. Steady j chain new out.0) is steady,
      )

  -- Once the request has a model, every call is made with it.
  try_routes-Steady :
      (total : ℕ) (chain : List Route) (req : CompletionRequest) (b : ℕ) (m : Text)
      → req.model ≡ b ∷ m
      → (s : Tracked (W × List Call))
      → Ran (logged s) (Steady (b ∷ m) chain) (try_routes (recording given) d total chain req s)
  unfolding try_routes
  try_routes-Steady total [] req b m has s = ([], sym (append-nil (logged s)), (nothing, tt, tt))
  try_routes-Steady total (sel ∷ chain) req b m has s =
      let next : CompletionRequest → Tracked (W × List Call) → Out =
        try_routes (recording given) d total chain in
      let own : chosen_model sel req ≡ b ∷ m = rw has refl in
      try_route-Ran (Steady (b ∷ m) (sel ∷ chain)) sel req next (logged s)
        (λ t same.
          let (new, is, (follows, all, r)) = try_routes-Steady total chain req b m has t in
          (new, is ∙ ap (λ l. l ++ new) same, (skip follows, all, r)))
        (λ t same.
          let (new, is, (follows, all, r)) =
            called-Steady (b ∷ m) sel req chain (next (called sel req)) own
              (try_routes-Steady total chain (called sel req) b m own) (logged s) t same in
          (made sel (b ∷ m) ∷ new, is, (take refl follows, (refl, all), r)))
        s refl

-- The calls of a request without a model: the first is of a route with the route's model, and all later
-- ones have that model too, which the response names; without a call there is no response.
abbrev pub OwnModel : List Route → List Call → Result CompleteError CompletionResponse → Type 0
OwnModel chain [] r = (e : CompleteError) × (r ≡ err e)
OwnModel chain (c ∷ calls) r =
    In (record { endpoint = c.endpoint; model = c.model }) chain
    × All (λ later. later.model ≡ c.model) calls
    × Answers c.model r

abbrev pub InOrder : List Route → List Call → Result CompleteError CompletionResponse → Type 0
InOrder chain calls r = Follows calls chain × OwnModel chain calls r

abbrev pub HasModels : List Route → Type 0
HasModels chain = All (λ sel. is_empty sel.model ≡ false) chain

OwnModel-cons :
    (sel : Route) (chain : List Route) (calls : List Call)
    (r : Result CompleteError CompletionResponse)
    → OwnModel chain calls r
    → OwnModel (sel ∷ chain) calls r
OwnModel-cons sel chain [] r own = own
OwnModel-cons sel chain (c ∷ calls) r (is, all, resp) = (there is, all, resp)

non_empty : (t : Text) → is_empty t ≡ false → (b : ℕ) × (m : Text) × (t ≡ b ∷ m)
non_empty [] h = cc
non_empty (b ∷ m) h = (b, m, refl)

module _ {W : Type 0} (given : Given W) (d : ℕ) where
  pub try_routes-OwnModel :
      (total : ℕ) (chain : List Route) (req : CompletionRequest)
      → HasModels chain
      → req.model ≡ []
      → (s : Tracked (W × List Call))
      → let out = try_routes (recording given) d total chain req s in
        (new : List Call) × (out.1.world.1 ≡ s.world.1 ++ new) × InOrder chain new out.0
  unfolding try_routes
  try_routes-OwnModel total [] req has none_yet s = ([], sym (append-nil _), (nothing, (_, refl)))
  try_routes-OwnModel total (sel ∷ chain) req (has, more) none_yet s =
      let next : CompletionRequest → Tracked (W × List Call) → Out given d =
        try_routes (recording given) d total chain in
      try_route-Ran given d (InOrder (sel ∷ chain)) sel req next (logged given d s)
        (λ t same.
          let (new, is, (follows, own)) = try_routes-OwnModel total chain req more none_yet t in
          (new, is ∙ ap (λ l. l ++ new) same, (skip follows, OwnModel-cons sel chain new _ own)))
        (λ t same.
          let (b, m, is_model) = non_empty sel.model has in
          let own : chosen_model sel req ≡ sel.model = rw none_yet refl in
          let (new, is, (follows, all, r)) =
            called-Steady given d sel.model sel req chain (next (called given d sel req)) own
              (λ t'.
                subst
                  (λ k.
                    Ran given d (logged given d t') (Steady given d k chain)
                      (next (called given d sel req) t'))
                  (sym is_model)
                  (try_routes-Steady given d total chain (called given d sel req) b m
                    (own ∙ is_model) t'))
              (logged given d s) t same in
          (made given d sel sel.model ∷ new, is, (take refl follows, (here refl, all, r))))
        s refl
