-- ===== src/Llm/Routes.antt =====
-- internal/domain/service/llm/router.go: what `parseRoute` reads, and the chains that come of it.
use whiteagent.Common.{
  ℕ, suc, false, Option, none, some, List, [], ◌∷◌, ◌++◌, Text, cut, contains_byte, is_empty,
  All-append, Result, ok, err, ok-injective, subst, ◌≡◌, ◌↔◌, refl, ap, ◌∙◌, arith,
}
use whiteagent.Llm.{
  Route, RouterError, bad_primary, bad_fallback, prefixed, parse_parts, non_empty_parts,
  parse_route, parse_fallbacks, new_router, if_valid, valid_overrides, select,
}
use whiteagent.Llm.Calls.{HasModels}

-- The text of a route.
abbrev pub route_text : Route → Text
route_text sel = sel.endpoint ++ (b':' ∷ sel.model)

-- An endpoint without a colon, and a model, neither of them empty.
pub record IsRoute (sel : Route) : Type 0 where
  pub has_endpoint : is_empty sel.endpoint ≡ false
  pub has_model : is_empty sel.model ≡ false
  pub no_colon : contains_byte b':' sel.endpoint ≡ false

cut-some :
    (b : ℕ) (s l r : Text)
    → cut b s ≡ some (l, r)
    → (s ≡ l ++ (b ∷ r)) × (contains_byte b l ≡ false)
unfolding cut contains_byte
cut-some b [] l r h = cc
cut-some b (c ∷ s) [] r h = ground arith
cut-some b (c ∷ s) (x ∷ l) r h = ground (arith, cut-some b s l r)

cut-append : (b : ℕ) (l r : Text) → contains_byte b l ≡ false → cut b (l ++ (b ∷ r)) ≡ some (l, r)
unfolding cut contains_byte
cut-append b [] r h = ground arith
cut-append b (c ∷ l) r h = ground (arith, cut-append b l r)

non_empty_parts-some :
    (l r : Text) (sel : Route)
    → non_empty_parts (l, r) ≡ some sel
    → (l ≡ sel.endpoint) × (r ≡ sel.model) × (is_empty l ≡ false) × (is_empty r ≡ false)
unfolding non_empty_parts
non_empty_parts-some [] r sel h = cc
non_empty_parts-some (b ∷ l) [] sel h = cc
non_empty_parts-some (b ∷ l) (c ∷ r) sel h = (ground arith, ground arith, refl, refl)

parts-IsRoute :
    (s : Text) (parts : Option (Text × Text)) (sel : Route)
    → cut b':' s ≡ parts
    → parse_parts parts ≡ some sel
    → (s ≡ route_text sel) × IsRoute sel
unfolding parse_parts
parts-IsRoute s none sel c h = cc
parts-IsRoute s (some (l, r)) sel c h =
    let (el, er, le, re) = non_empty_parts-some l r sel h in
    let (is, colon) = cut-some b':' s l r c in
    (
      is ∙ ap (λ k. k ++ (b':' ∷ r)) el ∙ ap (λ k. sel.endpoint ++ (b':' ∷ k)) er,
      record { has_endpoint = rw (← el) le; has_model = rw (← er) re; no_colon = rw (← el) colon },
    )

route-parse_parts :
    (l r : Text)
    → is_empty l ≡ false
    → is_empty r ≡ false
    → parse_parts (some (l, r)) ≡ some (record { endpoint = l; model = r })
unfolding parse_parts non_empty_parts
route-parse_parts [] r h k = cc
route-parse_parts (b ∷ l) [] h k = cc
route-parse_parts (b ∷ l) (c ∷ r) h k = refl

-- What `parseRoute` accepts is the text of a route, and the text of a route is parsed to it.
pub parse_route-route_text :
    (s : Text) (sel : Route) → (parse_route s ≡ some sel) ↔ ((s ≡ route_text sel) × IsRoute sel)
unfolding parse_route
parse_route-route_text s sel = (
  parts-IsRoute s (cut b':' s) sel refl,
  λ (is, route).
      rw (is, cut-append b':' sel.endpoint sel.model route.no_colon)
        (route-parse_parts sel.endpoint sel.model route.has_endpoint route.has_model),
)

parse_route-model : (s : Text) (sel : Route) → parse_route s ≡ some sel → is_empty sel.model ≡ false
parse_route-model s sel h = (((parse_route-route_text s sel).0 h).1).has_model

prefixed-HasModels :
    (bad : RouterError) (fb : Text) (rest : Result RouterError (List Route)) (chain : List Route)
    → ((c : List Route) → rest ≡ ok c → HasModels c)
    → prefixed bad (parse_route fb) rest ≡ ok chain
    → HasModels chain
unfolding prefixed
prefixed-HasModels bad fb rest chain more h = by_route (parse_route fb) rest refl more h
  where
    by_route :
        (o : Option Route) (r : Result RouterError (List Route))
        → parse_route fb ≡ o
        → ((c : List Route) → r ≡ ok c → HasModels c)
        → prefixed bad o r ≡ ok chain
        → HasModels chain
    by_route none r is more' h' = cc
    by_route (some sel) (err e) is more' h' = cc
    by_route (some sel) (ok c) is more' h' =
        subst HasModels (ok-injective h') (parse_route-model fb sel is, more' c refl)

parse_fallbacks-HasModels :
    (i : ℕ) (fbs : List Text) (chain : List Route)
    → parse_fallbacks i fbs ≡ ok chain
    → HasModels chain
unfolding parse_fallbacks
parse_fallbacks-HasModels i [] chain h = subst HasModels (ok-injective h) tt
parse_fallbacks-HasModels i (fb ∷ fbs) chain h =
    prefixed-HasModels (bad_fallback i) fb (parse_fallbacks (suc i) fbs) chain
      (parse_fallbacks-HasModels (suc i) fbs) h

new_router-HasModels :
    (primary : Text) (fallbacks : List Text) (chain : List Route)
    → new_router primary fallbacks ≡ ok chain
    → HasModels chain
unfolding new_router
new_router-HasModels primary fallbacks chain h =
    prefixed-HasModels bad_primary primary (parse_fallbacks 0 fallbacks) chain
      (parse_fallbacks-HasModels 0 fallbacks) h

if_valid-HasModels :
    (s : Text) (o : Option Route) (rest : List Route)
    → parse_route s ≡ o
    → HasModels rest
    → HasModels (if_valid o rest)
unfolding if_valid
if_valid-HasModels s none rest is has = has
if_valid-HasModels s (some sel) rest is has = (parse_route-model s sel is, has)

valid_overrides-HasModels : (os : List Text) → HasModels (valid_overrides os)
unfolding valid_overrides
valid_overrides-HasModels [] = tt
valid_overrides-HasModels (o ∷ os) =
    if_valid-HasModels o (parse_route o) _ refl (valid_overrides-HasModels os)

-- Every route that the router selects has a model.
pub select-HasModels :
    (primary : Text) (fallbacks overrides : List Text) (chain : List Route)
    → new_router primary fallbacks ≡ ok chain
    → HasModels (select chain overrides)
unfolding select
select-HasModels primary fallbacks overrides chain h =
    All-append _ (valid_overrides overrides) chain (valid_overrides-HasModels overrides)
      (new_router-HasModels primary fallbacks chain h)
