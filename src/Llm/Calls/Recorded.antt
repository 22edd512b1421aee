-- ===== src/Llm/Calls/Recorded.antt =====
-- internal/domain/service/llm/completion.go: endpoints whose calls are written down, in order.
use whiteagent.Common.{List, [], ◌∷◌, ◌++◌, Text, ◌≡◌}
use whiteagent.Llm.{Route, Given}

pub record Call : Type 0 where
  pub endpoint : Text
  pub model : Text

abbrev pub recording : {W : Type 0} → Given W → Given (W × List Call)
recording given = record {
  clock = λ (w, calls). let (now, w') = given.clock w in (now, (w', calls));
  has_endpoint = given.has_endpoint;
  call = λ endpoint req (w, calls).
      let (reply, w') = given.call endpoint req w in
      (reply, (w', calls ++ (record { endpoint = endpoint; model = req.model } ∷ [])));
  cancelled = λ (w, calls). given.cancelled w;
}

-- The calls go along the chain: each is of a later route than the one before it.
pub data Follows : List Call → List Route → Type 0 where
  nothing : {chain : List Route} → Follows [] chain
  skip :
      {calls : List Call} {sel : Route} {chain : List Route}
      → Follows calls chain
      → Follows calls (sel ∷ chain)
  take :
      {c : Call} {calls : List Call} {sel : Route} {chain : List Route}
      → c.endpoint ≡ sel.endpoint
      → Follows calls chain
      → Follows (c ∷ calls) (sel ∷ chain)
