-- ===== src/Bus/Wrapping.antt =====
-- pkg/plugins/transport/memory/plugin.go: the handler that `Subscribe` registers.
use whiteagent.Common.{ℕ, zero, suc, List, [], ◌∷◌, ◌++◌, length, ◌≡◌, refl, ap, ◌∙◌, false, ok}
use whiteagent.Bus.{
  inbound, outbound, Handler, Middleware, Plugin, get_elem?, wrapped_by, wrap_rounds, subscribe,
}

module _ {W Message : Type 0} where
  -- The first middleware stands outermost.
  abbrev pub pipeline : List (Middleware W Message) → Handler W Message → Handler W Message
  pipeline [] h = h
  pipeline (mw ∷ mws) h = mw.wrap (pipeline mws h)

  wrap_rounds-cons :
      (i : ℕ) (mw : Middleware W Message) (mws : List (Middleware W Message))
      (h : Handler W Message)
      → wrap_rounds (suc i) (mw ∷ mws) h ≡ mw.wrap (wrap_rounds i mws h)
  unfolding wrap_rounds wrapped_by get_elem?
  wrap_rounds-cons zero mw mws h = refl
  wrap_rounds-cons (suc i) mw mws h = wrap_rounds-cons i mw mws (wrapped_by (get_elem? mws i) h)

  wrap_rounds-eq-pipeline :
      (mws : List (Middleware W Message)) (h : Handler W Message)
      → wrap_rounds (length mws) mws h ≡ pipeline mws h
  unfolding wrap_rounds
  wrap_rounds-eq-pipeline [] h = refl
  wrap_rounds-eq-pipeline (mw ∷ mws) h =
      wrap_rounds-cons (length mws) mw mws h ∙ ap mw.wrap (wrap_rounds-eq-pipeline mws h)

-- Before the start, `Subscribe` on one of the two topics appends the handler to those of the topic,
-- wrapped by all the middleware so that the first one is outermost and the last one calls the handler
-- itself; on the other topic nothing changes.
pub subscribe_lem :
    {W Message : Type 0} (p : Plugin W Message) (h : Handler W Message)
    → p.started ≡ false
    → (subscribe inbound h p
        ≡ ok (record p { inbound_handlers = p.inbound_handlers ++ (pipeline p.middleware h ∷ []) }))
      × (subscribe outbound h p
          ≡ ok (record p {
            outbound_handlers = p.outbound_handlers ++ (pipeline p.middleware h ∷ []);
          }))
unfolding subscribe
subscribe_lem p h idle = rw idle (rw (wrap_rounds-eq-pipeline p.middleware h) (refl, refl))
