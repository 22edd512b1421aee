-- ===== src/Bus.antt =====
-- pkg/plugins/transport/memory/plugin.go: the message bus, its subscribers and their middleware.
-- A handler acts on a world, returns, fails or panics. The queues of the two topics, and the publishers
-- and the dispatcher at work on one of them, are in Bus/Channels.antt.
pub mod Wrapping
pub mod Channels
pub mod Order
pub mod Drain
pub mod Tests
use whiteagent.Common.{
  ℕ, zero, suc, Bool, true, false, Option, none, some, List, [], ◌∷◌, ◌++◌, Text, length,
  if◌then◌else◌, Result, ok, err,
}
use whiteagent.Cron.{slt}

pub data Topic : Type 0 where
  inbound outbound : Topic
  other_topic : Text → Topic

pub data Failure : Type 0 where
  after_start unknown_topic : Failure

-- What comes of a call of a handler.
pub data Outcome : Type 0 where
  returned errored panicked : Outcome

module _ (W Message : Type 0) where
  abbrev pub Handler : Type 0
  Handler = Message → W → Outcome × W

  -- port.MiddlewarePlugin
  pub record Middleware : Type 0 where
    pub id : Text
    pub wrap : Handler → Handler

  pub record Plugin : Type 0 where
    pub queue_size : ℕ
    pub middleware : List Middleware
    pub inbound_handlers : List Handler
    pub outbound_handlers : List Handler
    pub started : Bool

module _ {W Message : Type 0} where
  -- `Init`: a size that is not positive, as an int64, gives the default.
  pub init : ℕ → Plugin W Message
  init size = record {
    queue_size = if slt 0 size then size else 256;
    middleware = [];
    inbound_handlers = [];
    outbound_handlers = [];
    started = false;
  }

  pub set_middleware : List (Middleware W Message) → Plugin W Message → Plugin W Message
  set_middleware mws p = if p.started then p else record p { middleware = mws }

  -- The access `p.middleware[i]`.
  get_elem? : List (Middleware W Message) → ℕ → Option (Middleware W Message)
  get_elem? [] i = none
  get_elem? (mw ∷ mws) zero = some mw
  get_elem? (mw ∷ mws) (suc i) = get_elem? mws i

  -- The log line that each layer adds has no effect. An access out of range would panic; the loop makes
  -- none.
  wrapped_by : Option (Middleware W Message) → Handler W Message → Handler W Message
  wrapped_by none h = λ msg w. (panicked, w)
  wrapped_by (some mw) h = mw.wrap h

  -- `for i := len(p.middleware) - 1; i >= 0; i--`, with the rounds that are left.
  wrap_rounds : ℕ → List (Middleware W Message) → Handler W Message → Handler W Message
  unfolding get_elem? wrapped_by
  wrap_rounds zero mws h = h
  wrap_rounds (suc i) mws h = wrap_rounds i mws (wrapped_by (get_elem? mws i) h)

  add_handler : Topic → Handler W Message → Plugin W Message → Result Failure (Plugin W Message)
  add_handler inbound h p = ok (record p { inbound_handlers = p.inbound_handlers ++ (h ∷ []) })
  add_handler outbound h p = ok (record p { outbound_handlers = p.outbound_handlers ++ (h ∷ []) })
  add_handler (other_topic t) h p = err unknown_topic

  pub subscribe : Topic → Handler W Message → Plugin W Message → Result Failure (Plugin W Message)
  unfolding wrap_rounds add_handler
  subscribe topic h p =
      if p.started
      then err after_start
      else add_handler topic (wrap_rounds (length p.middleware) p.middleware h) p

  pub handlers : Topic → Plugin W Message → List (Handler W Message)
  handlers inbound p = p.inbound_handlers
  handlers outbound p = p.outbound_handlers
  handlers (other_topic t) p = []

  -- The body of the dispatch loop: each handler in turn, whatever the others return; a panic is
  -- recovered.
  pub dispatch : List (Handler W Message) → Message → W → W
  dispatch [] msg w = w
  dispatch (h ∷ hs) msg w = dispatch hs msg (h msg w).1

  -- The messages of a topic's channel, in order.
  pub dispatch_all : List (Handler W Message) → List Message → W → W
  unfolding dispatch
  dispatch_all hs [] w = w
  dispatch_all hs (msg ∷ msgs) w = dispatch_all hs msgs (dispatch hs msg w)
