-- ===== src/Bus/Channels.antt =====
-- pkg/plugins/transport/memory/plugin.go: the channel of one topic, with the goroutines that publish, the
-- one that calls `Stop`, and the dispatch loop, as a relation of steps. Each step is one access that
-- other goroutines can see.
use whiteagent.Common.{ℕ, ◌<◌, ◌≡◌, Bool, true, false, List, [], ◌∷◌, ◌++◌, length}

-- `waiting` are the messages whose publisher has passed the test of `stopped` and stands at the select.
-- `accepted` and `delivered` record what was sent to the channel, and what the loop took from it.
pub record Channel (Message : Type 0) : Type 0 where
  pub queue : List Message
  pub stopped : Bool
  pub closed : Bool
  pub waiting : List Message
  pub accepted : List Message
  pub delivered : List Message
  pub exited : Bool
  pub crashed : Bool

abbrev pub new_channel : {Message : Type 0} → Channel Message
new_channel = record {
  queue = [];
  stopped = false;
  closed = false;
  waiting = [];
  accepted = [];
  delivered = [];
  exited = false;
  crashed = false;
}

module _ {Message : Type 0} where
  -- The steps of the dispatch loop.
  pub data LoopStep : Channel Message → Channel Message → Type 0 where
    -- The loop receives a message and calls the handlers.
    deliver :
        (c : Channel Message) (msg : Message) (rest : List Message)
        → c.exited ≡ false
        → c.queue ≡ msg ∷ rest
        → LoopStep c (record c { queue = rest; delivered = c.delivered ++ (msg ∷ []) })
    -- The loop ends: the channel is closed and empty.
    exit :
        (c : Channel Message)
        → c.exited ≡ false
        → c.closed ≡ true
        → c.queue ≡ []
        → LoopStep c (record c { exited = true })

  -- The steps of all goroutines, for a channel of the given size.
  pub data Step (size : ℕ) : Channel Message → Channel Message → Type 0 where
    -- `if p.stopped.Load() { return ErrBusStopped }` is passed.
    check :
        (c : Channel Message) (msg : Message)
        → c.stopped ≡ false
        → Step size c (record c { waiting = msg ∷ c.waiting })
    -- `ch <- msg`: there is room in the channel.
    send :
        (c : Channel Message) (before : List Message) (msg : Message) (after : List Message)
        → c.waiting ≡ before ++ (msg ∷ after)
        → c.closed ≡ false
        → length c.queue < size
        → Step size c (record c {
          waiting = before ++ after;
          queue = c.queue ++ (msg ∷ []);
          accepted = c.accepted ++ (msg ∷ []);
        })
    -- The same on a closed channel: a panic.
    send_closed :
        (c : Channel Message) (before : List Message) (msg : Message) (after : List Message)
        → c.waiting ≡ before ++ (msg ∷ after)
        → c.closed ≡ true
        → Step size c (record c { waiting = before ++ after; crashed = true })
    -- `<-ctx.Done()`
    cancel :
        (c : Channel Message) (before : List Message) (msg : Message) (after : List Message)
        → c.waiting ≡ before ++ (msg ∷ after)
        → Step size c (record c { waiting = before ++ after })
    -- `p.stopped.CompareAndSwap(false, true)`
    set_stopped :
        (c : Channel Message) → c.stopped ≡ false → Step size c (record c { stopped = true })
    -- `close(ch)`, by the goroutine that set the flag.
    close :
        (c : Channel Message)
        → c.stopped ≡ true
        → c.closed ≡ false
        → Step size c (record c { closed = true })
    loop : {c d : Channel Message} → LoopStep c d → Step size c d

  pub data Reach (size : ℕ) : Channel Message → Type 0 where
    start : Reach size new_channel
    later : {c d : Channel Message} → Reach size c → Step size c d → Reach size d

  -- Runs of the dispatch loop alone.
  pub data LoopRun (c : Channel Message) : Channel Message → Type 0 where
    still : LoopRun c c
    next : {d e : Channel Message} → LoopRun c d → LoopStep d e → LoopRun c e
