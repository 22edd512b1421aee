-- ===== src/Bus/Tests.antt =====
-- pkg/plugins/transport/memory/plugin.go: two messages through a channel, and a bus with two middlewares.
use whiteagent.Common.{ℕ, ◌≤◌, ◌⊎◌, true, false, List, [], ◌∷◌, ◌++◌, codes, ◌≡◌, refl, arith}
use whiteagent.Bus.{returned, Handler, Middleware, Plugin}
use whiteagent.Bus.Wrapping.{pipeline}
use whiteagent.Bus.Channels.{
  Channel, new_channel, LoopStep, deliver, LoopRun, still, next, Step, check, send, set_stopped,
  close, Reach, start, later,
}
use whiteagent.Bus.Order.{publish_order}
use whiteagent.Bus.Drain.{run_length, stop_drains, publish_race}

-- A publisher has passed the test.
abbrev checked_channel : Channel ℕ
checked_channel = record new_channel { waiting = 7 ∷ [] }

checked_reach : Reach 2 checked_channel
checked_reach = later start (check new_channel 7 refl)

publish_race_example :
    let passed : Channel ℕ = record new_channel { waiting = 7 ∷ [] } in
    let stopping : Channel ℕ = record passed { stopped = true } in
    let shut : Channel ℕ = record stopping { closed = true } in
    let after : Channel ℕ = record shut { waiting = []; crashed = true } in
    Step 2 new_channel passed
    × Step 2 passed stopping
    × Step 2 stopping shut
    × Step 2 shut after
    × (after.accepted ≡ [])
publish_race_example = publish_race 2 new_channel 7 start refl

-- Its message is accepted.
abbrev sent : Channel ℕ
sent = record checked_channel { waiting = []; queue = 7 ∷ []; accepted = 7 ∷ [] }

sent_reach : Reach 2 sent
sent_reach = later checked_reach (send checked_channel [] 7 [] refl refl (omega arith))

publish_order_example :
    (◌≡◌ {A = List ℕ} (7 ∷ []) ([] ++ (7 ∷ [])))
    × (1 ≤ 2)
    × (◌≡◌ {A = _} false true → ◌≡◌ {A = List ℕ} (7 ∷ []) [])
publish_order_example = publish_order 2 sent sent_reach

-- The bus is stopped with the message in its channel.
abbrev closed : Channel ℕ
closed = record sent { stopped = true; closed = true }

closed_reach : Reach 2 closed
closed_reach =
    later (later sent_reach (set_stopped sent refl))
      (close (record sent { stopped = true }) refl refl)

-- The loop has delivered the message.
abbrev drained : Channel ℕ
drained = record closed { queue = []; delivered = 7 ∷ [] }

drained_run : LoopRun closed drained
drained_run = next still (deliver closed 7 [] refl refl)

stop_drains_example :
    ((e : Channel ℕ) → Step 2 drained e → e.accepted ≡ 7 ∷ [])
    × (run_length drained_run ≤ 2)
    × (((drained.exited ≡ true) × (drained.delivered ≡ 7 ∷ []))
        ⊎ ((drained.exited ≡ false) × ((e : Channel ℕ) × LoopStep drained e)))
stop_drains_example = stop_drains 2 closed drained drained_run closed_reach refl refl

-- The world is a log of numbers.
abbrev note : ℕ → Handler (List ℕ) ℕ
note n msg log = (returned, log ++ (n ∷ []))

abbrev layer : ℕ → Middleware (List ℕ) ℕ
layer n = record { id = codes "layer"; wrap = λ inner msg log. inner msg (log ++ (n ∷ [])) }

abbrev bus : Plugin (List ℕ) ℕ
bus = record {
  queue_size = 2;
  middleware = layer 1 ∷ layer 2 ∷ [];
  inbound_handlers = [];
  outbound_handlers = [];
  started = false;
}

pipeline_order : (pipeline bus.middleware (note 3) 0 []).1 ≡ 1 ∷ 2 ∷ 3 ∷ []
pipeline_order = refl
