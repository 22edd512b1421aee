-- ===== src/Bus/Order.antt =====
-- pkg/plugins/transport/memory/plugin.go: the order in which a topic's messages are delivered.
use whiteagent.Common.{
  ℕ, ◌≤◌, true, [], ◌∷◌, ◌++◌, length, length-append, append_assoc, append-nil, ◌≡◌, refl, sym, ap,
  ◌∙◌, arith,
}
use whiteagent.Bus.Channels.{
  Channel, LoopStep, deliver, exit, Step, check, send, send_closed, cancel, set_stopped, close,
  loop, Reach, start, later,
}

module _ {Message : Type 0} where
  -- What was accepted has been delivered or waits in the channel, in the order of the sends.
  pub record IsOrdered (size : ℕ) (c : Channel Message) : Type 0 where
    pub in_order : c.accepted ≡ c.delivered ++ c.queue
    pub bounded : length c.queue ≤ size
    pub closing : c.closed ≡ true → c.stopped ≡ true
    pub ended : c.exited ≡ true → (c.closed ≡ true) × (c.queue ≡ [])

  LoopStep-IsOrdered :
      {size : ℕ} {c d : Channel Message} → LoopStep c d → IsOrdered size c → IsOrdered size d
  LoopStep-IsOrdered (deliver c msg rest on e) o = record {
    in_order =
        o.in_order ∙ ap (λ q. c.delivered ++ q) e ∙ sym (append_assoc c.delivered (msg ∷ []) rest);
    bounded = omega (arith, o.bounded, ap length e);
    closing = o.closing;
    ended = λ h. absurd (ground (arith, on, h));
  }
  LoopStep-IsOrdered (exit c on closed empty) o = record {
    in_order = o.in_order;
    bounded = o.bounded;
    closing = o.closing;
    ended = λ h. (closed, empty);
  }

  pub Step-IsOrdered :
      {size : ℕ} {c d : Channel Message} → Step size c d → IsOrdered size c → IsOrdered size d
  Step-IsOrdered (check c msg h) o = record {
    in_order = o.in_order;
    bounded = o.bounded;
    closing = o.closing;
    ended = o.ended;
  }
  Step-IsOrdered (send c before msg after at open_ room) o = record {
    in_order = ap (λ l. l ++ (msg ∷ [])) o.in_order ∙ append_assoc c.delivered c.queue (msg ∷ []);
    bounded = omega (arith, length-append c.queue (msg ∷ []), room);
    closing = o.closing;
    ended = λ h. absurd (ground (arith, open_, (o.ended h).0));
  }
  Step-IsOrdered (send_closed c before msg after at closed) o = record {
    in_order = o.in_order;
    bounded = o.bounded;
    closing = o.closing;
    ended = o.ended;
  }
  Step-IsOrdered (cancel c before msg after at) o = record {
    in_order = o.in_order;
    bounded = o.bounded;
    closing = o.closing;
    ended = o.ended;
  }
  Step-IsOrdered (set_stopped c h) o = record {
    in_order = o.in_order;
    bounded = o.bounded;
    closing = λ h'. refl;
    ended = o.ended;
  }
  Step-IsOrdered (close c h h') o = record {
    in_order = o.in_order;
    bounded = o.bounded;
    closing = λ e. h;
    ended = λ e. (refl, (o.ended e).1);
  }
  Step-IsOrdered (loop st) o = LoopStep-IsOrdered st o

  pub Reach-IsOrdered : {size : ℕ} {c : Channel Message} → Reach size c → IsOrdered size c
  Reach-IsOrdered start = record {
    in_order = refl;
    bounded = omega arith;
    closing = λ h. cc;
    ended = λ h. cc;
  }
  Reach-IsOrdered (later r st) = Step-IsOrdered st (Reach-IsOrdered r)

-- However the goroutines interleave, the messages that a topic has delivered and those that wait in its
-- channel are together the ones that were accepted, in the order in which they were accepted, each once;
-- at most `size` of them wait; and once the dispatch loop has ended, none waits.
pub publish_order :
    {Message : Type 0} (size : ℕ) (c : Channel Message)
    → Reach size c
    → (c.accepted ≡ c.delivered ++ c.queue)
      × (length c.queue ≤ size)
      × (c.exited ≡ true → c.accepted ≡ c.delivered)
publish_order size c r =
    let o = Reach-IsOrdered r in
    (
      o.in_order,
      o.bounded,
      λ h. o.in_order ∙ ap (λ q. c.delivered ++ q) (o.ended h).1 ∙ append-nil c.delivered,
    )
