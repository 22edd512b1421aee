-- ===== src/Bus/Drain.antt =====
-- pkg/plugins/transport/memory/plugin.go: `Stop`, and the publishers that are under way.
use whiteagent.Common.{
  ℕ, suc, ◌+◌, ◌≤◌, true, false, Bool-cases, List, [], ◌∷◌, if◌then◌else◌, length, ◌≡◌, ◌⊎◌, inl,
  inr, refl, sym, ◌∙◌, arith,
}
use whiteagent.Bus.Channels.{
  Channel, LoopStep, deliver, exit, LoopRun, still, next, Step, check, send, send_closed, cancel,
  set_stopped, close, loop, Reach, later,
}
use whiteagent.Bus.Order.{publish_order, Reach-IsOrdered}

module _ {Message : Type 0} where
  closed_accepts :
      {size : ℕ} {c d : Channel Message} → Step size c d → c.closed ≡ true → d.accepted ≡ c.accepted
  closed_accepts (check c msg h) closed = refl
  closed_accepts (send c before msg after at open_ room) closed =
      absurd (ground (arith, open_, closed))
  closed_accepts (send_closed c before msg after at h) closed = refl
  closed_accepts (cancel c before msg after at) closed = refl
  closed_accepts (set_stopped c h) closed = refl
  closed_accepts (close c h h') closed = refl
  closed_accepts (loop (deliver c msg rest on e)) closed = refl
  closed_accepts (loop (exit c on h e)) closed = refl

  LoopStep-closed : {c d : Channel Message} → LoopStep c d → d.closed ≡ c.closed
  LoopStep-closed (deliver c msg rest on e) = refl
  LoopStep-closed (exit c on h e) = refl

  -- What is left for the loop to do: the messages that wait, and its end.
  abbrev left : Channel Message → ℕ
  left c = (if c.exited then 0 else 1) + length c.queue

  LoopStep-left : {c d : Channel Message} → LoopStep c d → suc (left d) ≡ left c
  LoopStep-left (deliver c msg rest on e) = rw (on, e) (omega arith)
  LoopStep-left (exit c on h e) = rw (on, e) (omega arith)

  abbrev pub run_length : {c d : Channel Message} → LoopRun c d → ℕ
  run_length still = 0
  run_length (next r st) = suc (run_length r)

  LoopRun-left : {c d : Channel Message} → (r : LoopRun c d) → run_length r + left d ≡ left c
  LoopRun-left still = omega arith
  LoopRun-left (next r st) = omega (arith, LoopRun-left r, LoopStep-left st)

  LoopRun-closed : {c d : Channel Message} → LoopRun c d → d.closed ≡ c.closed
  LoopRun-closed still = refl
  LoopRun-closed (next r st) = LoopStep-closed st ∙ LoopRun-closed r

  LoopRun-accepted :
      {c d : Channel Message} → (size : ℕ) → LoopRun c d → c.closed ≡ true → d.accepted ≡ c.accepted
  LoopRun-accepted size still closed = refl
  LoopRun-accepted size (next r st) closed =
      closed_accepts {size = size} (loop st) (LoopRun-closed r ∙ closed)
      ∙ LoopRun-accepted size r closed

  LoopRun-Reach : {size : ℕ} {c d : Channel Message} → Reach size c → LoopRun c d → Reach size d
  LoopRun-Reach reach still = reach
  LoopRun-Reach reach (next r st) = later (LoopRun-Reach reach r) (loop st)

  -- On a closed channel the loop can always go on until its end.
  goes_on :
      (d : Channel Message) (queue : List Message)
      → d.queue ≡ queue
      → d.closed ≡ true
      → d.exited ≡ false
      → (e : Channel Message) × LoopStep d e
  goes_on d [] is closed on = (_, exit d on closed is)
  goes_on d (msg ∷ rest) is closed on = (_, deliver d msg rest on is)

-- Once `Stop` has closed the channel, nothing more is accepted, and however the dispatch loop runs on by
-- itself, it makes at most one step for each message that waits and one to end. Until it has ended it can
-- make another step; and when it has ended, every message that was ever accepted was delivered, in order.
pub stop_drains :
    {Message : Type 0} (size : ℕ) (c d : Channel Message) (run : LoopRun c d)
    → Reach size c
    → c.closed ≡ true
    → c.exited ≡ false
    → ((e : Channel Message) → Step size d e → e.accepted ≡ c.accepted)
      × (run_length run ≤ suc (length c.queue))
      × (((d.exited ≡ true) × (d.delivered ≡ c.accepted))
          ⊎ ((d.exited ≡ false) × ((e : Channel Message) × LoopStep d e)))
stop_drains size c d run r closed on =
    let same = LoopRun-accepted size run closed in
    let shut = LoopRun-closed run ∙ closed in
    (
      λ e st. closed_accepts st shut ∙ same,
      ground (arith, LoopRun-left run, on),
      elim (Bool-cases d.exited) [
        | inl ended ↦ inl (ended, sym ((publish_order size d (LoopRun-Reach r run)).2 ended) ∙ same)
        | inr goes ↦ inr (goes, goes_on d d.queue refl shut goes)
      ],
    )

-- A channel that is not stopped is not closed.
running-open :
    {Message : Type 0} {size : ℕ} (c : Channel Message)
    → Reach size c
    → c.stopped ≡ false
    → c.closed ≡ false
running-open c r running = elim (Bool-cases c.closed) [
  | inl closed ↦ absurd (ground (arith, (Reach-IsOrdered r).closing closed, running))
  | inr open_ ↦ open_
]

-- From every state in which `Stop` was not called yet, these steps can follow one another: a publisher
-- passes the test of `stopped`; `Stop` sets the flag, and closes the channel; and the publisher sends its
-- message, which is a panic, and nothing is accepted.
pub publish_race :
    {Message : Type 0} (size : ℕ) (c : Channel Message) (msg : Message)
    → Reach size c
    → c.stopped ≡ false
    → let passed : Channel Message = record c { waiting = msg ∷ c.waiting } in
      let stopping : Channel Message = record passed { stopped = true } in
      let shut : Channel Message = record stopping { closed = true } in
      let after : Channel Message = record shut { waiting = c.waiting; crashed = true } in
      Step size c passed
      × Step size passed stopping
      × Step size stopping shut
      × Step size shut after
      × (after.accepted ≡ c.accepted)
publish_race size c msg r running =
    let passed : Channel _ = record c { waiting = msg ∷ c.waiting } in
    let stopping : Channel _ = record passed { stopped = true } in
    (
      check c msg running,
      set_stopped passed running,
      close stopping refl (running-open c r running),
      send_closed (record stopping { closed = true }) [] msg c.waiting refl refl,
      refl,
    )
