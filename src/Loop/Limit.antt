-- ===== src/Loop/Limit.antt =====
-- internal/domain/service/loop/loop.go: the message that is published when the iterations run out.
use whiteagent.Common.{
  Bool, true, false, Option, some, List, [], ◌∷◌, ◌++◌, All, Text, ok, is_empty, ◌≡◌,
}
use whiteagent.Entity.{Message, is_tool}
use whiteagent.Llm.{CompletionRequest, CompletionResponse}
use whiteagent.Prompt.{has_calls}
use whiteagent.Loop.{Given, State, Setting, limit_text}
use whiteagent.Loop.Recorded.{Traced, trace}
use whiteagent.Loop.Published.{Ended}
use whiteagent.Loop.History.{Saves}

-- A model that answers every request in time, by a call of tools, and prompts that can always be built.
pub record CallsOn {W : Type 0} (given : Given W) : Type 0 where
  pub prompts :
      (set : Setting) (up_to : Option Text) (w : W)
      → (p : List Message × Option Text) × ((given.build set up_to w).0 ≡ some p)
  pub replies :
      (req : CompletionRequest) (w : W)
      → (resp : CompletionResponse) × ((given.complete req w).0 ≡ ok resp)
        × (is_empty resp.tool_calls ≡ false)
  pub in_time : (w : W) → given.is_done w ≡ false

-- A history ends with a message that calls tools, and results of tools.
pub record EndsWith (saved : List Message) (last : Message) : Type 0 where
  pub earlier : List Message
  pub results : List Message
  pub parts : saved ≡ earlier ++ (last ∷ results)
  pub calls : has_calls last ≡ true
  pub are_results : All (λ r. is_tool r.role ≡ true) results

module _ {W : Type 0} (given : Given W) (set : Setting) (saves : Saves given)
    (on_and_on : CallsOn given) where
  abbrev S : Type 0
  S = State (Traced W)

  -- The content of the last message that calls tools.
  abbrev LastSaid : S → Text → Type 0
  LastSaid s text = (last : Message) × EndsWith (trace s).saved last × (last.content ≡ text)

  -- Publish was called once more, with the content of the last message and a note.
  abbrev Says : List (Message × Bool) → Ended given → Type 0
  Says before out =
      (m : Message) × (last : Message) × ((trace out.1).replies ≡ before ++ ((m, out.0) ∷ []))
      × EndsWith (trace out.1).saved last
      × (m.content ≡ limit_text last.content)
