-- ===== src/Prompt/Build/Cut.antt =====
-- internal/domain/service/prompt/prompt.go: the history after a summary, and the round that it ends in.
use whiteagent.Common.{
  true, false, List, [], ◌∷◌, ◌++◌, Text, text_le, text_le_refl, is_empty, All, ◌≡◌, refl, ap, ◌∙◌,
  arith,
}
use whiteagent.Entity.{Message, tool}
use whiteagent.Prompt.{group_messages, group_rounds, next_group, has_calls, ungrouped}
use whiteagent.Prompt.Build.{is_covered, without_covered, trim_history_after_summary}

-- The messages of a history before and after one of its messages, by their identifiers.
abbrev pub IsBefore : Text → Message → Type 0
IsBefore id m = text_le m.id id ≡ true

abbrev pub IsAfter : Text → Message → Type 0
IsAfter id m = (is_empty m.id ≡ false) × (text_le m.id id ≡ false)

without_covered-before :
    (id : Text) (old rest : List Message)
    → All (IsBefore id) old
    → without_covered id (old ++ rest) ≡ without_covered id rest
unfolding without_covered
without_covered-before id [] rest before = refl
without_covered-before id (m ∷ old) rest (le, before) =
    let covered : is_covered id m ≡ true = ground (arith, le) in
    rw covered (without_covered-before id old rest before)

without_covered-after :
    (id : Text) (ms : List Message) → All (IsAfter id) ms → without_covered id ms ≡ ms
unfolding without_covered
without_covered-after id [] after = refl
without_covered-after id (m ∷ ms) ((named, gt), after) =
    let new : is_covered id m ≡ false = ground (arith, named, gt) in
    rw new (ap (λ l. m ∷ l) (without_covered-after id ms after))

-- What is left of a history after a summary is exactly what comes after the last message that it covers.
pub trim_history-rest :
    (old : List Message) (m : Message) (rest : List Message)
    → is_empty m.id ≡ false
    → All (IsBefore m.id) old
    → All (IsAfter m.id) rest
    → trim_history_after_summary (old ++ (m ∷ rest)) m.id ≡ rest
unfolding trim_history_after_summary without_covered
trim_history-rest old m rest named before after =
    let covered : is_covered m.id m ≡ true = ground (arith, text_le_refl m.id) in
    rw named (
      without_covered-before m.id old (m ∷ rest) before
      ∙ rw covered (without_covered-after m.id rest after))

result-no_calls : (r : Message) → r.role ≡ tool → has_calls r ≡ false
result-no_calls r is = rw is refl

group_messages-result :
    (r : Message) (rest : List Message)
    → r.role ≡ tool
    → group_messages (r ∷ rest) ≡ ungrouped (r ∷ []) ∷ group_messages rest
unfolding group_messages group_rounds next_group
group_messages-result r rest is = rw (result-no_calls r is) refl

-- When the last message that a summary covers is followed by the result of a tool, what is left of the
-- history begins with that result, in a group of its own: the message that called the tool is not sent with
-- it. The message has an identifier, and the others are before and after it by theirs.
pub group_messages-cut :
    (old : List Message) (m r : Message) (rest : List Message)
    → is_empty m.id ≡ false
    → All (IsBefore m.id) old
    → All (IsAfter m.id) (r ∷ rest)
    → r.role ≡ tool
    → group_messages (trim_history_after_summary (old ++ (m ∷ r ∷ rest)) m.id)
      ≡ ungrouped (r ∷ []) ∷ group_messages rest
group_messages-cut old m r rest named before after result =
    ap group_messages (trim_history-rest old m (r ∷ rest) named before after)
    ∙ group_messages-result r rest result
