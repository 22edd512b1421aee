-- ===== src/Prompt/Groups.antt =====
-- internal/domain/service/prompt/render.go: the groups of a history.
use whiteagent.Common.{
  ℕ, zero, suc, ◌≤◌, Bool, true, false, ◌&&◌, List, [], ◌∷◌, ◌++◌, Text, text_eq_refl, length,
  length-append, if◌then◌else◌, All, ◌≡◌, ◌⊎◌, inl, inr, refl, sym, ap, subst, ◌∙◌, arith,
}
use whiteagent.Entity.{Message, is_tool}
use whiteagent.Prompt.{
  MessageGroup, ungrouped, has_calls, call_ids, expects, without, answers, take_results, next_group,
  group_rounds, group_messages, flatten,
}

-- Each message is the result of a call that was open when its turn came.
abbrev pub Results : List Text → List Message → Type 0
Results expected [] = Unit
Results expected (m ∷ ms) =
    (is_tool m.role ≡ true)
    × (expects m.tool_call expected ≡ true)
    × Results (without m.tool_call expected) ms

-- A message that calls tools with results of its calls, or another message alone.
abbrev pub IsGroup : List Message → Type 0
IsGroup [] = ⊥
IsGroup (m ∷ ms) =
    ((has_calls m ≡ true) × Results (call_ids m.tool_calls) ms)
    ⊎ ((has_calls m ≡ false) × (ms ≡ []))

-- The calls that are left when results have answered some.
abbrev pub unanswered : List Text → List Message → List Text
unanswered expected [] = expected
unanswered expected (r ∷ rs) = unanswered (without r.tool_call expected) rs

-- A history does not go on with the result of an open call.
abbrev pub EndsHere : List Text → List Message → Type 0
EndsHere calls [] = Unit
EndsHere calls (m ∷ ms) = (is_tool m.role && expects m.tool_call calls) ≡ false

-- The calls of a group that have no result in it.
abbrev pub open_calls : List Message → List Text
open_calls [] = []
open_calls (m ∷ rs) = if has_calls m then unanswered (call_ids m.tool_calls) rs else []

-- No group could take in the message that follows it.
abbrev pub AreWhole : List MessageGroup → Type 0
AreWhole [] = Unit
AreWhole (g ∷ gs) = EndsHere (open_calls g.messages) (flatten gs) × AreWhole gs

EndsHere-none : (ms : List Message) → EndsHere [] ms
EndsHere-none [] = tt
EndsHere-none (m ∷ ms) = ground arith

record IsTaken (expected : List Text) (ms : List Message) (out : List Message × List Message)
    : Type 0 where
  parts : out.0 ++ out.1 ≡ ms
  results : Results expected out.0
  ends : EndsHere (unanswered expected out.0) out.1
  shorter : length out.1 ≤ length ms

take_results-IsTaken :
    (ms : List Message) (expected : List Text) → IsTaken expected ms (take_results expected ms)
unfolding take_results
take_results-IsTaken [] expected = record {
  parts = refl;
  results = tt;
  ends = tt;
  shorter = omega arith;
}
take_results-IsTaken (m ∷ ms) expected =
    by_answer (answers expected m) refl (take_results (without m.tool_call expected) ms)
      (take_results-IsTaken ms (without m.tool_call expected))
  where
    by_answer :
        (b : Bool)
        → answers expected m ≡ b
        → (out : List Message × List Message) → IsTaken (without m.tool_call expected) ms out
        → IsTaken expected (m ∷ ms) (if b then (m ∷ out.0, out.1) else ([], m ∷ ms))
    by_answer true is (taken, rest) later = record {
      parts = ap (λ l. m ∷ l) later.parts;
      results = (ground (arith, is), ground (arith, is), later.results);
      ends = later.ends;
      shorter = omega (arith, later.shorter);
    }
    by_answer false is out later = record {
      parts = refl;
      results = tt;
      ends = is;
      shorter = omega arith;
    }

record IsNext (m : Message) (ms : List Message) (out : List Message × List Message) : Type 0 where
  parts : out.0 ++ out.1 ≡ m ∷ ms
  group : IsGroup out.0
  ends : EndsHere (open_calls out.0) out.1
  shorter : length out.1 ≤ length ms

next_group-IsNext : (m : Message) (ms : List Message) → IsNext m ms (next_group m ms)
unfolding next_group
next_group-IsNext m ms = by_calls (has_calls m) refl
  where
    by_calls :
        (b : Bool)
        → has_calls m ≡ b
        → IsNext m ms (
            if b
            then (
              m ∷ (take_results (call_ids m.tool_calls) ms).0,
              (take_results (call_ids m.tool_calls) ms).1,
            )
            else (m ∷ [], ms))
    by_calls true is =
        let taken = take_results-IsTaken ms (call_ids m.tool_calls) in
        record {
          parts = ap (λ l. m ∷ l) taken.parts;
          group = inl (is, taken.results);
          ends = rw is taken.ends;
          shorter = taken.shorter;
        }
    by_calls false is = record {
      parts = refl;
      group = inr (is, refl);
      ends = rw is (EndsHere-none ms);
      shorter = omega arith;
    }

group_rounds_lem :
    (n : ℕ) (ms : List Message)
    → length ms ≤ n
    → (flatten (group_rounds n ms) ≡ ms)
      × All (λ g. IsGroup g.messages) (group_rounds n ms)
      × AreWhole (group_rounds n ms)
unfolding group_rounds
group_rounds_lem zero [] h = (refl, tt, tt)
group_rounds_lem zero (m ∷ ms) h = absurd (omega arith)
group_rounds_lem (suc n) [] h = (refl, tt, tt)
group_rounds_lem (suc n) (m ∷ ms) h =
    let next = next_group-IsNext m ms in
    let (parts, groups, whole) =
      group_rounds_lem n (next_group m ms).1 (omega (arith, next.shorter)) in
    (
      ap (λ l. (next_group m ms).0 ++ l) parts ∙ next.parts,
      (next.group, groups),
      (subst (EndsHere (open_calls (next_group m ms).0)) (sym parts) next.ends, whole),
    )

-- The groups of a history, one after the other, are the history. Each of them is a message that calls
-- tools, with results of its own calls, each call answered at most once, or any other message alone; and
-- it is as long as it can be: what follows a group is not the result of one of its calls that has none in
-- it.
pub group_messages_lem :
    (msgs : List Message)
    → (flatten (group_messages msgs) ≡ msgs)
      × All (λ g. IsGroup g.messages) (group_messages msgs)
      × AreWhole (group_messages msgs)
unfolding group_messages
group_messages_lem msgs = group_rounds_lem (length msgs) msgs (omega arith)

-- All calls answered, one result for each, in the order of the calls.
abbrev pub AllAnswered : List Text → List Message → Type 0
AllAnswered [] [] = Unit
AllAnswered (i ∷ is) (r ∷ rs) =
    (is_tool r.role ≡ true) × (r.tool_call ≡ i) × (expects i is ≡ false) × AllAnswered is rs
AllAnswered _ _ = ⊥

-- What one round of the agent leaves in the history: a message without calls that is no result, or one with
-- calls, all of which are answered.
abbrev pub IsRound : List Message → Type 0
IsRound [] = ⊥
IsRound (m ∷ rs) =
    ((is_tool m.role ≡ false) × (has_calls m ≡ false) × (rs ≡ []))
    ⊎ ((has_calls m ≡ true) × AllAnswered (call_ids m.tool_calls) rs)

abbrev pub joined : List (List Message) → List Message
joined [] = []
joined (r ∷ rs) = r ++ joined rs

abbrev pub ungrouped_all : List (List Message) → List MessageGroup
ungrouped_all [] = []
ungrouped_all (r ∷ rs) = ungrouped r ∷ ungrouped_all rs

without-fresh : (i : Text) (is : List Text) → expects i is ≡ false → without i is ≡ is
without-fresh i [] h = refl
without-fresh i (j ∷ js) h = ground (arith, without-fresh i js)

without_self : (i : Text) (is : List Text) → expects i is ≡ false → without i (i ∷ is) ≡ is
without_self i is h = rw (text_eq_refl i) (without-fresh i is h)

take_results-none : (ms : List Message) → take_results [] ms ≡ ([], ms)
unfolding take_results
take_results-none [] = refl
take_results-none (m ∷ ms) = ground arith

take_results-answer :
    (e : List Text) (m : Message) (ms taken rest : List Message)
    → answers e m ≡ true
    → take_results (without m.tool_call e) ms ≡ (taken, rest)
    → take_results e (m ∷ ms) ≡ (m ∷ taken, rest)
unfolding take_results
take_results-answer e m ms taken rest is later = rw is (rw later refl)

take_results-AllAnswered :
    (is : List Text) (rs ms : List Message)
    → AllAnswered is rs
    → take_results is (rs ++ ms) ≡ (rs, ms)
take_results-AllAnswered [] [] ms h = take_results-none ms
take_results-AllAnswered [] (r ∷ rs) ms h = absurd h
take_results-AllAnswered (i ∷ is) [] ms h = absurd h
take_results-AllAnswered (i ∷ is) (r ∷ rs) ms (role, same, fresh, more) =
    take_results-answer (i ∷ is) r (rs ++ ms) rs ms (rw (role, same, text_eq_refl i) refl) (
      subst (λ e. take_results e (rs ++ ms) ≡ (rs, ms)) (sym only_self)
        (take_results-AllAnswered is rs ms more))
  where
    only_self : without r.tool_call (i ∷ is) ≡ is
    only_self = ap (λ k. without k (i ∷ is)) same ∙ without_self i is fresh

next_group-IsRound :
    (m : Message) (rs ms : List Message) → IsRound (m ∷ rs) → next_group m (rs ++ ms) ≡ (m ∷ rs, ms)
unfolding next_group
next_group-IsRound m rs ms (inl (no_result, plain, alone)) = rw (plain, alone) refl
next_group-IsRound m rs ms (inr (calls, all)) =
    rw calls (rw (take_results-AllAnswered (call_ids m.tool_calls) rs ms all) refl)

rounds-group_rounds :
    (rounds : List (List Message)) (n : ℕ)
    → All IsRound rounds
    → length (joined rounds) ≤ n
    → group_rounds n (joined rounds) ≡ ungrouped_all rounds
unfolding group_rounds
rounds-group_rounds [] zero whole fits = refl
rounds-group_rounds [] (suc n) whole fits = refl
rounds-group_rounds ([] ∷ rounds) n (one, whole) fits = absurd one
rounds-group_rounds ((m ∷ rs) ∷ rounds) zero (one, whole) fits = absurd (omega arith)
rounds-group_rounds ((m ∷ rs) ∷ rounds) (suc n) (one, whole) fits =
    rw (next_group-IsRound m rs (joined rounds) one) (
      ap (λ gs. ungrouped (m ∷ rs) ∷ gs)
        (rounds-group_rounds rounds n whole (omega (arith, length-append rs (joined rounds)))))

-- A history that consists of rounds, each of them a message without calls, which is no result, or a
-- message with calls and one result for each of its calls, in order, is grouped into these rounds.
pub group_messages-joined :
    (rounds : List (List Message))
    → All IsRound rounds
    → group_messages (joined rounds) ≡ ungrouped_all rounds
unfolding group_messages
group_messages-joined rounds whole =
    rounds-group_rounds rounds (length (joined rounds)) whole (omega arith)
