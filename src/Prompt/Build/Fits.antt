-- ===== src/Prompt/Build/Fits.antt =====
-- internal/domain/service/prompt/prompt.go: what `Build` sends, and that it fits in the budget.
use whiteagent.Common.{
  false, ℕ, zero, suc, ◌+◌, ◌-◌, ◌≤◌, ◌<◌, ◌==◌, Bool-cases, Option, none, some, List, [], ◌∷◌,
  ◌++◌, append-nil, append_assoc, Text, is_empty, All, All-suffix, ◌≡◌, ◌⊎◌, inl, inr, refl, sym,
  ap, ◌∙◌, subst, arith,
}
use whiteagent.Entity.{Message, system, bare}
use whiteagent.Prompt.{
  Format, MessageGroup, count, count_prompt_footprint, encoded, enrich_messages, messages_path,
  flatten, group_messages, count_groups, window_history_with_budget,
}
use whiteagent.Prompt.System.{Input, render_system}
use whiteagent.Prompt.Build.{
  tenant_of, flat, latest_summary_message_id, fetch_latest_summary, Builder, Summary, is_covered,
  without_covered, trim_history_after_summary, compacted_msgs, windowed, fetched, fetch, assembled,
  memory_of, build,
}
use whiteagent.Prompt.Groups.{group_messages_lem}
use whiteagent.Prompt.Window.{IsWindow, window_history_lem}
use whiteagent.Prompt.Footprint.{IsCounted, window_footprint, window_history-zero}

module _ (P : Message → Type 0) where
  without_covered-All :
      (latest : Text) (ms : List Message) → All P ms → All P (without_covered latest ms)
  unfolding without_covered
  without_covered-All latest [] all = tt
  without_covered-All latest (m ∷ ms) (p, all) = elim (Bool-cases (is_covered latest m)) [
    | inl old ↦ rw old (without_covered-All latest ms all)
    | inr new ↦ rw new (p, without_covered-All latest ms all)
  ]

  trim_history-All :
      (ms : List Message) (latest : Text) → All P ms → All P (trim_history_after_summary ms latest)
  unfolding trim_history_after_summary
  trim_history-All ms [] all = all
  trim_history-All ms (b ∷ id) all = without_covered-All (b ∷ id) ms all

flatten-append : (gs hs : List MessageGroup) → flatten (gs ++ hs) ≡ flatten gs ++ flatten hs
flatten-append [] hs = refl
flatten-append (g ∷ gs) hs =
    ap (λ l. g.messages ++ l) (flatten-append gs hs)
    ∙ sym (append_assoc g.messages (flatten gs) (flatten hs))

module _ (format : Format) where
  flatten-count_groups : (gs : List MessageGroup) → flatten (count_groups format gs) ≡ flatten gs
  unfolding count_groups
  flatten-count_groups [] = refl
  flatten-count_groups (g ∷ gs) = ap (λ l. g.messages ++ l) (flatten-count_groups gs)

  -- A window is an end of its history.
  window_history-suffix :
      (ms : List Message) (n : ℕ)
      → (old : List Message) × (ms ≡ old ++ window_history_with_budget format ms n)
  window_history-suffix ms zero =
      (ms, sym (ap (λ l. ms ++ l) (window_history-zero format ms) ∙ append-nil ms))
  window_history-suffix ms (suc n) =
      let w = window_history_lem format ms (suc n) (omega arith) in
      (
        flatten w.older,
        sym (group_messages_lem ms).0
            ∙ sym (flatten-count_groups (group_messages ms))
            ∙ ap flatten w.parts
            ∙ flatten-append w.older w.newer
            ∙ ap (λ l. flatten w.older ++ l) (sym w.result),
      )

  footprint-append :
      (xs ys : List Message)
      → count_prompt_footprint format (xs ++ ys)
        ≡ count_prompt_footprint format xs + count_prompt_footprint format ys
  unfolding count_prompt_footprint
  footprint-append [] ys = omega arith
  footprint-append (x ∷ xs) ys = omega (arith, footprint-append xs ys)

  footprint-system :
      (prompt : Text) (ms : List Message)
      → count_prompt_footprint format (bare system prompt ∷ ms)
        ≡ count prompt + count_prompt_footprint format ms
  unfolding count_prompt_footprint encoded
  footprint-system prompt ms =
      ap (λ t. count t + count_prompt_footprint format ms) (append-nil prompt)

abbrev pub IsSystem : Message → Type 0
IsSystem m = m.role ≡ system

compacted_msgs-IsSystem :
    (format : Format) (conv : Text) (latest : Option Summary)
    → All IsSystem (compacted_msgs format conv latest)
unfolding compacted_msgs
compacted_msgs-IsSystem format conv none = tt
compacted_msgs-IsSystem format conv (some s) = (refl, tt)

-- A prompt: system messages, and then, with context blocks, the newest groups of a history that fit in what
-- the system messages leave of the budget; without the names of users all of it fits.
pub record Fits {W : Type 0} (b : Builder W) (format : Format) (history messages : List Message)
    : Type 0 where
  pub front : List Message
  pub window : List Message
  pub names : List (Text × Text)
  pub parts : messages ≡ front ++ enrich_messages format window names b.messages_path
  pub systems : All IsSystem front
  pub fits :
      ((b.budget ≤ count_prompt_footprint format front) × (window ≡ []))
      ⊎ ((count_prompt_footprint format front < b.budget)
          × IsWindow
              (b.budget - count_prompt_footprint format front)
              (count_groups format (group_messages history))
              window
          × (count_prompt_footprint format (front ++ enrich_messages format window [] messages_path)
              ≤ b.budget))

-- What the store has: the history of the conversation, and its latest summary.
pub record Stores {W : Type 0} (b : Builder W) (input : Input) (history : List Message)
    (latest : Option Summary) : Type 0 where
  pub get : Text → Option Text → W → Option (List Message) × W
  pub get_latest : Text → Text → W → Option (Option Summary) × W
  pub reads : b.get_history ≡ some get
  pub reads_latest : b.get_summary ≡ some get_latest
  pub found : (w : W) → (get input.conversation input.up_to w).0 ≡ some history
  pub found_latest : (w : W) → (get_latest input.msg.tenant input.conversation w).0 ≡ some latest

-- What the latest summary does not cover.
abbrev pub rest_of : List Message → Option Summary → List Message
rest_of history none = history
rest_of history (some s) = trim_history_after_summary history s.message_id

module _ {W : Type 0} (b : Builder W) (input : Input) (named : is_empty input.conversation ≡ false)
    (owned : is_empty input.msg.tenant ≡ false) (history : List Message) (latest : Option Summary)
    (stores : Stores b input history latest) where
  latest-found :
      (w : W)
      → (fetch_latest_summary b.get_summary (tenant_of input) input.conversation w).0 ≡ latest
  unfolding fetch_latest_summary
  latest-found w =
      rw (stores.reads_latest, owned) (rw (owned, named) (ap flat (stores.found_latest w)))

  trimmed :
      (o : Option Summary)
      → trim_history_after_summary history (latest_summary_message_id o) ≡ rest_of history o
  unfolding trim_history_after_summary
  trimmed none = refl
  trimmed (some s) = refl

  fetched-found :
      (found : Option (List Message)) (w : W)
      → found ≡ some history
      → (fetched b found input w).0 ≡ some (rest_of history latest, latest)
  unfolding fetched
  fetched-found none w is = cc
  fetched-found (some ms) w is =
      let same : history ≡ ms = cc in
      ap (λ o. some (trim_history_after_summary ms (latest_summary_message_id o), o))
        (latest-found w)
      ∙ ap (λ h. some (trim_history_after_summary h (latest_summary_message_id latest), latest))
          (sym same)
      ∙ ap (λ h. some (h, latest)) (trimmed latest)

  fetch-found : (w : W) → (fetch b b.get_history input w).0 ≡ some (rest_of history latest, latest)
  unfolding fetch
  fetch-found w = rw stores.reads (
      rw named (
        fetched-found (stores.get input.conversation input.up_to w).0
          (stores.get input.conversation input.up_to w).1 (stores.found w)))

rest_of-All :
    (P : Message → Type 0) (history : List Message) (latest : Option Summary)
    → All P history
    → All P (rest_of history latest)
rest_of-All P history none all = all
rest_of-All P history (some s) all = trim_history-All P history s.message_id all

module _ {W : Type 0} (b : Builder W) (format : Format) where
  windowed-fits :
      (front history : List Message) (s t : ℕ)
      → 0 < b.budget
      → All IsCounted history
      → count_prompt_footprint format front ≡ s + t
      → let window = windowed b format s t history in
        ((b.budget ≤ count_prompt_footprint format front) × (window ≡ []))
        ⊎ ((count_prompt_footprint format front < b.budget)
            × IsWindow
                (b.budget - count_prompt_footprint format front)
                (count_groups format (group_messages history))
                window
            × (count_prompt_footprint format
                  (front ++ enrich_messages format window [] messages_path)
                ≤ b.budget))
  unfolding windowed
  windowed-fits front history s t some_budget counted size =
      let budget : (b.budget == 0) ≡ false = ground arith in
      let left : b.budget - s - t ≡ b.budget - count_prompt_footprint format front = omega arith in
      rw budget (rw left (by_rest (b.budget - count_prompt_footprint format front) refl))
    where
      by_rest :
          (n : ℕ)
          → b.budget - count_prompt_footprint format front ≡ n
          → ((b.budget ≤ count_prompt_footprint format front)
              × (window_history_with_budget format history n ≡ []))
            ⊎ ((count_prompt_footprint format front < b.budget)
                × IsWindow n
                    (count_groups format (group_messages history))
                    (window_history_with_budget format history n)
                × (count_prompt_footprint format (
                      front
                      ++ enrich_messages format
                          (window_history_with_budget format history n)
                          []
                          messages_path)
                    ≤ b.budget))
      by_rest zero is = inl (omega arith, window_history-zero format history)
      by_rest (suc n) is =
          let window = window_history_with_budget format history (suc n) in
          let (old, parts) = window_history-suffix format history (suc n) in
          let kept = All-suffix IsCounted old window (subst (All IsCounted) parts counted) in
          inr (
            omega arith,
            window_history_lem format history (suc n) (omega arith),
            omega (
              arith,
              window_footprint format history (suc n) kept,
              footprint-append format front (enrich_messages format window [] messages_path),
            ),
          )

  assembled-Fits :
      (input : Input) (prompt : Text) (history : List Message) (latest : Option Summary) (w : W)
      → 0 < b.budget
      → All IsCounted history
      → (messages : List Message) × (signal : Option Text) × ((assembled b format input prompt
            (some (history, latest))
            w).0
          ≡ some (messages, signal))
        × Fits b format history messages
  unfolding assembled
  assembled-Fits input prompt history latest w some_budget counted =
      let compacted = compacted_msgs format input.conversation latest in
      (
        _,
        _,
        refl,
        record {
          front = bare system prompt ∷ compacted;
          window =
              windowed b format (count prompt) (count_prompt_footprint format compacted) history;
          names = _;
          parts = refl;
          systems = (refl, compacted_msgs-IsSystem format input.conversation latest);
          fits =
              windowed-fits (bare system prompt ∷ compacted) history (count prompt)
                (count_prompt_footprint format compacted) some_budget counted
                (footprint-system format prompt compacted);
        },
      )

  -- With a budget above 0, and a store that has the history of the conversation and its latest summary,
  -- `Build` gives system messages, and then, with context blocks, the newest whole groups of what the
  -- summary does not cover, as many as fit in what the system messages leave of the budget. Without the
  -- names of users all of it fits in the budget, with tool calls and the blocks of attachments as under
  -- the usual path; if the system messages leave nothing, no history is sent. Evicted messages of the
  -- history call no tools, and the conversation and the message's tenant have identifiers.
  pub build-Fits :
      (input : Input) (history : List Message) (latest : Option Summary) (w : W)
      → 0 < b.budget
      → is_empty input.conversation ≡ false
      → is_empty input.msg.tenant ≡ false
      → Stores b input history latest
      → All IsCounted history
      → (messages : List Message) × (signal : Option Text) × ((build b format input w).0
          ≡ some (messages, signal))
        × Fits b format (rest_of history latest) messages
  unfolding build
  build-Fits input history latest w some_budget named owned stores counted =
      let (memory, w1) = memory_of b.get_memory input w in
      let (prompt, w2) = render_system b.renderer input memory w1 in
      let is = fetch-found b input named owned history latest stores w2 in
      let w3 = (fetch b b.get_history input w2).1 in
      let (messages, signal, sent, fits) =
        assembled-Fits input prompt (rest_of history latest) latest w3 some_budget
          (rest_of-All IsCounted history latest counted) in
      (messages, signal, ap (λ f. (assembled b format input prompt f w3).0) is ∙ sent, fits)
