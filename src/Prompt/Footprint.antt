-- ===== src/Prompt/Footprint.antt =====
-- internal/domain/service/prompt: how many tokens the enriched messages of a window have.
use whiteagent.Common.{
  ℕ, zero, suc, ◌+◌, ◌≤◌, Bool, true, false, List, [], ◌∷◌, ◌++◌, append-nil, Text, length,
  length-append, All, All-suffix, ◌≡◌, ◌⊎◌, inl, inr, refl, sym, ap, ◌∙◌, subst, arith,
}
use whiteagent.Entity.{Message}
use whiteagent.Prompt.{
  Format, MessageGroup, count, count_bytes, has_calls, is_silent, gets_block, flatten,
  build_context_block, with_block, rendered_tokens, encoded, enrich_message, enrich_messages,
  messages_path, message_tokens, count_tokens, count_group_tokens, count_groups,
  count_prompt_footprint, group_messages, window_history_with_budget,
}
use whiteagent.Prompt.Window.{tokens_of, IsWindow, window_history_lem}

count_bytes_mono : (a b : ℕ) → a ≤ b → count_bytes a ≤ count_bytes b
count_bytes_mono a b h = ground arith

-- An evicted message that still calls tools: its calls are sent, and not counted in the window.
abbrev pub IsCounted : Message → Type 0
IsCounted m = (m.evicted ≡ false) ⊎ (has_calls m ≡ false)

count_mono : (s t : Text) → length s ≤ length t → count s ≤ count t
count_mono s t h = count_bytes_mono (length s) (length t) h

longer : (s t u : Text) → length (t ++ u) ≤ length ((s ++ t) ++ u)
longer s t u =
    omega (arith, length-append {0} t u, length-append {0} (s ++ t) u, length-append {0} s t)

module _ (format : Format) where
  encoded-none : (m : Message) → has_calls m ≡ false → encoded format m ≡ []
  unfolding encoded
  encoded-none m h = rw h refl

  -- A text is sent with the calls of its message.
  abbrev sent : Message → ℕ
  sent m = count (m.content ++ encoded format m)

  with_block-tokens :
      (evicted silent gets : Bool) (block : Text) (m : Message)
      → (evicted ≡ false) ⊎ (has_calls m ≡ false)
      → sent (with_block evicted silent gets block m)
        ≤ rendered_tokens format evicted silent block m
  unfolding with_block rendered_tokens encoded
  with_block-tokens true silent gets block m (inl live) = cc
  with_block-tokens true true gets block m (inr plain) = rw plain (omega arith)
  with_block-tokens true false gets block m (inr plain) =
      rw plain (rw (append-nil block) (omega arith))
  with_block-tokens false silent true block m counted = omega arith
  with_block-tokens false silent false block m counted =
      count_mono (m.content ++ encoded format m) ((block ++ m.content) ++ encoded format m)
        (longer block m.content (encoded format m))

  enriched-tokens :
      (ms : List Message)
      → All IsCounted ms
      → count_prompt_footprint format (enrich_messages format ms [] messages_path)
        ≤ count_tokens format ms
  unfolding count_prompt_footprint enrich_messages enrich_message count_tokens message_tokens
  enriched-tokens [] counted = omega arith
  enriched-tokens (m ∷ ms) (one, counted) =
      let block = build_context_block format m [] messages_path in
      omega (
        arith,
        with_block-tokens m.evicted (is_silent m) (gets_block m) block m one,
        enriched-tokens ms counted,
      )

  count_tokens-append :
      (ms ns : List Message)
      → count_tokens format (ms ++ ns) ≡ count_tokens format ms + count_tokens format ns
  unfolding count_tokens
  count_tokens-append [] ns = omega arith
  count_tokens-append (m ∷ ms) ns = omega (arith, count_tokens-append ms ns)

  abbrev IsPriced : MessageGroup → Type 0
  IsPriced g = g.tokens ≡ count_tokens format g.messages

  count_groups-IsPriced : (gs : List MessageGroup) → All IsPriced (count_groups format gs)
  unfolding count_groups count_group_tokens
  count_groups-IsPriced [] = tt
  count_groups-IsPriced (g ∷ gs) = (refl, count_groups-IsPriced gs)

  flatten-tokens :
      (gs : List MessageGroup) → All IsPriced gs → count_tokens format (flatten gs) ≡ tokens_of gs
  flatten-tokens [] priced = unfold count_tokens in refl
  flatten-tokens (g ∷ gs) (is, priced) =
      count_tokens-append g.messages (flatten gs) ∙ omega (arith, flatten-tokens gs priced)

  window-tokens :
      (groups : List MessageGroup) (budget : ℕ) (window : List Message)
      → All IsPriced groups
      → (w : IsWindow budget groups window) → count_tokens format window ≡ tokens_of w.newer
  window-tokens groups budget window priced w =
      ap (count_tokens format) w.result
      ∙ flatten-tokens w.newer
          (All-suffix IsPriced w.older w.newer (subst (All IsPriced) w.parts priced))

  pub window_history-zero :
      (history : List Message) → window_history_with_budget format history 0 ≡ []
  unfolding window_history_with_budget
  window_history-zero [] = refl
  window_history-zero (m ∷ ms) = refl

-- Where no user's name is known and attachments lie under the usual path, the messages that a window sends
-- fit in its budget, with their context blocks and their tool calls, unless an evicted message in it calls
-- tools.
pub window_footprint :
    (format : Format) (history : List Message) (budget : ℕ)
    → All IsCounted (window_history_with_budget format history budget)
    → count_prompt_footprint format
        (enrich_messages format (window_history_with_budget format history budget) [] messages_path)
      ≤ budget
window_footprint format history zero counted =
    subst (λ w. count_prompt_footprint format (enrich_messages format w [] messages_path) ≤ 0)
      (sym (window_history-zero format history))
      (unfold count_prompt_footprint enrich_messages in omega arith)
window_footprint format history (suc n) counted =
    let w = window_history_lem format history (suc n) (omega arith) in
    omega (
      arith,
      enriched-tokens format (window_history_with_budget format history (suc n)) counted,
      window-tokens format (count_groups format (group_messages history)) (suc n) _
          (count_groups-IsPriced format (group_messages history)) w,
      w.fits,
    )
