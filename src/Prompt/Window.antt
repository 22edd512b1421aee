-- ===== src/Prompt/Window.antt =====
-- internal/domain/service/prompt/render.go: the window that a budget leaves of a history.
use whiteagent.Common.{
  ℕ, ◌+◌, ◌-◌, ◌≤◌, ◌<◌, true, false, Bool-cases, ◌==◌, leb, List, [], ◌∷◌, ◌++◌, append-nil,
  append_assoc, ◌≡◌, ◌⊎◌, inl, inr, refl, sym, ap, ◌∙◌, arith,
}
use mathlib.Core.List.{reverse, reverse-append, reverse-reverse}
use whiteagent.Entity.{Message}
use whiteagent.Prompt.{
  Format, MessageGroup, keep_newest, flatten, window_messages, group_messages, count_groups,
  window_history_with_budget,
}

abbrev pub tokens_of : List MessageGroup → ℕ
tokens_of [] = 0
tokens_of (g ∷ gs) = g.tokens + tokens_of gs

tokens_of-append : (gs hs : List MessageGroup) → tokens_of (gs ++ hs) ≡ tokens_of gs + tokens_of hs
tokens_of-append [] hs = omega arith
tokens_of-append (g ∷ gs) hs = omega (arith, tokens_of-append gs hs)

tokens_of-reverse : (gs : List MessageGroup) → tokens_of (reverse gs) ≡ tokens_of gs
tokens_of-reverse [] = refl
tokens_of-reverse (g ∷ gs) =
    ap tokens_of (reverse-append (g ∷ []) gs)
    ∙ omega (arith, tokens_of-append (reverse gs) (g ∷ []), tokens_of-reverse gs)

leb→le : (a b : ℕ) → leb a b ≡ true → a ≤ b
leb→le a b h = ground arith

ltb_of_leb : (a b : ℕ) → leb a b ≡ false → b < a
ltb_of_leb a b h = ground arith

-- Of groups from the newest on: those kept and those dropped.
record IsKept (budget : ℕ) (gs kept out : List MessageGroup) : Type 0 where
  taken : List MessageGroup
  dropped : List MessageGroup
  parts : gs ≡ taken ++ dropped
  result : out ≡ reverse taken ++ kept
  fits : tokens_of taken ≤ budget
  maximal :
      (dropped ≡ [])
      ⊎ ((g : MessageGroup) × (rest : List MessageGroup) × (dropped ≡ g ∷ rest)
          × (budget < g.tokens + tokens_of taken))

keep_newest-IsKept :
    (gs kept : List MessageGroup) (budget : ℕ) → IsKept budget gs kept (keep_newest budget gs kept)
unfolding keep_newest
keep_newest-IsKept [] kept budget = record {
  taken = [];
  dropped = [];
  parts = refl;
  result = refl;
  fits = omega arith;
  maximal = inl refl;
}
keep_newest-IsKept (g ∷ gs) kept budget = elim (Bool-cases (leb g.tokens budget)) [
  | inl fits ↦
      let later = keep_newest-IsKept gs (g ∷ kept) (budget - g.tokens) in
      let paid = leb→le g.tokens budget fits in
      rw fits (record {
        taken = g ∷ later.taken;
        dropped = later.dropped;
        parts = ap (λ l. g ∷ l) later.parts;
        result =
            later.result
            ∙ sym (append_assoc (reverse later.taken) (g ∷ []) kept)
            ∙ ap (λ l. l ++ kept) (sym (reverse-append (g ∷ []) later.taken));
        fits = omega (arith, later.fits);
        maximal = elim later.maximal [
          | inl all ↦ inl all
          | inr (h, rest, is, over) ↦ inr (h, rest, is, omega arith)
        ];
      })
  | inr over ↦ rw over (record {
    taken = [];
    dropped = g ∷ gs;
    parts = refl;
    result = refl;
    fits = omega arith;
    maximal = inr (g, gs, refl, omega (arith, ltb_of_leb g.tokens budget over));
  })
]

-- The window as a part of the groups of a history.
pub record IsWindow (budget : ℕ) (groups : List MessageGroup) (window : List Message) : Type 0 where
  pub older : List MessageGroup
  pub newer : List MessageGroup
  pub parts : groups ≡ older ++ newer
  pub result : window ≡ flatten newer
  pub fits : tokens_of newer ≤ budget
  pub maximal :
      (older ≡ [])
      ⊎ ((init : List MessageGroup) × (last : MessageGroup) × (older ≡ init ++ (last ∷ []))
          × (budget < last.tokens + tokens_of newer))

window_messages-IsWindow :
    (groups : List MessageGroup) (budget : ℕ)
    → IsWindow budget groups (window_messages groups budget)
unfolding window_messages
window_messages-IsWindow groups budget =
    let kept = keep_newest-IsKept (reverse groups) [] budget in
    record {
      older = reverse kept.dropped;
      newer = reverse kept.taken;
      parts =
          sym (reverse-reverse groups)
          ∙ ap reverse kept.parts
          ∙ reverse-append kept.taken kept.dropped;
      result = ap flatten (kept.result ∙ append-nil (reverse kept.taken));
      fits = omega (arith, kept.fits, tokens_of-reverse kept.taken);
      maximal = elim kept.maximal [
        | inl all ↦ inl (ap reverse all)
        | inr (g, rest, is, over) ↦ inr (
          reverse rest,
          g,
          ap reverse is ∙ reverse-append (g ∷ []) rest,
          omega (arith, tokens_of-reverse kept.taken),
        )
      ];
    }

-- With a budget above 0 the window of a history is made of whole groups, the newest ones, in order: their
-- tokens fit in the budget, and with the tokens of the newest group that is left out they would not.
pub window_history_lem :
    (format : Format) (history : List Message) (budget : ℕ)
    → 0 < budget
    → IsWindow budget
        (count_groups format (group_messages history))
        (window_history_with_budget format history budget)
unfolding window_history_with_budget
window_history_lem format [] budget some_budget = record {
  older = [];
  newer = [];
  parts = nothing;
  result = refl;
  fits = omega arith;
  maximal = inl refl;
}
  where
    nothing : count_groups format (group_messages []) ≡ []
    nothing = unfold group_messages in refl
window_history_lem format (m ∷ ms) budget some_budget =
    let not_zero : (budget == 0) ≡ false = ground arith in
    rw not_zero (window_messages-IsWindow (count_groups format (group_messages (m ∷ ms))) budget)
