-- ===== src/Cron/Bounds.antt =====
-- pkg/cron/cron.go: the loop over the values of a step, and the bounds of its values.
use whiteagent.Common.{
  ltb→lt, ltb→le, ltb, Option-cases, subst, ℕ, zero, suc, ◌+◌, ◌%◌, ◌^◌, ◌≤◌, ◌<◌, ◌≡◌, true, false,
  Bool-cases, inl, inr, arith, some, List, [], ◌∷◌,
}
use whiteagent.Cron.{slt, expand, loop_fuel}

-- Ascending without repetition, all from `lo` to `hi`.
abbrev pub Within : ℕ → ℕ → List ℕ → Type 0
Within lo hi [] = Unit {0}
Within lo hi (v ∷ vs) = (lo ≤ v) × (v ≤ hi) × Within (suc v) hi vs

pub Within-weaken :
    {lo lo' hi hi' : ℕ} (vs : List ℕ) → lo' ≤ lo → hi ≤ hi' → Within lo hi vs → Within lo' hi' vs
Within-weaken [] a b w = tt
Within-weaken (v ∷ vs) a b w = (omega arith, omega arith, Within-weaken vs (omega arith) b w.2)

-- A step that no value up to `hi` carries over the end of an int64.
abbrev pub Fits : ℕ → ℕ → Type 0
Fits hi step = hi + step < 2 ^ 63

pub slt-lt : (a b : ℕ) → a < 2 ^ 63 → b < 2 ^ 63 → slt a b ≡ ltb a b
slt-lt a b p q = ground arith

pub expand-Within :
    (fuel v end step : ℕ) (vs : List ℕ)
    → 0 < step
    → Fits end step
    → v < 2 ^ 63
    → expand fuel v end step ≡ some vs
    → Within v end vs
unfolding expand
expand-Within zero v end step vs p f h e = cc
expand-Within (suc fuel) v end step vs p f h e = elim (Bool-cases (slt end v)) [
  | inl past ↦ ground (arith, past)
  | inr more ↦
      let fits : v ≤ end = ground (arith, more) in
      elim (Option-cases (expand fuel ((v + step) % 2 ^ 64) end step)) [
        | inl out ↦ ground (arith, more, out)
        | inr (ws, q) ↦
            let rest = expand-Within fuel ((v + step) % 2 ^ 64) end step ws p f (omega arith) q in
            let rest' : Within (suc v) end ws = Within-weaken ws (omega arith) (omega arith) rest in
            let e' : v ∷ ws ≡ vs = ground (arith, more, q) in
            subst (Within v end) e' (omega arith, fits, rest')
      ]
]

expand_past : (fuel v end step : ℕ) → slt end v ≡ true → expand (suc fuel) v end step ≡ some []
unfolding expand
expand_past fuel v end step h = ground (arith, h)

expand_more :
    (fuel v end step : ℕ) (ws : List ℕ)
    → slt end v ≡ false
    → expand fuel ((v + step) % 2 ^ 64) end step ≡ some ws
    → expand (suc fuel) v end step ≡ some (v ∷ ws)
unfolding expand
expand_more fuel v end step ws h q = ground (arith, h, q)

abbrev pub Ends : ℕ → ℕ → ℕ → ℕ → Type 0
Ends fuel v end step = (vs : List ℕ) × (expand fuel v end step ≡ some vs)

Ends-past : (fuel v end step : ℕ) → slt end v ≡ true → Ends (suc fuel) v end step
Ends-past fuel v end step h = ([], expand_past fuel v end step h)

Ends-more :
    (fuel v end step : ℕ)
    → slt end v ≡ false
    → Ends fuel ((v + step) % 2 ^ 64) end step
    → Ends (suc fuel) v end step
Ends-more fuel v end step h (ws, q) = (v ∷ ws, expand_more fuel v end step ws h q)

-- A step that fits: each round that does not end the loop moves on by a step.
Ends-Fits :
    (fuel v end step : ℕ)
    → 0 < step
    → Fits end step
    → v < 2 ^ 63
    → end + 1 < v + fuel
    → 0 < fuel
    → Ends fuel v end step
Ends-Fits zero v end step p f h m n = absurd (omega arith)
Ends-Fits (suc fuel) v end step p f h m n = elim (Bool-cases (slt end v)) [
  | inl past ↦ Ends-past fuel v end step past
  | inr more ↦
      let fits : v ≤ end = ground (arith, more) in
      Ends-more fuel v end step more (
        Ends-Fits fuel ((v + step) % 2 ^ 64) end step p f (omega arith) (omega arith) (omega arith))
]

-- A step that does not: two rounds bring the value down, or a third one ends the loop.
Ends-wide :
    (fuel v end step : ℕ)
    → end < 1000
    → step < 2 ^ 63
    → 2 ^ 63 ≤ end + step
    → v ≤ end
    → v + 4 ≤ fuel
    → Ends fuel v end step
Ends-wide zero v end step a b c d e = absurd (omega arith)
Ends-wide (suc zero) v end step a b c d e = absurd (omega arith)
Ends-wide (suc (suc zero)) v end step a b c d e = absurd (omega arith)
Ends-wide (suc (suc (suc zero))) v end step a b c d e = absurd (omega arith)
Ends-wide (suc (suc (suc (suc f)))) v end step a b c d e =
    let x : ℕ = (v + step) % 2 ^ 64 in
    let y : ℕ = (x + step) % 2 ^ 64 in
    let z : ℕ = (y + step) % 2 ^ 64 in
    Ends-more (suc (suc (suc f))) v end step (ground arith) (elim (Bool-cases (slt end x)) [
      | inl past ↦ Ends-past (suc (suc f)) x end step past
      | inr more ↦ Ends-more (suc (suc f)) x end step more (elim (Bool-cases (slt end y)) [
        | inl past ↦ Ends-past (suc f) y end step past
        | inr again ↦ elim (Bool-cases (ltb end y)) [
          | inl low ↦
              Ends-more (suc f) y end step again
                (Ends-past f z end step (ground (arith, more, again, low)))
          | inr back ↦
              Ends-wide (suc (suc f)) y end step a b c (ground (arith, back))
                (ground (arith, more, back))
        ]
      ])
    ])

-- Whatever the step, the fuel is enough for the values up to an end of a field.
pub expand_total :
    (v end step : ℕ) → v ≤ end → end < 60 → 0 < step → step < 2 ^ 63 → Ends loop_fuel v end step
expand_total v end step h k p q = elim (Bool-cases (ltb (end + step) (2 ^ 63))) [
  | inl f ↦
      Ends-Fits loop_fuel v end step p (ltb→lt _ _ f) (omega arith) (omega arith) (omega arith)
  | inr w ↦ Ends-wide loop_fuel v end step (omega arith) q (ltb→le _ _ w) h (omega arith)
]

pub expand_overflow :
    (start end step : ℕ)
    → start ≤ end
    → end < 60
    → step < 2 ^ 63
    → 2 ^ 63 ≤ start + step
    → (vs : List ℕ) × (expand loop_fuel start end step
        ≡ some (start ∷ ((start + step) % 2 ^ 64) ∷ vs))
expand_overflow start end step a b c d = elim (Bool-cases (slt end y)) [
  | inl past ↦ (
    [],
    expand_more 255 start end step _ (ground arith)
        (expand_more 254 x end step _ (ground arith) (expand_past 253 y end step past)),
  )
  | inr more ↦ elim (Bool-cases (ltb end y)) [
    | inl low ↦ (
      y ∷ [],
      expand_more 255 start end step _ (ground arith) (
          expand_more 254 x end step _ (ground arith) (
            expand_more 253 y end step _ more
              (expand_past 252 _ end step (ground (arith, more, low))))),
    )
    | inr back ↦
        let (vs, q) =
          Ends-wide 254 y end step (omega arith) c (omega arith) (ground (arith, back))
            (ground (arith, more, back)) in
        (
          vs,
          expand_more 255 start end step _ (ground arith)
              (expand_more 254 x end step _ (ground arith) q),
        )
  ]
]
  where
    x : ℕ
    x = (start + step) % 2 ^ 64

    y : ℕ
    y = (x + step) % 2 ^ 64
