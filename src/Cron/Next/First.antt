-- ===== src/Cron/Next/First.antt =====
-- The first element of a set of civil times, for the loops of `NextAfter` in pkg/cron/cron.go.
use whiteagent.Common.{ℕ, ◌+◌, ◌*◌, ◌≤◌, ◌⊎◌, inl, inr, Option, none, some}
use whiteagent.Cron.Next.{Civil, or_else}

-- Civil times in the order of time: their fields, most significant first.
abbrev pub month_key : ℕ → ℕ → ℕ
month_key year month = year * 13 + month

abbrev pub day_key : ℕ → ℕ → ℕ → ℕ
day_key year month day = month_key year month * 32 + day

abbrev pub hour_key : ℕ → ℕ → ℕ → ℕ → ℕ
hour_key year month day hour = day_key year month day * 24 + hour

abbrev pub key : Civil → ℕ
key x = hour_key x.year x.month x.day x.hour * 60 + x.minute

-- The set has no element, or the given one is its earliest.
abbrev pub First : (Civil → Type 0) → Option Civil → Type 0
First P none = (x : Civil) → P x → ⊥
First P (some x) = P x × ((y : Civil) → P y → key x ≤ key y)

pub First-equiv :
    {P Q : Civil → Type 0} (o : Option Civil)
    → ((x : Civil) → P x → Q x)
    → ((x : Civil) → Q x → P x)
    → First P o
    → First Q o
First-equiv none to from h = λ x q. h x (from x q)
First-equiv (some y) to from h = (to y h.0, λ x q. h.1 x (from x q))

-- A loop that tries `P` first and goes on with `Q`, which lies later.
pub First-or :
    {P Q R : Civil → Type 0} (o rest : Option Civil)
    → ((x : Civil) → P x → R x)
    → ((x : Civil) → Q x → R x)
    → ((x : Civil) → R x → P x ⊎ Q x)
    → ((x y : Civil) → P x → Q y → key x ≤ key y)
    → First P o
    → First Q rest
    → First R (or_else o rest)
First-or none none left right split before hp hq =
    λ x r. elim (split x r) [ inl p ↦ hp x p | inr q ↦ hq x q ]
First-or none (some y) left right split before hp hq =
    (right y hq.0, λ x r. elim (split x r) [ inl p ↦ absurd (hp x p) | inr q ↦ hq.1 x q ])
First-or (some z) rest left right split before hp hq =
    (left z hp.0, λ x r. elim (split x r) [ inl p ↦ hp.1 x p | inr q ↦ before z x hp.0 q ])
