-- ===== src/Cron/Days.antt =====
-- pkg/cron/cron.go: which days of a month an expression names, over the Gregorian calendar of
-- package time. Years count from 1.
use whiteagent.Common.{
  In, here, there, Bool-cases, inl, inr, fields, trim_space, ℕ, zero, suc, ◌+◌, ◌-◌, ◌*◌, ◌/◌, ◌%◌,
  ◌≤◌, ◌<◌, ◌≡◌, refl, Bool, true, false, ◌&&◌, ◌||◌, arith, List, [], ◌∷◌, ltb, ◌==◌,
  if◌then◌else◌, length, Text, ok,
}
use whiteagent.Cron.{slt, Cron, parse_field, is_wild}
use whiteagent.Cron.Bounds.{Within, slt-lt}
use whiteagent.Cron.Fields.{field_fits}

-- `sort.SearchInts` stops at the first value that is not below `v`.
pub contains : List ℕ → ℕ → Bool
contains [] v = false
contains (w ∷ ws) v = if slt w v then contains ws v else w == v

is_leap : ℕ → Bool
is_leap y = y % 4 == 0 && (ltb 0 (y % 100) || y % 400 == 0)

unfoldable pub max_days : ℕ → ℕ → ℕ
unfolding is_leap
max_days year month =
    if month == 2
    then (if is_leap year then 29 else 28)
    else if month == 4 || month == 6 || month == 9 || month == 11
    then 30
    else 31

-- The days of the year before a month.
days_before : ℕ → ℕ → ℕ
unfolding max_days
days_before year zero = 0
days_before year (suc zero) = 0
days_before year (suc (suc m)) = days_before year (suc m) + max_days year (suc m)

-- 0 is Sunday; the first of January of year 1 is a Monday.
pub weekday : ℕ → ℕ → ℕ → ℕ
unfolding days_before
weekday year month day =
    (365 * (year - 1)
      + (year - 1) / 4
      - (year - 1) / 100
      + (year - 1) / 400
      + days_before year month
      + day)
    % 7

unfoldable pub day_matches : Cron → ℕ → ℕ → ℕ → Bool
unfolding contains weekday
day_matches c day year month =
    let dom_match = contains c.dom day in
    let dow_match = contains c.dow (weekday year month day) in
    if c.dom_wild && c.dow_wild
    then true
    else if c.dom_wild
    then dow_match
    else if c.dow_wild
    then dom_match
    else (dom_match || dow_match)

weekday_samples :
    (weekday 2024 2 29 ≡ 4)
    × (weekday 2000 1 1 ≡ 6)
    × (weekday 2026 11 25 ≡ 3)
    × (weekday 1970 1 1 ≡ 4)
unfolding weekday
weekday_samples = (refl, refl, refl, refl)

pub max_days_bounds : (y m : ℕ) → (28 ≤ max_days y m) × (max_days y m ≤ 31)
unfolding max_days
max_days_bounds y m = ground arith

pub weekday-lt : (y m d : ℕ) → weekday y m d < 7
unfolding weekday
weekday-lt y m d = omega arith

length-Within : (vs : List ℕ) (lo hi : ℕ) → Within lo hi vs → lo ≤ hi + 1 → length vs + lo ≤ hi + 1
length-Within [] lo hi w h = omega arith
length-Within (x ∷ vs) lo hi w h = omega (arith, length-Within vs (suc x) hi w.2 (omega arith))

pub In-Within : (vs : List ℕ) (lo hi v : ℕ) → Within lo hi vs → In v vs → (lo ≤ v) × (v ≤ hi)
In-Within [] lo hi v w i = elim i [ ]
In-Within (x ∷ vs) lo hi v w (here e) = omega arith
In-Within (x ∷ vs) lo hi v w (there i) = omega (arith, In-Within vs (suc x) hi v w.2 i)

-- An ascending list of a range that has as many values as the range holds each of them.
pub contains_full :
    (vs : List ℕ) (lo hi v : ℕ)
    → hi < 60
    → Within lo hi vs
    → length vs + lo ≡ hi + 1
    → lo ≤ v
    → v ≤ hi
    → contains vs v ≡ true
unfolding contains
contains_full [] lo hi v a w e p q = absurd (omega arith)
contains_full (x ∷ vs) lo hi v a w e p q =
    let room = length-Within vs (suc x) hi w.2 (omega arith) in
    let first : x ≡ lo = omega arith in ground (arith, first, contains_full vs (suc x) hi v a w.2)

-- On the lists that a field is parsed to, the search finds exactly the members.
pub contains-In :
    (vs : List ℕ) (lo hi v : ℕ)
    → hi < 60
    → v < 60
    → Within lo hi vs
    → (contains vs v ≡ true → In v vs) × (In v vs → contains vs v ≡ true)
unfolding contains
contains-In vs lo hi v a b w = (found vs lo w, present vs lo w)
  where
    found : (us : List ℕ) (l : ℕ) → Within l hi us → contains us v ≡ true → In v us
    found [] l w' e = cc
    found (x ∷ us) l w' e = elim (Bool-cases (slt x v)) [
      | inl below ↦ there (found us (suc x) w'.2 (ground (arith, below)))
      | inr above ↦ here (ground (arith, above))
    ]

    present : (us : List ℕ) (l : ℕ) → Within l hi us → In v us → contains us v ≡ true
    present [] l w' i = elim i [ ]
    present (x ∷ us) l w' (here e) = ground (arith, slt-lt x v)
    present (x ∷ us) l w' (there i) =
        ground (arith, In-Within us (suc x) hi v w'.2 i, present us (suc x) w'.2 i)

-- What `Parse` establishes of an expression whose steps fit into an int64.
pub record IsSound (c : Cron) : Type 0 where
  pub minute_in : Within 0 59 c.minute
  pub hour_in : Within 0 23 c.hour
  pub dom_in : Within 1 31 c.dom
  pub month_in : Within 1 12 c.month
  pub dow_in : Within 0 6 c.dow
  pub dom_full : c.dom_wild ≡ true → length c.dom ≡ 31
  pub dow_full : c.dow_wild ≡ true → length c.dow ≡ 7

abbrev pub fits_all : List Text → Bool
fits_all (f0 ∷ f1 ∷ f2 ∷ f3 ∷ f4 ∷ []) =
    field_fits 59 f0 && field_fits 23 f1 && field_fits 31 f2 && field_fits 12 f3 && field_fits 6 f4
fits_all fs = true

abbrev pub expr_fits : Text → Bool
expr_fits expr = fits_all (fields (trim_space expr))

pub is_wild_full :
    (field : Text) (lo hi : ℕ) (vs : List ℕ)
    → parse_field field lo hi ≡ ok vs
    → is_wild field lo hi ≡ true
    → length vs ≡ hi - lo + 1
unfolding is_wild
is_wild_full field lo hi vs e h = ground (arith, e)
