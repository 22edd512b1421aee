-- ===== src/Cron/Next/Earliest.antt =====
-- pkg/cron/cron.go: the loops of `NextAfter` over months and years, and what it returns.
use whiteagent.Common.{
  ℕ, zero, suc, ◌+◌, ◌*◌, ◌≤◌, ◌<◌, ◌≡◌, refl, sym, subst, ◌⊎◌, inl, inr, true, false, ◌&&◌,
  Bool-cases, none, some, Option-cases, List, [], ◌∷◌, arith, In, here, there, In-cons,
}
use whiteagent.Cron.{Cron, slt}
use whiteagent.Cron.Bounds.{Within, slt-lt}
use whiteagent.Cron.Days.{max_days, max_days_bounds, day_matches, IsSound, In-Within}
use whiteagent.Cron.Next.{
  Civil, Zone, kept, same_year, find_day, find_month, find_year, next_civil, next_after,
}
use whiteagent.Cron.Next.First.{month_key, key, First, First-equiv, First-or}
use whiteagent.Cron.Next.Least.{InRange, AtDay, find_day-First, minute_le, hour_le, year_cases}

-- The expression fires at this civil time: it names the month, the day, the hour and the minute, the
-- month has the day, and the zone does not move the time to another day.
pub record Fires (z : Zone) (c : Cron) (x : Civil) : Type 0 where
  pub month_in : In x.month c.month
  pub day_pos : 1 ≤ x.day
  pub day_le : x.day ≤ max_days x.year x.month
  pub day_in : day_matches c x.day x.year x.month ≡ true
  pub hour_in : In x.hour c.hour
  pub minute_in : In x.minute c.minute
  pub exists : kept z x ≡ true

limit_cases : (n y : ℕ) → (y < n) ⊎ (n ≤ y)
limit_cases n y = grind arith

module _ (z : Zone) (c : Cron) (s : IsSound c) (cur : Civil) (r : InRange cur) where
  abbrev AtMonth : ℕ → List ℕ → Civil → Type 0
  AtMonth year mons x = (x.year ≡ year) × In x.month mons × Fires z c x × (key cur ≤ key x)

  month_le : (m : ℕ) → In m c.month → m ≤ 12
  month_le m i = (In-Within c.month 1 12 m s.month_in i).1

  -- A time at which the expression fires lies within its month.
  key_in_month :
      (x : Civil)
      → Fires z c x
      → (key x < (month_key x.year x.month + 1) * 46080)
        × (month_key x.year x.month * 46080 ≤ key x)
        × (x.month ≤ 12)
  key_in_month x f = omega (
    arith,
    max_days_bounds x.year x.month,
    hour_le z c s cur r x.hour f.hour_in,
    minute_le z c s cur r x.minute f.minute_in,
    month_le x.month f.month_in,
  )

  AtDay-AtMonth :
      (year mon : ℕ) (mons : List ℕ) (x : Civil)
      → In mon c.month
      → AtDay z c s cur r year mon (max_days year mon) 1 x
      → AtMonth year (mon ∷ mons) x
  AtDay-AtMonth year mon mons x i p = (
    p.0,
    here p.1,
    record {
      month_in = subst (λ m. In m c.month) (sym p.1) i;
      day_pos = p.2;
      day_le = rw (p.0, p.1) (omega arith);
      day_in = rw (p.0, p.1) p.4;
      hour_in = p.5;
      minute_in = p.6;
      exists = p.7.0;
    },
    p.7.1,
  )

  AtMonth-AtDay :
      (year mon : ℕ) (mons : List ℕ) (x : Civil)
      → AtMonth year (mon ∷ mons) x
      → x.month ≡ mon
      → AtDay z c s cur r year mon (max_days year mon) 1 x
  AtMonth-AtDay year mon mons x p e =
      let same : max_days x.year x.month ≡ max_days year mon = cc in
      let f = p.2 in
      (
        p.0,
        e,
        f.day_pos,
        omega (arith, same, f.day_le),
        subst (λ m. day_matches c x.day year m ≡ true) e
            (subst (λ y. day_matches c x.day y x.month ≡ true) p.0 f.day_in),
        f.hour_in,
        f.minute_in,
        (f.exists, p.3),
      )

  month_skip :
      (year mon : ℕ)
      → mon ≤ 12
      → same_year z c cur year && slt mon cur.month ≡ true
      → month_key year mon < month_key cur.year cur.month
  unfolding same_year
  month_skip year mon m e = ground (arith, slt-lt mon cur.month)

  month_reach :
      (year mon : ℕ)
      → mon ≤ 12
      → cur.year ≤ year
      → same_year z c cur year && slt mon cur.month ≡ false
      → month_key cur.year cur.month ≤ month_key year mon
  unfolding same_year
  month_reach year mon m k e = ground (arith, slt-lt mon cur.month)

  find_month-First :
      (year lo : ℕ) (mons : List ℕ)
      → Within lo 12 mons
      → ((m : ℕ) → In m mons → In m c.month)
      → cur.year ≤ year
      → First (AtMonth year mons) (find_month z c cur year mons)
  unfolding find_month
  find_month-First year lo [] w i k = λ x p. elim p.1 [ ]
  find_month-First year lo (mon ∷ mons) w i k =
      let ih = find_month-First year (suc mon) mons w.2 (λ m j. i m (there j)) k in
      let in_rest : (x : Civil) → AtMonth year mons x → AtMonth year (mon ∷ mons) x =
        λ x p. (p.0, there p.1, p.2, p.3) in
      elim (Bool-cases (same_year z c cur year && slt mon cur.month)) [
        | inl skip ↦ rw skip (
            First-equiv (find_month z c cur year mons) in_rest
              (λ x p. elim (In-cons p.1) [
                | inl e ↦
                    absurd
                      (omega (arith, month_skip year mon w.1 skip, key_in_month x p.2, r.day_pos))
                | inr j ↦ (p.0, j, p.2, p.3)
              ])
              ih)
        | inr reach ↦ rw reach (
            First-or (find_day z c cur year mon (max_days year mon) 1)
              (find_month z c cur year mons)
              (λ x p. AtDay-AtMonth year mon mons x (i mon (here refl)) p) in_rest
              (λ x p. elim (In-cons p.1) [
                | inl e ↦ inl (AtMonth-AtDay year mon mons x p e)
                | inr j ↦ inr (p.0, j, p.2, p.3)
              ])
              (λ x y p q. omega (
                arith,
                key_in_month x (AtDay-AtMonth year mon mons x (i mon (here refl)) p).2,
                key_in_month y q.2,
                In-Within mons (suc mon) 12 y.month w.2 q.1,
              ))
              (find_day-First z c s cur r year mon (max_days year mon) 1 w.1
                (omega (arith, max_days_bounds year mon)) (month_reach year mon w.1 k reach))
              ih)
      ]

  abbrev AtYear : ℕ → ℕ → Civil → Type 0
  AtYear n year x = (year ≤ x.year) × (x.year < year + n) × Fires z c x × (key cur ≤ key x)

  find_year-First :
      (n year : ℕ) → cur.year ≤ year → First (AtYear n year) (find_year z c cur n year)
  unfolding find_year
  find_year-First zero year k = λ x p. omega arith
  find_year-First (suc n) year k =
      First-or (find_month z c cur year c.month) (find_year z c cur n (suc year))
        (λ x p. (omega arith, omega arith, p.2, p.3)) (λ x p. (omega arith, omega arith, p.2, p.3))
        (λ x p. elim (year_cases year x.year p.0) [
          | inl e ↦ inl (e, p.2.month_in, p.2, p.3)
          | inr above ↦ inr (above, omega arith, p.2, p.3)
        ])
        (λ x y p q. omega (arith, key_in_month x p.2, key_in_month y q.2))
        (find_month-First year 1 c.month s.month_in (λ m i. i) k)
        (find_year-First n (suc year) (omega arith))

  year_from : (y : Civil) → Fires z c y → key cur ≤ key y → cur.year ≤ y.year
  year_from y f k = omega (arith, key_in_month y f)

  found :
      (x : Civil)
      → next_civil z c cur ≡ some x
      → Fires z c x
        × (key cur ≤ key x)
        × ((y : Civil) → Fires z c y → key cur ≤ key y → key x ≤ key y)
  unfolding next_civil
  found x e =
      let (p, least) =
        subst (First (AtYear 5 cur.year)) e (find_year-First 5 cur.year (omega arith)) in
      (
        p.2,
        p.3,
        λ y f k. elim (limit_cases (cur.year + 5) y.year) [
          | inl early ↦ least y (year_from y f k, early, f, k)
          | inr late ↦ omega (arith, p.1, key_in_month x p.2, key_in_month y f)
        ],
      )

  not_found :
      next_civil z c cur ≡ none
      → (y : Civil) → Fires z c y
      → key cur ≤ key y
      → cur.year + 4 < y.year
  unfolding next_civil
  not_found e y f k =
      let no = subst (First (AtYear 5 cur.year)) e (find_year-First 5 cur.year (omega arith)) in
      elim (limit_cases (cur.year + 5) y.year) [
        | inl early ↦ absurd (no y (year_from y f k, early, f, k))
        | inr late ↦ omega arith
      ]

-- For an expression as `Parse` returns it, an instant that `NextAfter` returns is the instant of a
-- civil time at which the expression fires, which is not before the minute after the given instant;
-- of all such civil times it is the earliest.
pub next_after_earliest :
    (z : Zone) (c : Cron) (t i : z.Instant)
    → IsSound c
    → InRange (z.civil (z.next_minute t))
    → next_after z c t ≡ some i
    → (x : Civil) × (i ≡ z.date x)
      × Fires z c x
      × (key (z.civil (z.next_minute t)) ≤ key x)
      × ((y : Civil) → Fires z c y → key (z.civil (z.next_minute t)) ≤ key y → key x ≤ key y)
unfolding next_after
next_after_earliest z c t i s r e =
    let cur = z.civil (z.next_minute t) in
    elim (Option-cases (next_civil z c cur)) [
      | inl n ↦ ground (arith, n)
      | inr (x, q) ↦
          let (f, k, least) = found z c s cur r x q in (x, ground (arith, q), f, k, least)
    ]

-- For an expression as `Parse` returns it, the zero time means that the expression does not fire
-- before the fifth year after the year of the next minute.
pub next_after-none :
    (z : Zone) (c : Cron) (t : z.Instant)
    → IsSound c
    → InRange (z.civil (z.next_minute t))
    → next_after z c t ≡ none
    → (y : Civil) → Fires z c y
    → key (z.civil (z.next_minute t)) ≤ key y
    → (z.civil (z.next_minute t)).year + 4 < y.year
unfolding next_after
next_after-none z c t s r e y f k =
    let cur = z.civil (z.next_minute t) in
    elim (Option-cases (next_civil z c cur)) [
      | inl n ↦ not_found z c s cur r n y f k
      | inr (x, q) ↦ ground (arith, q)
    ]
