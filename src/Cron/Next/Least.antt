-- ===== src/Cron/Next/Least.antt =====
-- pkg/cron/cron.go: the loops of `NextAfter` over minutes, hours and days, and the civil times that each
-- goes through.
use whiteagent.Common.{
  ℕ, zero, suc, ◌+◌, ◌*◌, ◌≤◌, ◌<◌, ◌≡◌, refl, sym, subst, ◌⊎◌, inl, inr, true, false, ◌&&◌,
  Bool-cases, List, [], ◌∷◌, ltb, arith, In, here, there, In-cons,
}
use whiteagent.Cron.{Cron, slt}
use whiteagent.Cron.Bounds.{Within, slt-lt}
use whiteagent.Cron.Days.{day_matches, IsSound, In-Within}
use whiteagent.Cron.Next.{
  Civil, Zone, kept, same_month, same_day, same_hour, find_minute, find_hour, find_day,
}
use whiteagent.Cron.Next.First.{month_key, day_key, hour_key, key, First, First-equiv, First-or}

-- The fields of a civil time stay within the calendar.
pub record InRange (x : Civil) : Type 0 where
  pub month_pos : 1 ≤ x.month
  pub month_le : x.month ≤ 12
  pub day_pos : 1 ≤ x.day
  pub day_le : x.day ≤ 31
  pub hour_le : x.hour ≤ 23
  pub minute_le : x.minute ≤ 59

pub year_cases : (day d : ℕ) → day ≤ d → (d ≡ day) ⊎ (suc day ≤ d)
year_cases day d h = grind arith

module _ (z : Zone) (c : Cron) (s : IsSound c) (cur : Civil) (r : InRange cur) where
  -- The candidate is kept, and does not lie before `cur`.
  abbrev pub Open : Civil → Type 0
  Open x = (kept z x ≡ true) × (key cur ≤ key x)

  abbrev AtMinute : ℕ → ℕ → ℕ → ℕ → List ℕ → Civil → Type 0
  AtMinute year mon day hr mins x =
      (x.year ≡ year) × (x.month ≡ mon) × (x.day ≡ day) × (x.hour ≡ hr) × In x.minute mins × Open x

  -- What is skipped lies before `cur`, and what is not does not.
  minute_skip :
      (year mon day hr min : ℕ)
      → min ≤ 59
      → same_hour z c cur year mon day hr && slt min cur.minute ≡ true
      → hour_key year mon day hr * 60 + min < key cur
  unfolding same_hour
  minute_skip year mon day hr min m e = ground (arith, slt-lt min cur.minute)

  minute_reach :
      (year mon day hr min : ℕ)
      → min ≤ 59
      → mon ≤ 12
      → day ≤ 31
      → hr ≤ 23
      → hour_key cur.year cur.month cur.day cur.hour ≤ hour_key year mon day hr
      → same_hour z c cur year mon day hr && slt min cur.minute ≡ false
      → key cur ≤ hour_key year mon day hr * 60 + min
  unfolding same_hour
  minute_reach year mon day hr min m a b d h e = ground (arith, slt-lt min cur.minute)

  find_minute-First :
      (year mon day hr lo : ℕ) (mins : List ℕ)
      → Within lo 59 mins
      → mon ≤ 12
      → day ≤ 31
      → hr ≤ 23
      → hour_key cur.year cur.month cur.day cur.hour ≤ hour_key year mon day hr
      → First (AtMinute year mon day hr mins) (find_minute z c cur year mon day hr mins)
  unfolding find_minute
  find_minute-First year mon day hr lo [] w a b d h = λ x p. elim p.4 [ ]
  find_minute-First year mon day hr lo (min ∷ mins) w a b d h =
      let ih = find_minute-First year mon day hr (suc min) mins w.2 a b d h in
      elim (Bool-cases (same_hour z c cur year mon day hr && slt min cur.minute)) [
        | inl skip ↦
            rw skip (
              later ih (λ x p e. let far = minute_skip year mon day hr min w.1 skip in omega arith))
        | inr reach ↦ elim (Bool-cases (kept z candidate)) [
          | inl good ↦
              rw (reach, good)
                (
                  (
                    refl,
                    refl,
                    refl,
                    refl,
                    here refl,
                    (good, minute_reach year mon day hr min w.1 a b d h reach),
                  ),
                  first,
                )
          | inr bad ↦ rw (reach, bad) (later ih (λ x p e. ground (arith, bad, same x p e)))
        ]
      ]
    where
      candidate : Civil
      candidate = record { year = year; month = mon; day = day; hour = hr; minute = min }

      same : (x : Civil) → AtMinute year mon day hr (min ∷ mins) x → x.minute ≡ min → x ≡ candidate
      same x p e =
          λ i. record { year = p.0 i; month = p.1 i; day = p.2 i; hour = p.3 i; minute = e i }

      first : (x : Civil) → AtMinute year mon day hr (min ∷ mins) x → key candidate ≤ key x
      first x (ey, em, ed, eh, here e, o) = omega arith
      first x (ey, em, ed, eh, there i, o) =
          let later = In-Within mins (suc min) 59 x.minute w.2 i in omega arith

      tail :
          (x : Civil)
          → In x.minute (min ∷ mins)
          → AtMinute year mon day hr (min ∷ mins) x
          → (x.minute ≡ min → ⊥)
          → AtMinute year mon day hr mins x
      tail x (here e) p miss = absurd (miss e)
      tail x (there i) p miss = (p.0, p.1, p.2, p.3, i, p.5)

      later :
          First (AtMinute year mon day hr mins) (find_minute z c cur year mon day hr mins)
          → ((x : Civil) → AtMinute year mon day hr (min ∷ mins) x → x.minute ≡ min → ⊥)
          → First (AtMinute year mon day hr (min ∷ mins)) (find_minute z c cur year mon day hr mins)
      later ih miss =
          First-equiv (find_minute z c cur year mon day hr mins)
            (λ x p. (p.0, p.1, p.2, p.3, there p.4, p.5)) (λ x p. tail x p.4 p (miss x p)) ih

  abbrev AtHour : ℕ → ℕ → ℕ → List ℕ → Civil → Type 0
  AtHour year mon day hrs x =
      (x.year ≡ year)
      × (x.month ≡ mon)
      × (x.day ≡ day)
      × In x.hour hrs
      × In x.minute c.minute
      × Open x

  pub minute_le : (m : ℕ) → In m c.minute → m ≤ 59
  minute_le m i = (In-Within c.minute 0 59 m s.minute_in i).1

  pub hour_le : (h : ℕ) → In h c.hour → h ≤ 23
  hour_le h i = (In-Within c.hour 0 23 h s.hour_in i).1

  hour_skip :
      (year mon day hr : ℕ)
      → hr ≤ 23
      → same_day z c cur year mon day && slt hr cur.hour ≡ true
      → hour_key year mon day hr < hour_key cur.year cur.month cur.day cur.hour
  unfolding same_day
  hour_skip year mon day hr h e = ground (arith, slt-lt hr cur.hour)

  hour_reach :
      (year mon day hr : ℕ)
      → hr ≤ 23
      → mon ≤ 12
      → day ≤ 31
      → day_key cur.year cur.month cur.day ≤ day_key year mon day
      → same_day z c cur year mon day && slt hr cur.hour ≡ false
      → hour_key cur.year cur.month cur.day cur.hour ≤ hour_key year mon day hr
  unfolding same_day
  hour_reach year mon day hr h a b k e = ground (arith, slt-lt hr cur.hour)

  find_hour-First :
      (year mon day lo : ℕ) (hrs : List ℕ)
      → Within lo 23 hrs
      → mon ≤ 12
      → day ≤ 31
      → day_key cur.year cur.month cur.day ≤ day_key year mon day
      → First (AtHour year mon day hrs) (find_hour z c cur year mon day hrs)
  unfolding find_hour
  find_hour-First year mon day lo [] w a b k = λ x p. elim p.3 [ ]
  find_hour-First year mon day lo (hr ∷ hrs) w a b k =
      let ih = find_hour-First year mon day (suc hr) hrs w.2 a b k in
      let in_rest : (x : Civil) → AtHour year mon day hrs x → AtHour year mon day (hr ∷ hrs) x =
        λ x p. (p.0, p.1, p.2, there p.3, p.4, p.5) in
      elim (Bool-cases (same_day z c cur year mon day && slt hr cur.hour)) [
        | inl skip ↦ rw skip (
            First-equiv (find_hour z c cur year mon day hrs) in_rest
              (λ x p. elim (In-cons p.3) [
                | inl e ↦
                    absurd
                      (omega (arith, hour_skip year mon day hr w.1 skip, minute_le x.minute p.4))
                | inr i ↦ (p.0, p.1, p.2, i, p.4, p.5)
              ])
              ih)
        | inr reach ↦ rw reach (
            First-or (find_minute z c cur year mon day hr c.minute)
              (find_hour z c cur year mon day hrs) (λ x p. (p.0, p.1, p.2, here p.3, p.4, p.5))
              in_rest
              (λ x p. elim (In-cons p.3) [
                | inl e ↦ inl (p.0, p.1, p.2, e, p.4, p.5)
                | inr i ↦ inr (p.0, p.1, p.2, i, p.4, p.5)
              ])
              (λ x y p q.
                omega (arith, minute_le x.minute p.4, In-Within hrs (suc hr) 23 y.hour w.2 q.3))
              (find_minute-First year mon day hr 0 c.minute s.minute_in a b w.1
                (hour_reach year mon day hr w.1 a b k reach))
              ih)
      ]

  abbrev pub AtDay : ℕ → ℕ → ℕ → ℕ → Civil → Type 0
  AtDay year mon n day x =
      (x.year ≡ year)
      × (x.month ≡ mon)
      × (day ≤ x.day)
      × (x.day < day + n)
      × (day_matches c x.day year mon ≡ true)
      × In x.hour c.hour
      × In x.minute c.minute
      × Open x

  day_skip :
      (year mon day : ℕ)
      → same_month z c cur year mon && ltb day cur.day ≡ true
      → day_key year mon day < day_key cur.year cur.month cur.day
  unfolding same_month
  day_skip year mon day e = ground arith

  day_reach :
      (year mon day : ℕ)
      → mon ≤ 12
      → day ≤ 31
      → month_key cur.year cur.month ≤ month_key year mon
      → same_month z c cur year mon && ltb day cur.day ≡ false
      → day_key cur.year cur.month cur.day ≤ day_key year mon day
  unfolding same_month
  day_reach year mon day a b k e = ground arith

  pub find_day-First :
      (year mon n day : ℕ)
      → mon ≤ 12
      → day + n ≤ 32
      → month_key cur.year cur.month ≤ month_key year mon
      → First (AtDay year mon n day) (find_day z c cur year mon n day)
  unfolding find_day
  find_day-First year mon zero day a b k = λ x p. omega arith
  find_day-First year mon (suc n) day a b k =
      let ih = find_day-First year mon n (suc day) a (omega arith) k in
      let in_rest : (x : Civil) → AtDay year mon n (suc day) x → AtDay year mon (suc n) day x =
        λ x p. (p.0, p.1, omega arith, omega arith, p.4, p.5, p.6, p.7) in
      elim (Bool-cases (same_month z c cur year mon && ltb day cur.day)) [
        | inl skip ↦ rw skip (
            First-equiv (find_day z c cur year mon n (suc day)) in_rest
              (λ x p. (
                p.0,
                p.1,
                omega
                    (arith, day_skip year mon day skip, minute_le x.minute p.6, hour_le x.hour p.5),
                omega arith,
                p.4,
                p.5,
                p.6,
                p.7,
              ))
              ih)
        | inr reach ↦ elim (Bool-cases (day_matches c day year mon)) [
          | inr other ↦
              rw (reach, other)
                (First-equiv (find_day z c cur year mon n (suc day)) in_rest
                  (λ x p. elim (year_cases day x.day p.2) [
                    | inl e ↦
                        absurd (
                          ground (arith, other, subst (λ d. day_matches c d year mon ≡ true) e p.4))
                    | inr above ↦ (p.0, p.1, above, omega arith, p.4, p.5, p.6, p.7)
                  ])
                  ih)
          | inl match ↦
              rw (reach, match)
                (First-or (find_hour z c cur year mon day c.hour)
                  (find_day z c cur year mon n (suc day))
                  (λ x p. (
                    p.0,
                    p.1,
                    omega arith,
                    omega arith,
                    subst (λ d. day_matches c d year mon ≡ true) (sym p.2) match,
                    p.3,
                    p.4,
                    p.5,
                  ))
                  in_rest
                  (λ x p. elim (year_cases day x.day p.2) [
                    | inl e ↦ inl (p.0, p.1, e, p.5, p.6, p.7)
                    | inr above ↦ inr (p.0, p.1, above, omega arith, p.4, p.5, p.6, p.7)
                  ])
                  (λ x y p q. omega (arith, minute_le x.minute p.4, hour_le x.hour p.3))
                  (find_hour-First year mon day 0 c.hour s.hour_in a (omega arith)
                    (day_reach year mon day a (omega arith) k reach))
                  ih)
        ]
      ]
