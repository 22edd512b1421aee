-- ===== src/Cron/Sound.antt =====
-- pkg/cron/cron.go: the expression that `Parse` returns, and `dayMatches` on it.
use whiteagent.Common.{
  ℕ, ◌≤◌, ◌≡◌, true, ◌&&◌, ◌||◌, arith, List, [], ◌∷◌, if◌then◌else◌, Text, fields, trim_space,
  is_empty, ok, wrap, and_then-ok, wrap-ok, ok-injective, subst, Bool-cases, inl, inr,
}
use whiteagent.Cron.{
  Cron, minute_error, hour_error, dom_error, month_error, dow_error, parse_field, parse_fields,
  parse,
}
use whiteagent.Cron.Fields.{parse_field-Within}
use whiteagent.Cron.Days.{
  IsSound, fits_all, expr_fits, is_wild_full, contains, contains_full, weekday, weekday-lt,
  day_matches,
}

parse_fields-IsSound :
    (fs : List Text) (c : Cron) → fits_all fs ≡ true → parse_fields fs ≡ ok c → IsSound c
unfolding parse_fields
parse_fields-IsSound [] c f e = cc
parse_fields-IsSound (f0 ∷ []) c f e = cc
parse_fields-IsSound (f0 ∷ f1 ∷ []) c f e = cc
parse_fields-IsSound (f0 ∷ f1 ∷ f2 ∷ []) c f e = cc
parse_fields-IsSound (f0 ∷ f1 ∷ f2 ∷ f3 ∷ []) c f e = cc
parse_fields-IsSound (f0 ∷ f1 ∷ f2 ∷ f3 ∷ f4 ∷ []) c f e =
    let (v0, p0, e0) = and_then-ok (wrap minute_error (parse_field f0 0 59)) _ e in
    let (v1, p1, e1) = and_then-ok (wrap hour_error (parse_field f1 0 23)) _ e0 in
    let (v2, p2, e2) = and_then-ok (wrap dom_error (parse_field f2 1 31)) _ e1 in
    let (v3, p3, e3) = and_then-ok (wrap month_error (parse_field f3 1 12)) _ e2 in
    let (v4, p4, e4) = and_then-ok (wrap dow_error (parse_field f4 0 6)) _ e3 in
    let q0 = wrap-ok minute_error (parse_field f0 0 59) p0 in
    let q1 = wrap-ok hour_error (parse_field f1 0 23) p1 in
    let q2 = wrap-ok dom_error (parse_field f2 1 31) p2 in
    let q3 = wrap-ok month_error (parse_field f3 1 12) p3 in
    let q4 = wrap-ok dow_error (parse_field f4 0 6) p4 in
    subst IsSound (ok-injective e4) (record {
      minute_in = parse_field-Within f0 0 59 v0 (omega arith) (omega arith) (ground arith) q0;
      hour_in = parse_field-Within f1 0 23 v1 (omega arith) (omega arith) (ground arith) q1;
      dom_in = parse_field-Within f2 1 31 v2 (omega arith) (omega arith) (ground arith) q2;
      month_in = parse_field-Within f3 1 12 v3 (omega arith) (omega arith) (ground arith) q3;
      dow_in = parse_field-Within f4 0 6 v4 (omega arith) (omega arith) (ground arith) q4;
      dom_full = is_wild_full f2 1 31 v2 q2;
      dow_full = is_wild_full f4 0 6 v4 q4;
    })
parse_fields-IsSound (f0 ∷ f1 ∷ f2 ∷ f3 ∷ f4 ∷ f5 ∷ fs) c f e = cc

-- If the steps of the expression fit, each field of the parsed expression is ascending, without
-- repetition and within its calendar range, and a field that is marked as a wildcard is complete.
pub parse-IsSound : (expr : Text) (c : Cron) → expr_fits expr ≡ true → parse expr ≡ ok c → IsSound c
unfolding parse
parse-IsSound expr c f e = elim (Bool-cases (is_empty (trim_space expr))) [
  | inl none_left ↦ ground (arith, none_left)
  | inr some_left ↦ parse_fields-IsSound (fields (trim_space expr)) c f (ground (arith, some_left))
]

-- For an expression as `Parse` returns it, a day of a month matches if both day fields list it, where
-- one of the two is a wildcard, and if one of them lists it, where neither is.
pub day_matches_lem :
    (c : Cron) (day year month : ℕ)
    → IsSound c
    → 1 ≤ day
    → day ≤ 31
    → let dom_match = contains c.dom day in
      let dow_match = contains c.dow (weekday year month day) in
      day_matches c day year month
      ≡ (if c.dom_wild || c.dow_wild then dom_match && dow_match else (dom_match || dow_match))
unfolding day_matches
day_matches_lem c day year month s a b =
    let wd = weekday-lt year month day in
    let dm : c.dom_wild ≡ true → contains c.dom day ≡ true = (λ e.
      let l = s.dom_full e in
      contains_full c.dom 1 31 day (omega arith) s.dom_in (omega arith) a b) in
    let wm : c.dow_wild ≡ true → contains c.dow (weekday year month day) ≡ true = (λ e.
      let l = s.dow_full e in
      contains_full c.dow 0 6 (weekday year month day) (omega arith) s.dow_in (omega arith)
        (omega arith) (omega arith)) in
    ground (arith, dm, wm)
