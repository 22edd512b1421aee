-- ===== src/Cron/Tests.antt =====
-- pkg/cron/cron.go: runs of the parser on concrete expressions.
use whiteagent.Common.{
  trim_space, fields, ◌≢◌, true, false, ◌&&◌, arith, ◌-◌, ◌^◌, ◌≡◌, refl, ◌∷◌, [], codes, ok, err,
  text_eq, trim_space, fields, contains_byte, cut, split, atoi,
}
use whiteagent.Cron.Bounds.{}
use whiteagent.Cron.Fields.{}
use whiteagent.Cron.Total.{parse_field_total}
use whiteagent.Cron.Days.{IsSound, contains, weekday, day_matches}
use whiteagent.Cron.Sound.{parse-IsSound, day_matches_lem}
use whiteagent.Cron.{
  Cron, parse, is_wild, out_of_fuel, values, expand, stepped, single, parse_part, parse_range,
  insert_keys, parse, parse_field, range_reversed, invalid_step,
}

abbrev workday_mornings : Cron
workday_mornings = record {
  minute = 0 ∷ [];
  hour = 9 ∷ [];
  dom =
      1 ∷ 2 ∷ 3 ∷ 4 ∷ 5 ∷ 6 ∷ 7 ∷ 8 ∷ 9 ∷ 10 ∷ 11 ∷ 12 ∷ 13 ∷ 14 ∷ 15 ∷ 16 ∷ 17 ∷ 18 ∷ 19 ∷ 20 ∷ 21
      ∷ 22 ∷ 23 ∷ 24 ∷ 25 ∷ 26 ∷ 27 ∷ 28 ∷ 29 ∷ 30 ∷ 31 ∷ [];
  month = 1 ∷ 2 ∷ 3 ∷ 4 ∷ 5 ∷ 6 ∷ 7 ∷ 8 ∷ 9 ∷ 10 ∷ 11 ∷ 12 ∷ [];
  dow = 1 ∷ 2 ∷ 3 ∷ 4 ∷ 5 ∷ [];
  dom_wild = true;
  dow_wild = false;
}

-- What a run of the parser computes with.
unfoldable pub test_run : Unit {0}
unfolding values expand stepped single parse_part parse_range insert_keys parse_field parse is_wild
    text_eq contains_byte cut split atoi trim_space fields
test_run = tt

every_20 : parse_field (codes "*/20") 0 59 ≡ ok (0 ∷ 20 ∷ 40 ∷ [])
unfolding test_run
every_20 = refl

union : parse_field (codes "5,1-3,2") 0 59 ≡ ok (1 ∷ 2 ∷ 3 ∷ 5 ∷ [])
unfolding test_run
union = refl

reversed : parse_field (codes "9-3") 0 59 ≡ err range_reversed
unfolding test_run
reversed = refl

negative_step : parse_field (codes "*/-2") 0 59 ≡ err invalid_step
unfolding test_run
negative_step = refl

-- The step overflows: two of the three values are negative.
huge_step : parse_field (codes "*/9223372036854775807") 1 31 ≡ ok (1 ∷ (2 ^ 63) ∷ (2 ^ 64 - 1) ∷ [])
unfolding test_run
huge_step = refl

parse_field_total_example : parse_field (codes "*/9223372036854775807") 1 31 ≢ err out_of_fuel
parse_field_total_example =
    parse_field_total (codes "*/9223372036854775807") 1 31 (omega arith) (omega arith)

workdays : parse (codes "0 9 * * 1-5") ≡ ok workday_mornings
unfolding test_run
workdays = refl

parse-IsSound_example : IsSound workday_mornings
unfolding test_run
parse-IsSound_example = parse-IsSound (codes "0 9 * * 1-5") workday_mornings refl workdays

day_matches_lem_example :
    day_matches workday_mornings 25 2026 11
    ≡ (contains workday_mornings.dom 25 && contains workday_mornings.dow (weekday 2026 11 25))
unfolding test_run
day_matches_lem_example =
    day_matches_lem workday_mornings 25 2026 11
      (parse-IsSound (codes "0 9 * * 1-5") workday_mornings refl workdays) (omega arith)
      (omega arith)
