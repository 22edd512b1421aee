-- ===== src/Cron.antt =====
-- pkg/cron/cron.go: the five fields of a cron expression, and how their text is parsed.
-- An int is the bit pattern of an int64, and a text is its bytes.
pub mod Bounds
pub mod Fields
pub mod Total
pub mod Days
pub mod Sound
pub mod Next
pub mod Tests
use whiteagent.Common.{
  ℕ, zero, suc, ◌+◌, ◌-◌, ◌%◌, ◌^◌, Bool, true, false, not, ◌&&◌, ◌||◌, Option, none, some, List,
  [], ◌∷◌, Text, codes, text_eq, trim_space, fields, contains_byte, cut, split, atoi, ltb, ◌==◌,
  if◌then◌else◌, length, is_empty, Result, ok, err, ◌>>=◌, ◌>>◌, wrap,
}

-- `a < b` on int64.
abbrev pub slt : ℕ → ℕ → Bool
slt a b = ltb ((a + 2 ^ 63) % 2 ^ 64) ((b + 2 ^ 63) % 2 ^ 64)

pub data FieldError : Type 0 where
  invalid_step invalid_range invalid_start invalid_end range_out_of_bounds range_reversed :
      FieldError
  invalid_value value_out_of_range out_of_fuel : FieldError

pub data CronError : Type 0 where
  empty_expression : CronError
  wrong_count : ℕ → CronError
  minute_error hour_error dom_error month_error dow_error : FieldError → CronError

pub record Cron : Type 0 where
  pub minute : List ℕ
  pub hour : List ℕ
  pub dom : List ℕ
  pub month : List ℕ
  pub dow : List ℕ
  pub dom_wild : Bool
  pub dow_wild : Bool

abbrev or_fail {ℓ} : {A : Type ℓ} → Option A → FieldError → Result FieldError A
or_fail none e = err e
or_fail (some a) e = ok a

abbrev guard : Bool → FieldError → Result FieldError (Unit {0})
guard true e = ok tt
guard false e = err e

-- `for v := start; v <= end; v += step { vals = append(vals, v) }`; `none` is an exhausted fuel.
pub expand : ℕ → ℕ → ℕ → ℕ → Option (List ℕ)
expand zero v end step = none
expand (suc fuel) v end step = elim (slt end v) [
  | true ↦ some []
  | false ↦ elim (expand fuel ((v + step) % 2 ^ 64) end step) [
    | none ↦ none
    | some vs ↦ some (v ∷ vs)
  ]
]

-- More rounds than any of the loops makes.
abbrev pub loop_fuel : ℕ
loop_fuel = 256

pub values : ℕ → ℕ → ℕ → Result FieldError (List ℕ)
values start end step = or_fail (expand loop_fuel start end step) out_of_fuel

pub parse_range : Text → ℕ → ℕ → Result FieldError (ℕ × ℕ)
parse_range s lo hi = do
  parts ← or_fail (cut b'-' s) invalid_range
  start ← or_fail (atoi parts.0) invalid_start
  end ← or_fail (atoi parts.1) invalid_end
  guard (not (slt start lo || slt hi end)) range_out_of_bounds
  guard (not (slt end start)) range_reversed
  ok (start, end)

abbrev pub star : Text
star = codes "*"

-- `base/step`
pub stepped : Text → Text → ℕ → ℕ → Result FieldError (List ℕ)
stepped base text lo hi = do
  step ← or_fail (atoi text) invalid_step
  guard (slt 0 step) invalid_step
  range ← if text_eq base star then ok (lo, hi) else parse_range base lo hi
  values range.0 range.1 step

pub single : Text → ℕ → ℕ → Result FieldError (List ℕ)
single field lo hi = do
  v ← or_fail (atoi field) invalid_value
  guard (not (slt v lo || slt hi v)) value_out_of_range
  ok (v ∷ [])

-- `parseField` below its test for a comma.
pub parse_part : Text → ℕ → ℕ → Result FieldError (List ℕ)
parse_part field lo hi = elim (cut b'/' field) [
  | some (base, text) ↦ stepped base text lo hi
  | none ↦
      if text_eq field star
      then values lo hi 1
      else if contains_byte b'-' field
      then (parse_range field lo hi >>= λ range. values range.0 range.1 1)
      else single field lo hi
]

-- A key of the set, put into the order of `sortedKeys`.
pub insert_key : ℕ → List ℕ → List ℕ
insert_key v [] = v ∷ []
insert_key v (w ∷ ws) =
    if v == w then w ∷ ws else if slt v w then v ∷ w ∷ ws else w ∷ insert_key v ws

pub insert_keys : List ℕ → List ℕ → List ℕ
unfolding insert_key
insert_keys [] set = set
insert_keys (v ∷ vs) set = insert_keys vs (insert_key v set)

-- The loop over the parts of a list; a part holds no comma, so `parseField` makes no deeper call.
pub parse_parts : List Text → ℕ → ℕ → List ℕ → Result FieldError (List ℕ)
parse_parts [] lo hi set = ok set
parse_parts (part ∷ parts) lo hi set =
    parse_part part lo hi >>= λ vs. parse_parts parts lo hi (insert_keys vs set)

pub parse_field : Text → ℕ → ℕ → Result FieldError (List ℕ)
unfolding parse_parts
parse_field field lo hi =
    if contains_byte b',' field
    then parse_parts (split b',' field) lo hi []
    else parse_part field lo hi

pub is_wild : Text → ℕ → ℕ → Bool
unfolding parse_field
is_wild field lo hi = elim (parse_field field lo hi) [
  | ok vals ↦ length vals == hi - lo + 1
  | err e ↦ false
]

pub parse_fields : List Text → Result CronError Cron
unfolding parse_field is_wild
parse_fields (f0 ∷ f1 ∷ f2 ∷ f3 ∷ f4 ∷ []) = do
  minute ← wrap minute_error (parse_field f0 0 59)
  hour ← wrap hour_error (parse_field f1 0 23)
  dom ← wrap dom_error (parse_field f2 1 31)
  month ← wrap month_error (parse_field f3 1 12)
  dow ← wrap dow_error (parse_field f4 0 6)
  ok (record {
    minute = minute;
    hour = hour;
    dom = dom;
    month = month;
    dow = dow;
    dom_wild = is_wild f2 1 31;
    dow_wild = is_wild f4 0 6;
  })
parse_fields fs = err (wrong_count (length fs))

unfoldable pub parse : Text → Result CronError Cron
unfolding parse_fields
parse expr =
    let s = trim_space expr in if is_empty s then err empty_expression else parse_fields (fields s)
