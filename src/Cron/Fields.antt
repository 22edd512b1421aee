-- ===== src/Cron/Fields.antt =====
-- pkg/cron/cron.go: the values that `parseField` returns.
use whiteagent.Common.{
  ℕ, suc, ◌+◌, ◌^◌, ◌≤◌, ◌<◌, ◌≡◌, ◌≢◌, Bool, true, ◌&&◌, Bool-cases, inl, inr, arith, none, some,
  List, [], ◌∷◌, Text, text_eq, contains_byte, cut, split, atoi, atoi-lt, ok, err, ltb,
  if◌then◌else◌, Option-cases, and_then-ok,
}
use whiteagent.Cron.{
  star, slt, expand, values, loop_fuel, parse_range, stepped, single, parse_part, insert_key,
  insert_keys, parse_parts, parse_field, out_of_fuel,
}
use whiteagent.Cron.Bounds.{Within, Fits, Within-weaken, expand-Within, expand_total}

-- The step of a part, if it has one, keeps the values up to `hi` within an int64.
abbrev pub step_fits : ℕ → Text → Bool
step_fits hi part = elim (cut b'/' part) [
  | none ↦ true
  | some (base, text) ↦ elim (atoi text) [ none ↦ true | some step ↦ ltb (hi + step) (2 ^ 63) ]
]

abbrev pub steps_fit : ℕ → List Text → Bool
steps_fit hi [] = true
steps_fit hi (part ∷ parts) = step_fits hi part && steps_fit hi parts

abbrev pub field_fits : ℕ → Text → Bool
field_fits hi field =
    if contains_byte b',' field then steps_fit hi (split b',' field) else step_fits hi field

pub parse_range_bounds :
    (s : Text) (lo hi : ℕ) (r : ℕ × ℕ)
    → hi < 2 ^ 63
    → lo ≤ hi
    → parse_range s lo hi ≡ ok r
    → (lo ≤ r.0) × (r.0 ≤ r.1) × (r.1 ≤ hi)
unfolding parse_range
parse_range_bounds s lo hi r h k e = elim (Option-cases (cut b'-' s)) [
  | inl n ↦ ground (arith, n)
  | inr ((a, b), q) ↦ elim (Option-cases (atoi a)) [
    | inl n ↦ ground (arith, q, n)
    | inr (x, ex) ↦ elim (Option-cases (atoi b)) [
      | inl n ↦ ground (arith, q, ex, n)
      | inr (y, ey) ↦ ground (arith, q, ex, ey, atoi-lt a ex, atoi-lt b ey)
    ]
  ]
]

values-Within :
    (start end step : ℕ) {lo hi : ℕ} (vs : List ℕ)
    → lo ≤ start
    → end ≤ hi
    → start ≤ end
    → hi < 60
    → 0 < step
    → Fits hi step
    → values start end step ≡ ok vs
    → Within lo hi vs
unfolding values
values-Within start end step vs a b c d p f e =
    elim (Option-cases (expand loop_fuel start end step)) [
      | inl n ↦ ground (arith, n)
      | inr (ws, q) ↦
          let w = expand-Within loop_fuel start end step ws p (omega arith) (omega arith) q in
          let w' = Within-weaken ws a b w in ground (arith, q, w')
    ]

pub values_total :
    (start end step : ℕ)
    → start ≤ end
    → end < 60
    → 0 < step
    → step < 2 ^ 63
    → values start end step ≢ err out_of_fuel
unfolding values
values_total start end step a b p q e = ground (arith, (expand_total start end step a b p q).1)

stepped-Within :
    (base text : Text) (lo hi step : ℕ) (vs : List ℕ)
    → lo ≤ hi
    → hi < 60
    → atoi text ≡ some step
    → Fits hi step
    → stepped base text lo hi ≡ ok vs
    → Within lo hi vs
unfolding stepped
stepped-Within base text lo hi step vs a b s f e = elim (Bool-cases (slt 0 step)) [
  | inr bad ↦ ground (arith, s, bad)
  | inl good ↦
      let pos : 0 < step = ground (arith, good) in
      elim (Bool-cases (text_eq base star)) [
        | inl wild ↦
            values-Within lo hi step vs (omega arith) (omega arith) a b pos f
              (ground (arith, s, good, wild))
        | inr given ↦
            let (r, q, q') =
              and_then-ok (parse_range base lo hi) (λ range. values range.0 range.1 step) {b = vs}
                (ground (arith, s, good, given)) in
            let (x, y, z) = parse_range_bounds base lo hi r (omega arith) a q in
            values-Within r.0 r.1 step vs x z y b pos f q'
      ]
]

single-Within :
    (field : Text) (lo hi : ℕ) (vs : List ℕ)
    → lo ≤ hi
    → hi < 60
    → single field lo hi ≡ ok vs
    → Within lo hi vs
unfolding single
single-Within field lo hi vs a b e = elim (Option-cases (atoi field)) [
  | inl n ↦ ground (arith, n)
  | inr (v, q) ↦ ground (arith, q, atoi-lt field q)
]

parse_part-Within :
    (field : Text) (lo hi : ℕ) (vs : List ℕ)
    → lo ≤ hi
    → hi < 60
    → step_fits hi field ≡ true
    → parse_part field lo hi ≡ ok vs
    → Within lo hi vs
unfolding parse_part
parse_part-Within field lo hi vs a b f e = elim (Option-cases (cut b'/' field)) [
  | inr ((base, text), c) ↦ elim (Option-cases (atoi text)) [
    | inr (step, s) ↦
        stepped-Within base text lo hi step vs a b s (ground (arith, c, s)) (ground (arith, c))
    | inl n ↦ unfold stepped in ground (arith, c, n)
  ]
  | inl c ↦ elim (Bool-cases (text_eq field star)) [
    | inl wild ↦
        values-Within lo hi 1 vs (omega arith) (omega arith) a b (omega arith) (omega arith)
          (ground (arith, c, wild))
    | inr given ↦ elim (Bool-cases (contains_byte b'-' field)) [
      | inl dash ↦
          let (r, q, q') =
            and_then-ok (parse_range field lo hi) (λ range. values range.0 range.1 1) {b = vs}
              (ground (arith, c, given, dash)) in
          let (x, y, z) = parse_range_bounds field lo hi r (omega arith) a q in
          values-Within r.0 r.1 1 vs x z y b (omega arith) (omega arith) q'
      | inr plain ↦ single-Within field lo hi vs a b (ground (arith, c, given, plain))
    ]
  ]
]

insert_key-Within :
    (v lo hi : ℕ) (ws : List ℕ)
    → lo ≤ v
    → v ≤ hi
    → hi < 60
    → Within lo hi ws
    → Within lo hi (insert_key v ws)
unfolding insert_key
insert_key-Within v lo hi [] a b c w = (a, b, tt)
insert_key-Within v lo hi (x ∷ ws) a b c w = ground (
  arith,
  insert_key-Within v (suc x) hi ws,
  Within-weaken {lo = suc x} {lo' = suc x} {hi = hi} {hi' = hi} ws,
)

insert_keys-Within :
    (vs set : List ℕ) (lo lo' hi : ℕ)
    → hi < 60
    → lo ≤ lo'
    → Within lo' hi vs
    → Within lo hi set
    → Within lo hi (insert_keys vs set)
unfolding insert_keys
insert_keys-Within [] set lo lo' hi c l w s = s
insert_keys-Within (v ∷ vs) set lo lo' hi c l w s =
    insert_keys-Within vs (insert_key v set) lo (suc v) hi c (omega arith) w.2
      (insert_key-Within v lo hi set (omega arith) w.1 c s)

parse_parts-Within :
    (parts : List Text) (lo hi : ℕ) (set vs : List ℕ)
    → lo ≤ hi
    → hi < 60
    → steps_fit hi parts ≡ true
    → Within lo hi set
    → parse_parts parts lo hi set ≡ ok vs
    → Within lo hi vs
unfolding parse_parts
parse_parts-Within [] lo hi set vs a b f s e = ground (arith, s)
parse_parts-Within (part ∷ parts) lo hi set vs a b f s e =
    let (ws, q, q') =
      and_then-ok (parse_part part lo hi) (λ us. parse_parts parts lo hi (insert_keys us set))
        {b = vs} e in
    let w = parse_part-Within part lo hi ws a b (ground (arith, f)) q in
    parse_parts-Within parts lo hi (insert_keys ws set) vs a b (ground (arith, f))
      (insert_keys-Within ws set lo lo hi b (omega arith) w s) q'

-- What a field is parsed to, for a range from `lo` to `hi` below 60, is ascending, without
-- repetition and within the range, if each step in the text plus `hi` is an int64.
pub parse_field-Within :
    (field : Text) (lo hi : ℕ) (vs : List ℕ)
    → lo ≤ hi
    → hi < 60
    → field_fits hi field ≡ true
    → parse_field field lo hi ≡ ok vs
    → Within lo hi vs
unfolding parse_field
parse_field-Within field lo hi vs a b f e = elim (Bool-cases (contains_byte b',' field)) [
  | inl list ↦
      parse_parts-Within (split b',' field) lo hi [] vs a b (ground (arith, list)) tt
        (ground (arith, list))
  | inr part ↦ parse_part-Within field lo hi vs a b (ground (arith, part)) (ground (arith, part))
]
