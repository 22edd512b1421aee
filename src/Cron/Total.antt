-- ===== src/Cron/Total.antt =====
-- pkg/cron/cron.go: the fuel of the parser's loops, and steps of any size.
use whiteagent.Common.{
  ℕ, ◌+◌, ◌%◌, ◌^◌, ◌≤◌, ◌<◌, ◌≡◌, ◌≢◌, Bool-cases, inl, inr, arith, List, [], ◌∷◌, Text, text_eq,
  contains_byte, cut, split, atoi, atoi-lt, ok, err, Option-cases, and_then-err,
}
use whiteagent.Cron.{
  star, slt, values, parse_range, stepped, single, parse_part, insert_keys, parse_parts,
  parse_field, out_of_fuel,
}
use whiteagent.Cron.Bounds.{expand_overflow}
use whiteagent.Cron.Fields.{values_total, parse_range_bounds}

parse_range_total : (s : Text) (lo hi : ℕ) → parse_range s lo hi ≢ err out_of_fuel
unfolding parse_range
parse_range_total s lo hi e = ground arith

stepped_total :
    (base text : Text) (lo hi : ℕ) → lo ≤ hi → hi < 60 → stepped base text lo hi ≢ err out_of_fuel
unfolding stepped
stepped_total base text lo hi a b e = elim (Option-cases (atoi text)) [
  | inl n ↦ ground (arith, n)
  | inr (step, s) ↦ elim (Bool-cases (slt 0 step)) [
    | inr bad ↦ ground (arith, s, bad)
    | inl good ↦
        let pos : (0 < step) × (step < 2 ^ 63) = ground (arith, good, atoi-lt text s) in
        elim (Bool-cases (text_eq base star)) [
          | inl wild ↦ values_total lo hi step a b pos.0 pos.1 (ground (arith, s, good, wild))
          | inr given ↦
              elim (and_then-err (parse_range base lo hi) (λ range. values range.0 range.1 step)
                {reason = out_of_fuel} (ground (arith, s, good, given))) [
                  | inl q ↦ parse_range_total base lo hi q
                  | inr (r, q, q') ↦
                      let (x, y, z) = parse_range_bounds base lo hi r (omega arith) a q in
                      values_total r.0 r.1 step y (omega arith) pos.0 pos.1 q'
                ]
        ]
  ]
]

parse_part_total :
    (field : Text) (lo hi : ℕ) → lo ≤ hi → hi < 60 → parse_part field lo hi ≢ err out_of_fuel
unfolding parse_part
parse_part_total field lo hi a b e = elim (Option-cases (cut b'/' field)) [
  | inr ((base, text), c) ↦ stepped_total base text lo hi a b (ground (arith, c))
  | inl c ↦ elim (Bool-cases (text_eq field star)) [
    | inl wild ↦ values_total lo hi 1 a b (omega arith) (omega arith) (ground (arith, c, wild))
    | inr given ↦ elim (Bool-cases (contains_byte b'-' field)) [
      | inl dash ↦
          elim (and_then-err (parse_range field lo hi) (λ range. values range.0 range.1 1)
            {reason = out_of_fuel} (ground (arith, c, given, dash))) [
              | inl q ↦ parse_range_total field lo hi q
              | inr (r, q, q') ↦
                  let (x, y, z) = parse_range_bounds field lo hi r (omega arith) a q in
                  values_total r.0 r.1 1 y (omega arith) (omega arith) (omega arith) q'
            ]
      | inr plain ↦ unfold single in ground (arith, c, given, plain)
    ]
  ]
]

parse_parts_total :
    (parts : List Text) (lo hi : ℕ) (set : List ℕ)
    → lo ≤ hi
    → hi < 60
    → parse_parts parts lo hi set ≢ err out_of_fuel
unfolding parse_parts
parse_parts_total [] lo hi set a b e = cc
parse_parts_total (part ∷ parts) lo hi set a b e =
    elim (and_then-err (parse_part part lo hi) (λ us. parse_parts parts lo hi (insert_keys us set))
      {reason = out_of_fuel} e) [
        | inl q ↦ parse_part_total part lo hi a b q
        | inr (ws, q, q') ↦ parse_parts_total parts lo hi (insert_keys ws set) a b q'
      ]

-- For a range from `lo` to `hi` below 60 the loops of `parseField` end on every text: the model's
-- fuel never runs out.
pub parse_field_total :
    (field : Text) (lo hi : ℕ) → lo ≤ hi → hi < 60 → parse_field field lo hi ≢ err out_of_fuel
unfolding parse_field
parse_field_total field lo hi a b e = elim (Bool-cases (contains_byte b',' field)) [
  | inl list ↦ parse_parts_total (split b',' field) lo hi [] a b (ground (arith, list))
  | inr part ↦ parse_part_total field lo hi a b (ground (arith, part))
]

-- A step that carries the start of a range past the largest int64 makes the loop append a negative
-- number, which stands far outside of the range: the bounds that `parseField` checks do not hold.
pub values_overflow :
    (start end step : ℕ)
    → start ≤ end
    → end < 60
    → step < 2 ^ 63
    → 2 ^ 63 ≤ start + step
    → (vs : List ℕ) × (values start end step ≡ ok (start ∷ ((start + step) % 2 ^ 64) ∷ vs))
      × (2 ^ 63 ≤ (start + step) % 2 ^ 64)
unfolding values
values_overflow start end step a b c d =
    let (vs, q) = expand_overflow start end step a b c d in (vs, ground (arith, q), omega arith)
