-- ===== src/Pool/Match.antt =====
-- pkg/plugins/sandbox/docker/pool.go: `bindsMatch`, and the items of two lists of binds.
use whiteagent.Common.{
  true, false, Bool-cases, inl, inr, List, [], ◌∷◌, ◌++◌, Text, text_eq, text_eq_refl, text_le,
  text_eq_sound, contains_byte, length, All, ◌≡◌, ◌↔◌, refl, sym, ap, ◌∙◌, subst, arith,
}
use whiteagent.Pool.Binds.{insert_sorted, sort_strings, join_lines, binds_match}
use whiteagent.Pool.Sorting.{
  count, SameItems, sort_strings-IsSorted, sort_strings-SameItems, length-sort_strings,
  sorted_unique,
}

abbrev pub NoLineBreak : Text → Type 0
NoLineBreak s = contains_byte 10 s ≡ false

-- A text is cut in one way at its first line break.
cut_once :
    (s t r q : Text)
    → NoLineBreak s
    → NoLineBreak t
    → s ++ (10 ∷ r) ≡ t ++ (10 ∷ q)
    → (s ≡ t) × (r ≡ q)
unfolding contains_byte
cut_once [] [] r q h k e = (refl, cc)
cut_once [] (b ∷ t) r q h k e = absurd (ground (arith, k, e))
cut_once (a ∷ s) [] r q h k e = absurd (ground (arith, h, e))
cut_once (a ∷ s) (b ∷ t) r q h k e =
    let (p, p') = cut_once s t r q (ground (arith, h)) (ground (arith, k)) (cc) in
    (ground (arith, p, e), p')

-- Lists of as many texts without line breaks, with the same lines, are equal.
join_lines_injective :
    (xs ys : List Text)
    → length xs ≡ length ys
    → All NoLineBreak xs
    → All NoLineBreak ys
    → join_lines xs ≡ join_lines ys
    → xs ≡ ys
unfolding join_lines
join_lines_injective [] [] n h k e = refl
join_lines_injective [] (y ∷ ys) n h k e = absurd (omega arith)
join_lines_injective (x ∷ xs) [] n h k e = absurd (omega arith)
join_lines_injective (x ∷ []) (y ∷ []) n h k e = ap (λ z. z ∷ []) e
join_lines_injective (x ∷ []) (y ∷ y' ∷ ys) n h k e = absurd (omega arith)
join_lines_injective (x ∷ x' ∷ xs) (y ∷ []) n h k e = absurd (omega arith)
join_lines_injective (x ∷ x' ∷ xs) (y ∷ y' ∷ ys) n h k e =
    let (p, q) = cut_once x y (join_lines (x' ∷ xs)) (join_lines (y' ∷ ys)) h.0 k.0 e in
    let rest = join_lines_injective (x' ∷ xs) (y' ∷ ys) (omega arith) h.1 k.1 q in
    ap (λ z. z ∷ x' ∷ xs) p ∙ ap (λ zs. y ∷ zs) rest

insert_sorted-NoLineBreak :
    (s : Text) (ss : List Text)
    → NoLineBreak s
    → All NoLineBreak ss
    → All NoLineBreak (insert_sorted s ss)
unfolding insert_sorted
insert_sorted-NoLineBreak s [] h k = (h, tt)
insert_sorted-NoLineBreak s (t ∷ ts) h k = elim (Bool-cases (text_le s t)) [
  | inl first ↦ rw first (h, k)
  | inr after ↦ rw after (k.0, insert_sorted-NoLineBreak s ts h k.1)
]

sort_strings-NoLineBreak : (ss : List Text) → All NoLineBreak ss → All NoLineBreak (sort_strings ss)
unfolding sort_strings
sort_strings-NoLineBreak [] h = tt
sort_strings-NoLineBreak (s ∷ ss) h =
    insert_sorted-NoLineBreak s (sort_strings ss) h.0 (sort_strings-NoLineBreak ss h.1)

-- Lists whose sorted forms are equal are matched.
sorted-binds_match :
    (actual expected : List Text)
    → sort_strings actual ≡ sort_strings expected
    → binds_match actual expected ≡ true
unfolding binds_match
sorted-binds_match actual expected e =
    let lens : length actual ≡ length expected =
      sym (length-sort_strings actual) ∙ ap length e ∙ length-sort_strings expected in
    let lines =
      subst (λ xs. text_eq (join_lines (sort_strings actual)) (join_lines xs) ≡ true) e
        (text_eq_refl (join_lines (sort_strings actual))) in
    ground (arith, lens, lines)

-- Lists that are matched have equal sorted forms.
binds_match-sorted :
    (actual expected : List Text)
    → All NoLineBreak actual
    → All NoLineBreak expected
    → binds_match actual expected ≡ true
    → sort_strings actual ≡ sort_strings expected
unfolding binds_match
binds_match-sorted actual expected h k e =
    let lens : length actual ≡ length expected = ground (arith, e) in
    let lines : text_eq (join_lines (sort_strings actual)) (join_lines (sort_strings expected))
        ≡ true =
      ground (arith, e) in
    join_lines_injective (sort_strings actual) (sort_strings expected)
      (length-sort_strings actual ∙ lens ∙ sym (length-sort_strings expected))
      (sort_strings-NoLineBreak actual h) (sort_strings-NoLineBreak expected k)
      (text_eq_sound _ _ lines)

-- For binds without line breaks `bindsMatch` holds exactly if the two lists hold the same binds, each as
-- often, in whatever order.
pub binds_match_lem :
    (actual expected : List Text)
    → All NoLineBreak actual
    → All NoLineBreak expected
    → (binds_match actual expected ≡ true) ↔ SameItems actual expected
binds_match_lem actual expected h k = (
  λ e t.
      sym (sort_strings-SameItems actual t)
      ∙ ap (count t) (binds_match-sorted actual expected h k e)
      ∙ sort_strings-SameItems expected t,
  λ same. sorted-binds_match actual expected (
      sorted_unique (sort_strings actual) (sort_strings expected) (sort_strings-IsSorted actual)
        (sort_strings-IsSorted expected)
        (λ t. sort_strings-SameItems actual t ∙ same t ∙ sym (sort_strings-SameItems expected t))),
)
