-- ===== src/Pool/Sorting.antt =====
-- Sorted lists of texts, as sort.Strings in pkg/plugins/sandbox/docker/pool.go makes them: the order, and
-- the one sorted list of given items.
use whiteagent.Common.{
  ℕ, suc, ◌+◌, ◌<◌, true, Bool-cases, inl, inr, List, [], ◌∷◌, Text, text_eq, text_eq_refl, text_le,
  text_eq_sound, text_le, text_le_refl, text_le_total, text_le_trans, text_le_antisymm, length, All,
  if◌then◌else◌, ◌≡◌, refl, sym, ap, ◌∙◌, subst, arith,
}
use whiteagent.Pool.Binds.{insert_sorted, sort_strings}

-- How often a text is in a list.
abbrev pub count : Text → List Text → ℕ
count t [] = 0
count t (s ∷ ss) = (if text_eq t s then 1 else 0) + count t ss

-- Two lists hold the same texts, each as often.
abbrev pub SameItems : List Text → List Text → Type 0
SameItems xs ys = (t : Text) → count t xs ≡ count t ys

abbrev pub Below : Text → List Text → Type 0
Below s ts = All (λ t. text_le s t ≡ true) ts

abbrev pub IsSorted : List Text → Type 0
IsSorted [] = Unit
IsSorted (s ∷ ss) = Below s ss × IsSorted ss

Below-trans : (s t : Text) (us : List Text) → text_le s t ≡ true → Below t us → Below s us
Below-trans s t [] h b = tt
Below-trans s t (u ∷ us) h b = (text_le_trans s t u h b.0, Below-trans s t us h b.1)

insert_sorted-Below :
    (b s : Text) (ss : List Text) → text_le b s ≡ true → Below b ss → Below b (insert_sorted s ss)
unfolding insert_sorted
insert_sorted-Below b s [] h k = (h, tt)
insert_sorted-Below b s (t ∷ ts) h k = elim (Bool-cases (text_le s t)) [
  | inl first ↦ rw first (h, k)
  | inr after ↦ rw after (k.0, insert_sorted-Below b s ts h k.1)
]

insert_sorted-IsSorted : (s : Text) (ss : List Text) → IsSorted ss → IsSorted (insert_sorted s ss)
unfolding insert_sorted
insert_sorted-IsSorted s [] h = (tt, tt)
insert_sorted-IsSorted s (t ∷ ts) h = elim (Bool-cases (text_le s t)) [
  | inl first ↦ rw first ((first, Below-trans s t ts first h.0), h)
  | inr after ↦
      rw after
        (insert_sorted-Below t s ts (text_le_total s t after) h.0, insert_sorted-IsSorted s ts h.1)
]

insert_sorted-count :
    (t s : Text) (ss : List Text)
    → count t (insert_sorted s ss) ≡ (if text_eq t s then 1 else 0) + count t ss
unfolding insert_sorted
insert_sorted-count t s [] = refl
insert_sorted-count t s (u ∷ us) = elim (Bool-cases (text_le s u)) [
  | inl first ↦ rw first refl
  | inr after ↦ rw after (omega (arith, insert_sorted-count t s us))
]

pub sort_strings-IsSorted : (ss : List Text) → IsSorted (sort_strings ss)
unfolding sort_strings
sort_strings-IsSorted [] = tt
sort_strings-IsSorted (s ∷ ss) =
    insert_sorted-IsSorted s (sort_strings ss) (sort_strings-IsSorted ss)

pub sort_strings-SameItems : (ss : List Text) → SameItems (sort_strings ss) ss
unfolding sort_strings
sort_strings-SameItems [] t = refl
sort_strings-SameItems (s ∷ ss) t =
    omega (arith, insert_sorted-count t s (sort_strings ss), sort_strings-SameItems ss t)

insert_sorted-length : (s : Text) (ss : List Text) → length (insert_sorted s ss) ≡ suc (length ss)
unfolding insert_sorted
insert_sorted-length s [] = refl
insert_sorted-length s (t ∷ ts) = elim (Bool-cases (text_le s t)) [
  | inl first ↦ rw first refl
  | inr after ↦ rw after (omega (arith, insert_sorted-length s ts))
]

pub length-sort_strings : (ss : List Text) → length (sort_strings ss) ≡ length ss
unfolding sort_strings
length-sort_strings [] = refl
length-sort_strings (s ∷ ss) =
    insert_sorted-length s (sort_strings ss) ∙ ap suc (length-sort_strings ss)

-- A text of the list is not below a bound of it.
Below-count : (b t : Text) (ss : List Text) → Below b ss → 0 < count t ss → text_le b t ≡ true
Below-count b t [] h k = absurd (omega arith)
Below-count b t (s ∷ ss) h k = elim (Bool-cases (text_eq t s)) [
  | inl same ↦ subst (λ u. text_le b u ≡ true) (sym (text_eq_sound t s same)) h.0
  | inr other ↦ Below-count b t ss h.1 (ground (arith, other, k))
]

count_self : (s : Text) (ss : List Text) → 0 < count s (s ∷ ss)
count_self s ss = ground (arith, text_eq_refl s)

-- The head of a sorted list is not above a text of it.
head-le :
    (s t : Text) (ss : List Text) → IsSorted (s ∷ ss) → 0 < count t (s ∷ ss) → text_le s t ≡ true
head-le s t ss h k = Below-count s t (s ∷ ss) (text_le_refl s, h.0) k

-- Sorted lists of the same items are equal.
pub sorted_unique : (xs ys : List Text) → IsSorted xs → IsSorted ys → SameItems xs ys → xs ≡ ys
sorted_unique [] [] hx hy same = refl
sorted_unique [] (y ∷ ys) hx hy same = absurd (omega (arith, same y, count_self y ys))
sorted_unique (x ∷ xs) [] hx hy same = absurd (omega (arith, same x, count_self x xs))
sorted_unique (x ∷ xs) (y ∷ ys) hx hy same =
    let heads : x ≡ y =
      text_le_antisymm x y (head-le x y xs hx (omega (arith, same y, count_self y ys)))
        (head-le y x ys hy (omega (arith, same x, count_self x xs))) in
    let same' : SameItems (x ∷ xs) (x ∷ ys) =
      subst (λ z. SameItems (x ∷ xs) (z ∷ ys)) (sym heads) same in
    ap (λ z. z ∷ xs) heads
    ∙ ap (λ zs. y ∷ zs) (sorted_unique xs ys hx.1 hy.1 (λ t. omega (arith, same' t)))
