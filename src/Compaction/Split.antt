-- ===== src/Compaction/Split.antt =====
-- internal/domain/service/compaction/service.go: which messages a summary covers, and which ones the next
-- compaction of the conversation starts from.
use whiteagent.Common.{
  ℕ, zero, suc, ◌+◌, ◌-◌, ◌≤◌, Bool, true, false, Bool-cases, inl, inr, Option, none, some, List,
  [], ◌∷◌, ◌++◌, append_assoc, Text, text_le, text_le_refl, text_le_total, text_le_trans, length,
  All, leb, ◌==◌, is_empty, ◌≡◌, ◌≢◌, refl, sym, ap, ◌∙◌, subst, arith,
}
use whiteagent.Compaction.{
  Past, Summary, Request, is_summarized, newer_than, trim_summarized_messages, take,
  trim_preserved_tail, last_id, new_summary, chosen,
}

-- The messages come after an identifier, in the order of identifiers.
abbrev Above : Text → List Past → Type 0
Above last ms = All (λ n. text_le n.id last ≡ false) ms

-- The identifiers are not empty, and in strictly ascending order, as UUIDv7 identifiers are made.
abbrev pub IsAscending : List Past → Type 0
IsAscending [] = Unit
IsAscending (m ∷ ms) = (is_empty m.id ≡ false) × (Above m.id ms × IsAscending ms)

abbrev drop : ℕ → List Past → List Past
drop zero ms = ms
drop (suc n) [] = []
drop (suc n) (m ∷ ms) = drop n ms

take-drop : (n : ℕ) (ms : List Past) → ms ≡ take n ms ++ drop n ms
take-drop zero ms = refl
take-drop (suc n) [] = refl
take-drop (suc n) (m ∷ ms) = ap (λ r. m ∷ r) (take-drop n ms)

length-drop : (n : ℕ) (ms : List Past) → n ≤ length ms → length (drop n ms) + n ≡ length ms
length-drop zero ms h = omega arith
length-drop (suc n) [] h = absurd (omega arith)
length-drop (suc n) (m ∷ ms) h = omega (arith, length-drop n ms)

IsAscending-suffix : (ms ns : List Past) → IsAscending (ms ++ ns) → IsAscending ns
IsAscending-suffix [] ns h = h
IsAscending-suffix (m ∷ ms) ns h = IsAscending-suffix ms ns h.1.1

Above-suffix : (a : Text) (ms ns : List Past) → Above a (ms ++ ns) → Above a ns
Above-suffix a [] ns h = h
Above-suffix a (m ∷ ms) ns h = Above-suffix a ms ns h.1

Above-prefix : (a : Text) (ms ns : List Past) → Above a (ms ++ ns) → Above a ms
Above-prefix a [] ns h = tt
Above-prefix a (m ∷ ms) ns h = (h.0, Above-prefix a ms ns h.1)

IsAscending-prefix : (ms ns : List Past) → IsAscending (ms ++ ns) → IsAscending ms
IsAscending-prefix [] ns h = tt
IsAscending-prefix (m ∷ ms) ns h =
    (h.0, (Above-prefix m.id ms ns h.1.0, IsAscending-prefix ms ns h.1.1))

-- What comes after a run of messages is above the last of them.
last-Above : (m : Past) (ms ns : List Past) → IsAscending ((m ∷ ms) ++ ns) → Above (last_id m ms) ns
last-Above m [] ns h = h.1.0
last-Above m (n ∷ ms) ns h = last-Above n ms ns h.1.1

-- A bound of a run of messages is below the last of them.
Above-last :
    (a : Text) (m : Past) (ms ns : List Past)
    → Above a ((m ∷ ms) ++ ns)
    → text_le (last_id m ms) a ≡ false
Above-last a m [] ns h = h.0
Above-last a m (n ∷ ms) ns h = Above-last a n ms ns h.1

newer_than-append :
    (last : Text) (ms ns : List Past)
    → newer_than last (ms ++ ns) ≡ newer_than last ms ++ newer_than last ns
unfolding newer_than
newer_than-append last [] ns = refl
newer_than-append last (m ∷ ms) ns = elim (Bool-cases (is_summarized last m)) [
  | inl old ↦ rw old (newer_than-append last ms ns)
  | inr new ↦ rw new (ap (λ r. m ∷ r) (newer_than-append last ms ns))
]

newer_than-Above :
    (last : Text) (ms : List Past) → IsAscending ms → Above last ms → newer_than last ms ≡ ms
unfolding newer_than
newer_than-Above last [] h k = refl
newer_than-Above last (m ∷ ms) h k =
    let new : is_summarized last m ≡ false = ground (arith, h.0, k.0) in
    rw new (ap (λ r. m ∷ r) (newer_than-Above last ms h.1.1 k.1))

-- All messages up to a given one are covered by it.
newer_than-run :
    (m : Past) (ms ns : List Past)
    → IsAscending ((m ∷ ms) ++ ns)
    → newer_than (last_id m ms) (m ∷ ms) ≡ []
unfolding newer_than
newer_than-run m [] ns h =
    let old : is_summarized m.id m ≡ true = ground (arith, text_le_refl m.id) in rw old refl
newer_than-run m (n ∷ ms) ns h =
    let le = text_le_total (last_id n ms) m.id (Above-last m.id n ms ns h.1.0) in
    let old : is_summarized (last_id n ms) m ≡ true = ground (arith, le) in
    rw old (newer_than-run n ms ns h.1.1)

-- And so are the messages before them.
newer_than-front :
    (old : List Past) (m : Past) (ms ns : List Past)
    → IsAscending (old ++ ((m ∷ ms) ++ ns))
    → newer_than (last_id m ms) (old ++ (m ∷ ms)) ≡ []
unfolding newer_than
newer_than-front [] m ms ns h = newer_than-run m ms ns h
newer_than-front (o ∷ old) m ms ns h =
    let above = Above-last o.id m ms ns (Above-suffix o.id old ((m ∷ ms) ++ ns) h.1.0) in
    let le = text_le_total (last_id m ms) o.id above in
    let covered : is_summarized (last_id m ms) o ≡ true = ground (arith, le) in
    rw covered (newer_than-front old m ms ns h.1.1)

Above-trans : (a b : Text) (ms : List Past) → text_le b a ≡ false → Above b ms → Above a ms
Above-trans a b [] lt h = tt
Above-trans a b (m ∷ ms) lt h = (by_le (text_le m.id a) refl, Above-trans a b ms lt h.1)
  where
    by_le : (x : Bool) → text_le m.id a ≡ x → x ≡ false
    by_le false e = refl
    by_le true e = absurd (ground (arith, text_le_trans m.id a b e (text_le_total b a lt), h.0))

-- The messages that are not summed up are the last ones.
newer_than-suffix :
    (last : Text) (ms : List Past)
    → IsAscending ms
    → (old : List Past) × (ms ≡ old ++ newer_than last ms)
unfolding newer_than
newer_than-suffix last [] h = ([], refl)
newer_than-suffix last (m ∷ ms) h = elim (Bool-cases (is_summarized last m)) [
  | inl old ↦
      let (front, e) = newer_than-suffix last ms h.1.1 in rw old (m ∷ front, ap (λ r. m ∷ r) e)
  | inr new ↦
      let above = Above-trans last m.id ms (ground (arith, new)) h.1.0 in
      rw new ([], ap (λ r. m ∷ r) (sym (newer_than-Above last ms h.1.1 above)))
]

trim_summarized-suffix :
    (latest : Option Summary) (ms : List Past)
    → IsAscending ms
    → (old : List Past) × (ms ≡ old ++ trim_summarized_messages ms latest)
unfolding trim_summarized_messages
trim_summarized-suffix none ms h = ([], refl)
trim_summarized-suffix (some s) ms h = elim (Bool-cases (is_empty s.message_id)) [
  | inl no_id ↦ rw no_id ([], refl)
  | inr id ↦ rw id (newer_than-suffix s.message_id ms h)
]

trim_preserved_tail-split :
    (n : ℕ) (xs : List Past) (m : Past) (ms : List Past)
    → 1 ≤ n
    → trim_preserved_tail xs n ≡ m ∷ ms
    → (kept : List Past) × (xs ≡ (m ∷ ms) ++ kept) × (length kept ≡ n)
unfolding trim_preserved_tail
trim_preserved_tail-split n xs m ms pos h = elim (Bool-cases (leb (length xs) n)) [
  | inl short ↦ absurd (nothing short h)
  | inr long ↦
      let cut = length xs - n in
      let lens = length-drop cut xs (omega arith) in
      (
        drop cut xs,
        take-drop cut xs ∙ ap (λ r. r ++ drop cut xs) (sym (the_front long) ∙ h),
        ground (arith, lens, long),
      )
]
  where
    some_kept : (n == 0) ≡ false
    some_kept = ground (arith, pos)

    no_nil : ◌≢◌ {A = List Past} [] (m ∷ ms)
    no_nil e = cc

    empty_then : leb (length xs) n ≡ true → trim_preserved_tail xs n ≡ []
    empty_then short = rw some_kept (rw short refl)

    nothing : leb (length xs) n ≡ true → trim_preserved_tail xs n ≢ m ∷ ms
    nothing short e = no_nil (sym (empty_then short) ∙ e)

    the_front : leb (length xs) n ≡ false → trim_preserved_tail xs n ≡ take (length xs - n) xs
    the_front long = rw some_kept (rw long refl)

last_id-filled :
    (m : Past) (ms ns : List Past) → IsAscending ((m ∷ ms) ++ ns) → is_empty (last_id m ms) ≡ false
last_id-filled m [] ns h = h.0
last_id-filled m (n ∷ ms) ns h = last_id-filled n ms ns h.1.1

trim_whole :
    (old : List Past) (m : Past) (ms rest whole : List Past) (id raw : Text) (req : Request)
    → whole ≡ old ++ ((m ∷ ms) ++ rest)
    → IsAscending (old ++ ((m ∷ ms) ++ rest))
    → trim_summarized_messages whole (some (new_summary id req raw m ms)) ≡ rest
unfolding trim_summarized_messages
trim_whole old m ms rest whole id raw req e h =
    let right = IsAscending-suffix old ((m ∷ ms) ++ rest) h in
    let last = last_id m ms in
    rw (last_id-filled m ms rest right) (
      ap (newer_than last) (e ∙ sym (append_assoc old (m ∷ ms) rest))
      ∙ newer_than-append last (old ++ (m ∷ ms)) rest
      ∙ ap (λ r. r ++ newer_than last rest) (newer_than-front old m ms rest h)
      ∙ newer_than-Above last rest (IsAscending-suffix (m ∷ ms) rest right)
          (last-Above m ms rest right))

-- When a compaction sums up messages, these are the first ones that no summary covers yet, and as many
-- recent ones as the configuration says are kept; and once its summary is the latest, what no summary
-- covers is exactly the messages that were kept and those that have come since. Identifiers ascend.
pub compaction_continues :
    (preserve : ℕ) (latest : Option Summary) (history since : List Past) (m : Past) (ms : List Past)
    (id raw : Text) (req : Request)
    → 1 ≤ preserve
    → IsAscending (history ++ since)
    → chosen preserve latest history ≡ m ∷ ms
    → (kept : List Past) × (trim_summarized_messages history latest ≡ (m ∷ ms) ++ kept)
      × (length kept ≡ preserve)
      × (trim_summarized_messages (history ++ since) (some (new_summary id req raw m ms))
          ≡ kept ++ since)
compaction_continues preserve latest history since m ms id raw req pos ascending picked =
    let (old, e1) =
      trim_summarized-suffix latest history (IsAscending-prefix history since ascending) in
    let left = trim_summarized_messages history latest in
    let (kept, e2, len) = trim_preserved_tail-split preserve left m ms pos picked in
    let whole : history ++ since ≡ old ++ ((m ∷ ms) ++ (kept ++ since)) =
      ap (λ h. h ++ since) (e1 ∙ ap (λ r. old ++ r) e2)
      ∙ append_assoc old ((m ∷ ms) ++ kept) since
      ∙ ap (λ r. old ++ r) (append_assoc (m ∷ ms) kept since) in
    let sorted : IsAscending (old ++ ((m ∷ ms) ++ (kept ++ since))) =
      subst IsAscending whole ascending in
    (kept, e2, len, trim_whole old m ms (kept ++ since) (history ++ since) id raw req whole sorted)
