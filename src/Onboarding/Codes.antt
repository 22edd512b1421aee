-- ===== src/Onboarding/Codes.antt =====
-- internal/domain/service/onboarding/service.go: `extractCode`.
use whiteagent.Common.{
  ℕ, true, Bool-cases, Option-cases, inl, inr, none, some, [], ◌∷◌, ◌++◌, Text, ◌≡◌, ◌≢◌, refl,
  arith, ◌&&◌, ◌==◌, ap, subst, sym, ◌∙◌,
}
use whiteagent.Onboarding.{four, is_code_char, code_at, find_code, to_upper, extract_code}

-- Four characters, a dash, four characters.
abbrev pub IsCode : Text → Type 0
IsCode (a ∷ b ∷ c ∷ d ∷ m ∷ e ∷ f ∷ g ∷ h ∷ []) =
    (is_code_char a ≡ true)
    × (is_code_char b ≡ true)
    × (is_code_char c ≡ true)
    × (is_code_char d ≡ true)
    × (m ≡ b'-')
    × (is_code_char e ≡ true)
    × (is_code_char f ≡ true)
    × (is_code_char g ≡ true)
    × (is_code_char h ≡ true)
IsCode s = ⊥

IsCode-ne-nil : (code : Text) → IsCode code → code ≢ []
IsCode-ne-nil [] p e = p
IsCode-ne-nil (c ∷ s) p e = cc

four_chars :
    (a b c d : ℕ)
    → four a b c d ≡ true
    → (is_code_char a ≡ true)
      × (is_code_char b ≡ true)
      × (is_code_char c ≡ true)
      × (is_code_char d ≡ true)
unfolding four
four_chars a b c d h = ground arith

-- A match is a code at the start of the text.
StartsWith : Text → Text → Type 0
StartsWith s code = IsCode code × ((after : Text) × (s ≡ code ++ after))

code_at-StartsWith : (s code : Text) → code_at s ≡ some code → StartsWith s code
unfolding code_at StartsWith
code_at-StartsWith (a ∷ b ∷ c ∷ d ∷ m ∷ e ∷ f ∷ g ∷ h ∷ s) code q =
    elim (Bool-cases (four a b c d && m == b'-' && four e f g h)) [
      | inr bad ↦ ground (arith, bad)
      | inl good ↦
          let parts : (four a b c d ≡ true) × (m ≡ b'-') × (four e f g h ≡ true) =
            ground (arith, good) in
          let left = four_chars a b c d parts.0 in
          let right = four_chars e f g h parts.2 in
          let whole : a ∷ b ∷ c ∷ d ∷ m ∷ e ∷ f ∷ g ∷ h ∷ [] ≡ code = ground (arith, good) in
          subst (StartsWith (a ∷ b ∷ c ∷ d ∷ m ∷ e ∷ f ∷ g ∷ h ∷ s)) whole (
            (left.0, left.1, left.2, left.3, parts.1, right.0, right.1, right.2, right.3),
            (s, refl),
          )
    ]
code_at-StartsWith _ code q = cc

code_at_complete : (code after : Text) → IsCode code → code_at (code ++ after) ≡ some code
unfolding code_at
code_at_complete (a ∷ b ∷ c ∷ d ∷ m ∷ e ∷ f ∷ g ∷ h ∷ []) after p = ground arith
code_at_complete _ after p = absurd p

StartsWith-IsCode : (s code : Text) → StartsWith s code → IsCode code
unfolding StartsWith
StartsWith-IsCode s code h = h.0

-- A code stands somewhere in a text.
abbrev pub Holds : Text → Text → Type 0
Holds s code = IsCode code × ((before : Text) × (after : Text) × (s ≡ before ++ (code ++ after)))

Holds-cons : (x : ℕ) (s code : Text) → Holds s code → Holds (x ∷ s) code
Holds-cons x s code (p, (before, after, q)) = (p, (x ∷ before, after, ap (λ t. x ∷ t) q))

StartsWith-Holds : (s code : Text) → StartsWith s code → Holds s code
unfolding StartsWith
StartsWith-Holds s code (p, (after, q)) = (p, ([], after, q))

find_code_miss : (x : ℕ) (s : Text) → code_at (x ∷ s) ≡ none → find_code (x ∷ s) ≡ find_code s
unfolding find_code
find_code_miss x s e = ground (arith, e)

find_code_hit : (x : ℕ) (s code : Text) → code_at (x ∷ s) ≡ some code → find_code (x ∷ s) ≡ code
unfolding find_code
find_code_hit x s code e = ground (arith, e)

find_code_sound : (s : Text) → find_code s ≢ [] → Holds s (find_code s)
find_code_sound [] h = unfold find_code in absurd (h refl)
find_code_sound (x ∷ s) h = elim (Option-cases (code_at (x ∷ s))) [
  | inl miss ↦
      let same = find_code_miss x s miss in
      subst (Holds (x ∷ s)) (sym same)
        (Holds-cons x s (find_code s) (find_code_sound s (λ e. h (same ∙ e))))
  | inr (code, q) ↦
      subst (Holds (x ∷ s)) (sym (find_code_hit x s code q))
        (StartsWith-Holds (x ∷ s) code (code_at-StartsWith (x ∷ s) code q))
]

find_code_complete :
    (before code after : Text) → IsCode code → find_code (before ++ (code ++ after)) ≢ []
find_code_complete [] [] after p e = p
find_code_complete [] (c ∷ code) after p e =
    IsCode-ne-nil (c ∷ code) p
      (sym (find_code_hit c (code ++ after) (c ∷ code) (code_at_complete (c ∷ code) after p)) ∙ e)
find_code_complete (x ∷ before) code after p e =
    elim (Option-cases (code_at (x ∷ before ++ (code ++ after)))) [
      | inl miss ↦ find_code_complete before code after p (sym (find_code_miss x _ miss) ∙ e)
      | inr (found, q) ↦
          IsCode-ne-nil found (StartsWith-IsCode _ found (code_at-StartsWith _ found q))
            (sym (find_code_hit x _ found q) ∙ e)
    ]

-- What is read from a message, if it is not empty, is a code that its text in upper case has; and it is
-- not empty, if the text in upper case has a code.
pub extract_code_lem :
    (content : Text)
    → (extract_code content ≢ [] → Holds (to_upper content) (extract_code content))
      × ((code : Text) → Holds (to_upper content) code → extract_code content ≢ [])
unfolding extract_code
extract_code_lem content =
    (find_code_sound (to_upper content), λ code h. complete (to_upper content) code h)
  where
    complete : (s code : Text) → Holds s code → find_code s ≢ []
    complete s code (p, (before, after, q)) =
        subst (λ t. find_code t ≢ []) (sym q) (find_code_complete before code after p)

-- A text that starts with a code is read as that code.
pub find_code_start : (code after : Text) → IsCode code → find_code (code ++ after) ≡ code
find_code_start [] after p = absurd p
find_code_start (c ∷ code) after p =
    find_code_hit c (code ++ after) (c ∷ code) (code_at_complete (c ∷ code) after p)
