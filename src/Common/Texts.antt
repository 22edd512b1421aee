-- ===== src/Common/Texts.antt =====
-- Go strings as lists of bytes: literals, equality, and what the program uses of package strings.
use Prim.Native.Nat.{ℕ, zero, suc, ◌+◌, ◌-◌, ◌*◌, ◌%◌, ◌^◌, ◌<◌}
use Prim.Native.Char.{code}
use Prim.Native.String.{String}
use mathlib.Core.Bool.{Bool, true, false, ◌&&◌, ◌||◌}
use mathlib.Core.List.{List, [], ◌∷◌, ◌++◌, reverse}
use mathlib.Core.Logic.{◌↔◌, ◌≢◌, ◌⊎◌, inl, inr}
use mathlib.Core.Option.{Option, none, some}
use mathlib.Core.Path.{◌≡◌, refl, ap, subst}
use native.Mathlib.Omega.{arith}
use whiteagent.Common.Lists.{length}
use whiteagent.Common.Tests.{◌==◌, leb, ltb, if◌then◌else◌, Bool-cases}

abbrev pub Text : Type 0
Text = List ℕ

-- The bytes of an ASCII literal.
abbrev pub codes : String → Text
codes String.[] = []
codes (String.◌∷◌ c s) = code c ∷ codes s

-- `a == b` on strings.
unfoldable pub text_eq : Text → Text → Bool
text_eq [] [] = true
text_eq (a ∷ s) (b ∷ t) = a == b && text_eq s t
text_eq _ _ = false

pub text_eq_refl : (s : Text) → text_eq s s ≡ true
unfolding text_eq
text_eq_refl [] = refl
text_eq_refl (a ∷ s) = ground (arith, text_eq_refl s)

pub text_eq_sound : (s t : Text) → text_eq s t ≡ true → s ≡ t
unfolding text_eq
text_eq_sound [] [] h = refl
text_eq_sound [] (b ∷ t) h = cc
text_eq_sound (a ∷ s) [] h = cc
text_eq_sound (a ∷ s) (b ∷ t) h = ground (arith, text_eq_sound s t)

pub text_eq_iff : (s t : Text) → (text_eq s t ≡ true) ↔ (s ≡ t)
text_eq_iff s t = (text_eq_sound s t, λ e. rw e (text_eq_refl t))

pub text_eq_ne : (s t : Text) → s ≢ t → text_eq s t ≡ false
text_eq_ne s t h = ground (arith, text_eq_sound s t)

pub text_cases : (s t : Text) → (s ≡ t) ⊎ (s ≢ t)
text_cases s t = elim (Bool-cases (text_eq s t)) [
  | inl same ↦ inl (text_eq_sound s t same)
  | inr other ↦ inr (λ e.
      let yes' : text_eq s t ≡ true = subst (λ x. text_eq s x ≡ true) e (text_eq_refl s) in
      absurd (ground (arith, yes', other)))
]

-- The white space of package strings within ASCII.
abbrev is_space : ℕ → Bool
is_space c = c == 32 || (leb 9 c && leb c 13)

trim_left : Text → Text
trim_left [] = []
trim_left (c ∷ s) = if is_space c then trim_left s else c ∷ s

-- strings.TrimSpace
unfoldable pub trim_space : Text → Text
unfolding trim_left
trim_space s = reverse (trim_left (reverse (trim_left s)))

-- What `fields` keeps: the word that is being read, reversed, if there is one.
flush : Text → List Text → List Text
flush [] rest = rest
flush (c ∷ w) rest = reverse (c ∷ w) ∷ rest

fields_from : Text → Text → List Text
unfolding flush
fields_from w [] = flush w []
fields_from w (c ∷ s) = elim (is_space c) [
  | true ↦ flush w (fields_from [] s)
  | false ↦ fields_from (c ∷ w) s
]

-- strings.Fields
unfoldable pub fields : Text → List Text
unfolding fields_from
fields s = fields_from [] s

-- strings.Contains with a needle of one byte
unfoldable pub contains_byte : ℕ → Text → Bool
contains_byte b [] = false
contains_byte b (c ∷ s) = c == b || contains_byte b s

-- strings.SplitN(s, sep, 2): what stands before the first separator, and what stands after it.
unfoldable pub cut : ℕ → Text → Option (Text × Text)
cut b [] = none
cut b (c ∷ s) =
    if c == b then some ([], s) else elim (cut b s) [ none ↦ none | some (l, r) ↦ some (c ∷ l, r) ]

split_from : ℕ → Text → Text → List Text
split_from b w [] = reverse w ∷ []
split_from b w (c ∷ s) = elim (c == b) [
  | true ↦ reverse w ∷ split_from b [] s
  | false ↦ split_from b (c ∷ w) s
]

-- strings.Split with a separator of one byte
unfoldable pub split : ℕ → Text → List Text
unfolding split_from
split b s = split_from b [] s

-- strings.HasPrefix
unfoldable pub has_prefix : Text → Text → Bool
has_prefix s [] = true
has_prefix [] (c ∷ p) = false
has_prefix (a ∷ s) (c ∷ p) = a == c && has_prefix s p

-- `s[:n]`
abbrev pub take_bytes : ℕ → Text → Text
take_bytes zero s = []
take_bytes (suc n) [] = []
take_bytes (suc n) (c ∷ s) = c ∷ take_bytes n s

-- `s[n:]`
abbrev pub after : ℕ → Text → Text
after zero s = s
after (suc n) [] = []
after (suc n) (c ∷ s) = after n s

pub take_bytes-append : (s t : Text) → take_bytes (length s) (s ++ t) ≡ s
take_bytes-append [] t = refl
take_bytes-append (c ∷ s) t = ap (λ r. c ∷ r) (take_bytes-append s t)

pub after-append : (s t : Text) → after (length s) (s ++ t) ≡ t
after-append [] t = refl
after-append (c ∷ s) t = after-append s t

-- Digits in base ten, most significant first.
digits_value : ℕ → Text → Option ℕ
digits_value n [] = some n
digits_value n (c ∷ s) =
    let rest = digits_value (n * 10 + (c - b'0')) s in
    if leb b'0' c && leb c b'9' then rest else none

unsigned : Text → Option ℕ
unfolding digits_value
unsigned [] = none
unsigned (c ∷ s) = digits_value 0 (c ∷ s)

-- The bit pattern of an int64, from the sign and the magnitude; `none` is out of range.
unfoldable pub signed : Bool → Option ℕ → Option ℕ
signed neg none = none
signed true (some n) = if leb n (2 ^ 63) then some ((2 ^ 64 - n) % 2 ^ 64) else none
signed false (some n) = if ltb n (2 ^ 63) then some n else none

-- strconv.Atoi; an int is the bit pattern of an int64.
unfoldable pub atoi : Text → Option ℕ
unfolding unsigned signed
atoi [] = none
atoi (c ∷ s) =
    if c == b'-'
    then signed true (unsigned s)
    else if c == b'+'
    then signed false (unsigned s)
    else signed false (unsigned (c ∷ s))

pub signed-lt : (neg : Bool) (o : Option ℕ) {n : ℕ} → signed neg o ≡ some n → n < 2 ^ 64
unfolding signed
signed-lt neg none h = cc
signed-lt true (some m) h = ground arith
signed-lt false (some m) h = ground arith

pub atoi-lt : (s : Text) {n : ℕ} → atoi s ≡ some n → n < 2 ^ 64
unfolding atoi
atoi-lt [] h = cc
atoi-lt (c ∷ s) h = ground (
  arith,
  signed-lt true (unsigned s),
  signed-lt false (unsigned s),
  signed-lt false (unsigned (c ∷ s)),
)

atoi_samples :
    (atoi (codes "-5") ≡ some (2 ^ 64 - 5))
    × (atoi (codes "+07") ≡ some 7)
    × (atoi (codes "") ≡ none)
    × (atoi (codes "9223372036854775808") ≡ none)
unfolding atoi
atoi_samples = (refl, refl, refl, refl)

fields_sample : fields (codes " a  bc ") ≡ codes "a" ∷ codes "bc" ∷ []
unfolding fields
fields_sample = refl

split_sample : split b',' (codes "1,,2") ≡ codes "1" ∷ [] ∷ codes "2" ∷ []
unfolding split
split_sample = refl

trim_sample : trim_space (codes " a b\n") ≡ codes "a b"
unfolding trim_space
trim_sample = refl
