-- ===== src/Onboarding/NewCode.antt =====
-- pkg/util/id.go: `NewInviteCode`, and how `extractCode` reads a code that it has made.
use whiteagent.Common.{
  ℕ, zero, suc, ◌%◌, ◌<◌, Bool, true, false, ◌&&◌, Option, some, none, [], ◌∷◌, ◌++◌, Text, codes,
  ◌≡◌, refl, All, ap, ◌∙◌, arith, leb,
}
use whiteagent.Onboarding.{to_upper, is_code_char, extract_code, find_code}
use whiteagent.Onboarding.Codes.{IsCode, find_code_start}

abbrev invite_charset : Text
invite_charset = codes "ABCDEFGHIJKLMNOPQRSTUVWXYZ0123456789"

-- An index out of range would panic.
char_at : Text → ℕ → Option ℕ
char_at [] i = none
char_at (c ∷ s) zero = some c
char_at (c ∷ s) (suc i) = char_at s i

abbrev or_zero : Option ℕ → ℕ
or_zero none = 0
or_zero (some c) = c

-- `inviteCharset[int(b) % len(inviteCharset)]`
unfoldable pub code_char : ℕ → ℕ
unfolding char_at
code_char b = or_zero (char_at invite_charset (b % 36))

-- The eight random bytes that `rand.Read` gives.
pub record Random : Type 0 where
  pub b0 : ℕ
  pub b1 : ℕ
  pub b2 : ℕ
  pub b3 : ℕ
  pub b4 : ℕ
  pub b5 : ℕ
  pub b6 : ℕ
  pub b7 : ℕ

unfoldable pub new_invite_code : Random → Text
new_invite_code r =
    code_char r.b0
    ∷ code_char r.b1
    ∷ code_char r.b2
    ∷ code_char r.b3
    ∷ b'-'
    ∷ code_char r.b4
    ∷ code_char r.b5
    ∷ code_char r.b6
    ∷ code_char r.b7
    ∷ []

all_below : ℕ → (ℕ → Bool) → Bool
all_below zero p = true
all_below (suc n) p = p n && all_below n p

all_below_sound : (n : ℕ) (p : ℕ → Bool) (i : ℕ) → all_below n p ≡ true → i < n → p i ≡ true
unfolding all_below
all_below_sound zero p i h lt = absurd (omega arith)
all_below_sound (suc n) p i h lt = ground (arith, all_below_sound n p i)

charset_table : all_below 36 (λ i. is_code_char (or_zero (char_at invite_charset i))) ≡ true
unfolding all_below char_at
charset_table = refl

pub code_char-IsCode : (b : ℕ) → is_code_char (code_char b) ≡ true
unfolding code_char
code_char-IsCode b = all_below_sound 36 _ (b % 36) charset_table (omega arith)

new_invite_code-IsCode : (r : Random) → IsCode (new_invite_code r)
unfolding new_invite_code
new_invite_code-IsCode r = (
  code_char-IsCode r.b0,
  code_char-IsCode r.b1,
  code_char-IsCode r.b2,
  code_char-IsCode r.b3,
  refl,
  code_char-IsCode r.b4,
  code_char-IsCode r.b5,
  code_char-IsCode r.b6,
  code_char-IsCode r.b7,
)

abbrev is_lower : ℕ → Bool
is_lower c = leb b'a' c && leb c b'z'

-- Upper case leaves a text without small letters as it is.
to_upper-append :
    (s t : Text) → All (λ c. is_lower c ≡ false) s → to_upper (s ++ t) ≡ s ++ to_upper t
unfolding to_upper
to_upper-append [] t h = refl
to_upper-append (c ∷ s) t h = ground (arith, to_upper-append s t)

code_char-upper : (b : ℕ) → is_lower (code_char b) ≡ false
code_char-upper b = ground (arith, code_char-IsCode b)

to_upper-new_invite_code :
    (r : Random) (after : Text)
    → to_upper (new_invite_code r ++ after) ≡ new_invite_code r ++ to_upper after
unfolding new_invite_code
to_upper-new_invite_code r after = to_upper-append (new_invite_code r) after (
  up r.b0,
  (up r.b1, (up r.b2, (up r.b3, (refl, (up r.b4, (up r.b5, (up r.b6, (up r.b7, tt)))))))),
)
  where
    up : (b : ℕ) → is_lower (code_char b) ≡ false
    up b = code_char-upper b

-- Whatever the random bytes, the code that is made of them is what is read from a message that starts
-- with the code, and from a message that starts with it in any mixture of upper and lower case.
pub extract_code-new_invite_code :
    (r : Random) (after : Text)
    → (extract_code (new_invite_code r ++ after) ≡ new_invite_code r)
      × ((content : Text)
          → to_upper content ≡ new_invite_code r ++ after
          → extract_code content ≡ new_invite_code r)
unfolding extract_code
extract_code-new_invite_code r after = (
  ap find_code (to_upper-new_invite_code r after)
      ∙ find_code_start (new_invite_code r) (to_upper after) (new_invite_code-IsCode r),
  λ content e.
      ap find_code e ∙ find_code_start (new_invite_code r) after (new_invite_code-IsCode r),
)
