-- ===== src/Onboarding/Messages.antt =====
-- internal/domain/service/onboarding/service.go: the messages that ask to join, the codes in them, and
-- the ways in which a method returns early.
use whiteagent.Common.{
  ℕ, Bool, false, not, ◌&&◌, Option, none, some, [], ◌∷◌, Text, codes, if◌then◌else◌, is_empty, leb,
  ◌||◌, ◌==◌, ◌-◌,
}
use whiteagent.Store.{
  Tenant, User, Invite, rejected, failed, crashed, Reply, ok, stop, M, pure, halt,
}

-- dto.IncomingMessage, as far as onboarding reads it.
pub record Incoming : Type 0 where
  pub tenant : Text
  pub user : Text
  pub chat : Text
  pub content : Text
  pub is_group : Bool
  pub agent_name : Text
  pub tenant_name : Text
  pub user_name : Text
  pub group_name : Text

pub data Action : Type 0 where
  tenant_created user_joined auto_joined user_linked tenant_linked : Action

pub record Joined : Type 0 where
  pub tenant : Option Tenant
  pub user : Option User
  pub action : Action

abbrev pub default_rejection : Text
default_rejection = codes "Please provide a valid invite code to get started."

-- Package strings' ToUpper within ASCII.
unfoldable pub to_upper : Text → Text
to_upper [] = []
to_upper (c ∷ s) = (if leb b'a' c && leb c b'z' then c - 32 else c) ∷ to_upper s

abbrev pub is_code_char : ℕ → Bool
is_code_char c = (leb b'A' c && leb c b'Z') || (leb b'0' c && leb c b'9')

unfoldable pub four : ℕ → ℕ → ℕ → ℕ → Bool
four a b c d = is_code_char a && is_code_char b && is_code_char c && is_code_char d

-- The match of `[A-Z0-9]{4}-[A-Z0-9]{4}` at the start of a text.
unfoldable pub code_at : Text → Option Text
unfolding four
code_at (a ∷ b ∷ c ∷ d ∷ m ∷ e ∷ f ∷ g ∷ h ∷ s) =
    if four a b c d && m == b'-' && four e f g h
    then some (a ∷ b ∷ c ∷ d ∷ m ∷ e ∷ f ∷ g ∷ h ∷ [])
    else none
code_at s = none

-- FindString: the leftmost match, or the empty text.
unfoldable pub find_code : Text → Text
unfolding code_at
find_code [] = []
find_code (x ∷ s) = elim (code_at (x ∷ s)) [ none ↦ find_code s | some code ↦ code ]

unfoldable pub extract_code : Text → Text
unfolding to_upper find_code
extract_code content = find_code (to_upper content)

unfoldable pub validate_code : Option Invite → Bool
validate_code none = false
validate_code (some inv) = is_empty inv.used_by && not inv.revoked

abbrev pub already_linked : Text
already_linked = codes "This workspace is already linked to a different tenant."

-- `return nil, defaultRejection, ErrRejected`
abbrev pub refuse : {A : Type 0} → M A
refuse = halt (rejected default_rejection)

-- `if err != nil { return nil, defaultRejection, ErrRejected }`
abbrev pub refused {ℓ} : {A : Type ℓ} → Reply A → Reply A
refused (ok a) = ok a
refused (stop (rejected t)) = stop (rejected t)
refused (stop failed) = stop (rejected default_rejection)
refused (stop crashed) = stop crashed

abbrev pub or_refuse : {A : Type 0} → M A → M A
or_refuse m db = (refused (m db).0, (m db).1)

-- A dereference of a pointer.
abbrev pub deref : {A : Type 0} → Option A → M A
deref none = halt crashed
deref (some a) = pure a

-- `if user == nil { return nil, defaultRejection, ErrRejected }`
abbrev pub present : {A : Type 0} → Option A → M A
present none = refuse
present (some a) = pure a

-- `existing, _ := ...`: on an error the value is nil.
abbrev pub or_none {ℓ} : {A : Type ℓ} → Reply (Option A) → Reply (Option A)
or_none (ok o) = ok o
or_none (stop s) = ok none

abbrev pub ignore_error : {A : Type 0} → M (Option A) → M (Option A)
ignore_error m db = (or_none (m db).0, (m db).1)

-- `if err == nil && !existingTID.IsEmpty() ...`: on an error the test fails, as for the empty tenant.
abbrev pub or_empty : Reply Text → Reply Text
or_empty (ok t) = ok t
or_empty (stop s) = ok []

abbrev pub ignore_failure : M Text → M Text
ignore_failure m db = (or_empty (m db).0, (m db).1)

abbrev pub first_four : Text → Text
first_four (a ∷ b ∷ c ∷ d ∷ s) = a ∷ b ∷ c ∷ d ∷ []
first_four s = s

abbrev pub owner : Option User → Text
owner none = []
owner (some u) = u.id
