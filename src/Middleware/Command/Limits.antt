-- ===== src/Middleware/Command/Limits.antt =====
-- pkg/plugins/middleware/command/plugin.go: the limit of `/logs`, and the messages that are no commands.
use whiteagent.Common.{
  ℕ, ◌≤◌, Bool, true, false, not, ◌||◌, Bool-cases, ◌⊎◌, inl, inr, Option, none, some, List, [],
  ◌∷◌, Text, codes, text_eq_ne, has_prefix, fields, atoi, if◌then◌else◌, ◌≡◌, ◌≢◌, refl, ap, ◌∙◌,
  arith,
}
use whiteagent.Conversation.{Service}
use whiteagent.Middleware.{Role, user_role, assistant_role, other_role, Message, Handler}
use whiteagent.Middleware.Command.{
  Given, Lookup, is_user, limit_of, parse_logs_limit, trim_slash, by_words, wrap,
}

limit_of_bounds : (o : Option ℕ) → (1 ≤ limit_of o) × (limit_of o ≤ 100)
unfolding limit_of
limit_of_bounds none = ground arith
limit_of_bounds (some n) = ground arith

limit_of_exact : (n : ℕ) → 1 ≤ n → n ≤ 100 → limit_of (some n) ≡ n
unfolding limit_of
limit_of_exact n lo hi = ground arith

-- Whatever follows `/logs`, the limit is from 1 to 100; and it is the number in the second word, if that
-- is a number from 1 to 100.
pub parse_logs_limit_bounds :
    (words : List Text)
    → ((1 ≤ parse_logs_limit words) × (parse_logs_limit words ≤ 100))
      × ((command limit : Text) (more : List Text) (n : ℕ)
          → words ≡ command ∷ limit ∷ more
          → atoi limit ≡ some n
          → 1 ≤ n
          → n ≤ 100
          → parse_logs_limit words ≡ n)
parse_logs_limit_bounds words = (
  in_bounds words,
  λ command limit more n is number lo hi.
      ap parse_logs_limit is
      ∙ second command limit more
      ∙ ap limit_of number
      ∙ limit_of_exact n lo hi,
)
  where
    second :
        (command limit : Text) (more : List Text)
        → parse_logs_limit (command ∷ limit ∷ more) ≡ limit_of (atoi limit)
    second command limit more = unfold parse_logs_limit in refl

    in_bounds : (words : List Text) → (1 ≤ parse_logs_limit words) × (parse_logs_limit words ≤ 100)
    in_bounds [] = unfold parse_logs_limit in ground arith
    in_bounds (command ∷ []) = unfold parse_logs_limit in ground arith
    in_bounds (command ∷ limit ∷ more) = unfold parse_logs_limit in limit_of_bounds (atoi limit)

-- The messages that are for a command: a user's, with a first word that is `/new` or `/logs`.
abbrev pub IsCommand : Message → Type 0
IsCommand msg =
    (msg.role ≡ user_role)
    × (has_prefix msg.content (codes "/") ≡ true)
    × ((first : Text) × (more : List Text) × (fields msg.content ≡ first ∷ more)
        × ((trim_slash first ≡ codes "new") ⊎ (trim_slash first ≡ codes "logs")))

role_cases : (r : Role) → (r ≡ user_role) ⊎ (is_user r ≡ false)
role_cases user_role = inl refl
role_cases assistant_role = inr refl
role_cases other_role = inr refl

by_words-other :
    {W : Type 0} (given : Given W) (lookup : Lookup) (next : Handler (Service × W))
    (words : List Text) (msg : Message) (st : Service × W)
    → ((first : Text) (more : List Text)
        → words ≡ first ∷ more
        → (trim_slash first ≢ codes "new") × (trim_slash first ≢ codes "logs"))
    → by_words given lookup next words msg st ≡ next msg st
unfolding by_words
by_words-other given lookup next [] msg st h = refl
by_words-other given lookup next (first ∷ more) msg st h =
    let (not_new, not_logs) = h first more refl in
    let word = trim_slash first in
    rw (text_eq_ne word (codes "new") not_new) (rw (text_eq_ne word (codes "logs") not_logs) refl)

-- Any other message is given to the handler within, as it is.
pub wrap-other :
    {W : Type 0} (given : Given W) (lookup : Lookup) (next : Handler (Service × W)) (msg : Message)
    (st : Service × W)
    → ¬ IsCommand msg
    → wrap given lookup next msg st ≡ next msg st
unfolding wrap
wrap-other {W = W} given lookup next msg st no_command = elim (role_cases msg.role) [
  | inr other ↦ ap (choose (has_prefix msg.content (codes "/"))) other
  | inl user ↦ elim (Bool-cases (has_prefix msg.content (codes "/"))) [
    | inr plain ↦
        ap (choose (has_prefix msg.content (codes "/"))) (ap is_user user)
        ∙ ap (λ b. choose b true) plain
    | inl slash ↦
        ap (choose (has_prefix msg.content (codes "/"))) (ap is_user user)
        ∙ ap (λ b. choose b true) slash
        ∙ by_words-other given lookup next (fields msg.content) msg st (λ first more is. (
          λ e. no_command (user, slash, (first, more, is, inl e)),
          λ e. no_command (user, slash, (first, more, is, inr e)),
        ))
  ]
]
  where
    choose : Bool → Bool → Bool × (Service × W)
    choose slash user =
        if not user || not slash
        then next msg st
        else by_words given lookup next (fields msg.content) msg st
