-- ===== src/Onboarding/Once.antt =====
-- internal/domain/service/onboarding/service.go: a code that is presented twice.
use whiteagent.Common.{
  ℕ, false, Bool-cases, inl, inr, Option, none, some, List, [], ◌∷◌, Text, text_eq, ◌≡◌, ◌≢◌, refl,
  subst, ◌∙◌, arith, is_empty,
}
use whiteagent.Store.{
  Db, Invite, rejected, ok, stop, M, resume, find_row, update_rows, redeemable, get_invite,
}
use whiteagent.Store.Laws.{Redeemed, get_invite-cases}
use whiteagent.Onboarding.{
  Incoming, Joined, checked, join_with_code, try_join, extract_code, validate_code,
  default_rejection,
}
use whiteagent.Onboarding.Redeem.{join_with_code-Redeems}

-- Once the redeemable rows of a code are marked, no row of it passes the check.
validate-marked :
    (code user : Text) (rows : List Invite)
    → user ≢ []
    → validate_code (
        find_row
          (λ i. text_eq i.code code)
          (update_rows (redeemable code) (λ r. record r { used_by = user }) rows))
      ≡ false
unfolding validate_code find_row update_rows
validate-marked code user [] h = refl
validate-marked code [] (r ∷ rows) h = absurd (h refl)
validate-marked code (u ∷ us) (r ∷ rows) h = ground (arith, validate-marked code (u ∷ us) rows h)

module _ (name : ℕ → Text) where
  checked_invalid :
      (channel code : Text) (o : Option Invite) (msg : Incoming) (db : Db)
      → validate_code o ≡ false
      → (checked name channel code o msg db).0 ≡ stop (rejected default_rejection)
  unfolding checked
  checked_invalid channel code none msg db h = refl
  checked_invalid channel code (some inv) msg db h = rw h

  -- If no row of the code passes the check, whoever presents it is rejected.
  join_with_code_invalid :
      (channel code : Text) (msg : Incoming) (db : Db)
      → validate_code (find_row (λ i. text_eq i.code code) db.invites) ≡ false
      → (join_with_code name channel code msg db).0 ≡ stop (rejected default_rejection)
  unfolding join_with_code
  join_with_code_invalid channel code msg db h = elim (get_invite-cases code db) [
    | inl found ↦ rw (found, resume) (checked_invalid channel code _ msg (get_invite code db).1 h)
    | inr broken ↦ rw (broken, resume) refl
  ]

  try_join-code :
      (channel : Text) (msg : Incoming) (tenant : Text)
      → extract_code msg.content ≢ []
      → try_join name channel msg tenant
        ≡ join_with_code name channel (extract_code msg.content) msg
  unfolding try_join
  try_join-code channel msg tenant h = elim (Bool-cases (is_empty (extract_code msg.content))) [
    | inl bare ↦ absurd (ground (arith, bare, h))
    | inr set ↦ rw set
  ]

Redeemed-invalid :
    (code user : Text) (before after later : Db)
    → user ≢ []
    → later.invites ≡ after.invites
    → Redeemed code user before after
    → validate_code (find_row (λ i. text_eq i.code code) later.invites) ≡ false
Redeemed-invalid code user before after later given kept (i, found, marked) =
    rw (kept ∙ marked) (validate-marked code user before.invites given)

-- A successful join by a code finds the code unused and not revoked, and marks it with a user. After
-- that everyone who presents the code is rejected, on any channel, as long as the table of codes is as
-- that join left it. Identifiers are taken to be non-empty.
pub try_join_once :
    (name : ℕ → Text) (channel : Text) (msg : Incoming) (tenant : Text) (db after : Db) (j : Joined)
    → ((n : ℕ) → name n ≢ [])
    → extract_code msg.content ≢ []
    → try_join name channel msg tenant db ≡ (ok j, after)
    → ((user : Text) × (user ≢ []) × Redeemed (extract_code msg.content) user db after)
      × ((channel' : Text) (msg' : Incoming) (tenant' : Text) (later : Db)
          → extract_code msg'.content ≡ extract_code msg.content
          → later.invites ≡ after.invites
          → (try_join name channel' msg' tenant' later).0 ≡ stop (rejected default_rejection))
try_join_once name channel msg tenant db after j named h e =
    let code = extract_code msg.content in
    let run : join_with_code name channel code msg db ≡ (ok j, after) =
      subst (λ (m : M Joined). m db ≡ (ok j, after)) (try_join-code name channel msg tenant h) e in
    let done = join_with_code-Redeems name named channel code msg db after j run in
    (
      done,
      λ channel' msg' tenant' later same kept.
          let h' : extract_code msg'.content ≢ [] = rw same h in
          rw (try_join-code name channel' msg' tenant' h') (
            rw same (
              join_with_code_invalid name channel' code msg' later
                (Redeemed-invalid code done.0 db after later done.1 kept done.2))),
    )
