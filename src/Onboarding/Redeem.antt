-- ===== src/Onboarding/Redeem.antt =====
-- internal/domain/service/onboarding/service.go: the flows by a code, and the redemption in each.
use whiteagent.Common.{
  ℕ, Bool-cases, inl, inr, Option, none, some, [], Text, text_eq, ◌≢◌, refl, subst, arith,
  if◌then◌else◌, is_empty, not, ◌&&◌, codes,
}
use whiteagent.Store.{
  Invite, InviteKind, tenant_invite, user_invite, other_invite, User, rejected, pure, halt,
  get_tenant, save_user, add_user_identity, get_invite, new_id, get_user, get_user_by_channel,
  merge_user, save_tenant, save_agent, save_mapping, get_tenant_by_mapping,
}
use whiteagent.Store.Laws.{
  Keeps, Keeps-bind, get_tenant-Keeps, get_user-Keeps, get_user_by_channel-Keeps, get_invite-Keeps,
  get_tenant_by_mapping-Keeps, save_tenant-Keeps, save_agent-Keeps, save_user-Keeps,
  add_user_identity-Keeps, save_mapping-Keeps, merge_user-Keeps, new_id-Keeps, new_id-ne-nil,
}
use whiteagent.Onboarding.{
  Incoming, refuse, or_refuse, present, ignore_error, ignore_failure, already_linked, create_user,
  join_user, create_tenant, relink, link_user, link_tenant, redeem, checked, join_with_code,
  validate_code,
}
use whiteagent.Onboarding.Chains.{
  Redeems, pure-Keeps, present-Keeps, deref-Keeps, if-Keeps, refused-ok, reply-eq, pair-eq, Ends,
  Ends-bind, Redeems-bind, Redeems-after, Redeems-last, Redeems-refuse,
}

-- Identifiers are not empty.
module _ (name : ℕ → Text) (named : (n : ℕ) → name n ≢ []) where
  create_user-Keeps :
      (tenant channel : Text) (msg : Incoming) → Keeps (create_user name tenant channel msg)
  unfolding create_user
  create_user-Keeps tenant channel msg = Keeps-bind (new_id name) _ (new_id-Keeps name) λ id.
      Keeps-bind (save_user _) _ (save_user-Keeps _)
        λ u. Keeps-bind (add_user_identity _) _ (add_user_identity-Keeps _) λ v db. refl

  create_user_id :
      (tenant channel : Text) (msg : Incoming)
      → Ends (λ (u : User). u.id ≢ []) (or_refuse (create_user name tenant channel msg))
  unfolding create_user
  create_user_id tenant channel msg db after user e =
      Ends-bind (λ id. id ≢ []) (λ (u : User). u.id ≢ []) (new_id name) _ (new_id-ne-nil name named)
        (λ id given.
          Ends-bind (λ _. Unit {0}) (λ (u : User). u.id ≢ []) (save_user _) _ (λ d a u q. tt)
            λ _ _.
              Ends-bind (λ _. Unit {0}) (λ (u : User). u.id ≢ []) (add_user_identity _) _
                (λ d a u q. tt)
                λ _ _ d a u q. subst (λ (u : User). u.id ≢ []) (reply-eq (pair-eq q).0) given)
        db after user
        (λ k.
          (refused-ok (create_user name tenant channel msg db).0 (pair-eq e).0 k, (pair-eq e).1 k))

  join_user-Redeems :
      (channel code : Text) (inv : Invite) (msg : Incoming)
      → Redeems code (join_user name channel code inv msg)
  unfolding join_user
  join_user-Redeems channel code inv msg = elim (Bool-cases (is_empty inv.tenant)) [
    | inl bare ↦ rw bare (Redeems-refuse code)
    | inr set ↦ rw set (
        Redeems-after code (or_refuse (get_tenant inv.tenant)) _ (get_tenant-Keeps inv.tenant)
          λ tenant.
            Redeems-bind (λ u. u.id ≢ []) code (or_refuse (create_user name inv.tenant channel msg))
              _ (create_user-Keeps inv.tenant channel msg) (create_user_id inv.tenant channel msg)
              λ user given. Redeems-last code user.id _ given)
  ]

  relink-Keeps :
      (tenant target : Text) (o : Option User) (user : User)
      → Keeps (relink name tenant target o user)
  unfolding relink
  relink-Keeps tenant target none user = pure-Keeps user
  relink-Keeps tenant target (some existing) user =
      if-Keeps (text_eq existing.id target) _ _ (pure-Keeps user) (
        Keeps-bind (or_refuse (merge_user tenant existing.id target)) _
          (merge_user-Keeps tenant existing.id target)
          λ u.
            Keeps-bind (or_refuse (get_user tenant target)) _ (get_user-Keeps tenant target)
              λ o. deref-Keeps o)

  link_user-Redeems :
      (channel code : Text) (inv : Invite) (msg : Incoming)
      → inv.target ≢ []
      → Redeems code (link_user name channel code inv msg)
  unfolding link_user
  link_user-Redeems channel code inv msg given =
      Redeems-after code (or_refuse (get_user inv.tenant inv.target)) _
        (get_user-Keeps inv.tenant inv.target)
        λ found. Redeems-after code (present found) _ (present-Keeps found) λ user.
          Redeems-after code (or_refuse (get_tenant inv.tenant)) _ (get_tenant-Keeps inv.tenant)
            λ tenant.
              Redeems-after code (ignore_error (get_user_by_channel inv.tenant channel msg.user)) _
                (get_user_by_channel-Keeps inv.tenant channel msg.user)
                λ existing.
                  Redeems-after code (relink name inv.tenant inv.target existing user) _
                    (relink-Keeps inv.tenant inv.target existing user)
                    λ user'.
                      Redeems-after code (or_refuse (add_user_identity _)) _
                        (add_user_identity-Keeps _) λ u. Redeems-last code inv.target _ given

  link_tenant-Redeems :
      (channel code : Text) (inv : Invite) (msg : Incoming)
      → Redeems code (link_tenant name channel code inv msg)
  unfolding link_tenant
  link_tenant-Redeems channel code inv msg =
      Redeems-after code (or_refuse (get_tenant inv.target)) _ (get_tenant-Keeps inv.target)
        λ found. Redeems-after code (present found) _ (present-Keeps found) λ tenant.
          Redeems-after code (if is_empty msg.tenant then refuse else pure tt) _
            (if-Keeps (is_empty msg.tenant) refuse (pure tt) (λ db. refl) (λ db. refl))
            λ u.
              Redeems-after code (ignore_failure (get_tenant_by_mapping channel msg.tenant)) _
                (get_tenant_by_mapping-Keeps channel msg.tenant)
                λ mapped.
                  Redeems-after code _ _
                    (if-Keeps (not (is_empty mapped) && not (text_eq mapped inv.target))
                      (halt (rejected already_linked)) (pure tt) (λ db. refl) (λ db. refl))
                    λ v.
                      Redeems-after code (or_refuse (save_mapping _)) _ (save_mapping-Keeps _)
                        λ w. Redeems-last code (codes "system:tenant-link") _ (λ e. cc)

  create_tenant-Redeems :
      (channel code : Text) (msg : Incoming) → Redeems code (create_tenant name channel code msg)
  unfolding create_tenant
  create_tenant-Redeems channel code msg =
      Redeems-after code (new_id name) _ (new_id-Keeps name) λ id.
        Redeems-after code (or_refuse (save_tenant _)) _ (save_tenant-Keeps _) λ t.
          Redeems-after code (new_id name) _ (new_id-Keeps name) λ agent.
            Redeems-after code (or_refuse (save_agent _)) _ (save_agent-Keeps _) λ a.
              Redeems-after code (or_refuse (save_tenant _)) _ (save_tenant-Keeps _) λ t'.
                Redeems-bind (λ u. u.id ≢ []) code (or_refuse (create_user name id channel msg)) _
                  (create_user-Keeps id channel msg) (create_user_id id channel msg)
                  λ user given.
                    Redeems-after code _ _
                      (if-Keeps (is_empty msg.tenant) (pure tt) (or_refuse (save_mapping _))
                        (λ db. refl) (save_mapping-Keeps _))
                      λ m. Redeems-last code user.id _ given

  redeem-Redeems :
      (kind : InviteKind) (channel code : Text) (inv : Invite) (msg : Incoming)
      → Redeems code (redeem name kind channel code inv msg)
  unfolding redeem
  redeem-Redeems tenant_invite channel code inv msg = elim (Bool-cases (is_empty inv.target)) [
    | inl bare ↦ rw bare (create_tenant-Redeems channel code msg)
    | inr set ↦ rw set (link_tenant-Redeems channel code inv msg)
  ]
  redeem-Redeems user_invite channel code inv msg = elim (Bool-cases (is_empty inv.target)) [
    | inl bare ↦ rw bare (join_user-Redeems channel code inv msg)
    | inr set ↦ rw set (link_user-Redeems channel code inv msg (λ e. ground (arith, set, e)))
  ]
  redeem-Redeems other_invite channel code inv msg = Redeems-refuse code

  checked-Redeems :
      (channel code : Text) (o : Option Invite) (msg : Incoming)
      → Redeems code (checked name channel code o msg)
  unfolding checked
  checked-Redeems channel code none msg = Redeems-refuse code
  checked-Redeems channel code (some inv) msg = elim (Bool-cases (validate_code (some inv))) [
    | inl good ↦ rw good (redeem-Redeems inv.kind channel code inv msg)
    | inr bad ↦ rw bad (Redeems-refuse code)
  ]

  pub join_with_code-Redeems :
      (channel code : Text) (msg : Incoming) → Redeems code (join_with_code name channel code msg)
  unfolding join_with_code
  join_with_code-Redeems channel code msg =
      Redeems-after code (or_refuse (get_invite code)) _ (get_invite-Keeps code)
        λ inv. checked-Redeems channel code inv msg
