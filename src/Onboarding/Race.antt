-- ===== src/Onboarding/Race.antt =====
-- internal/domain/service/onboarding/service.go: what a rejected `joinUser` leaves behind, and
-- `joinWithoutCode` for a tenant that is gone.
use whiteagent.Common.{
  ℕ, suc, true, false, Bool-cases, inl, inr, none, some, List, [], ◌∷◌, Text, text_eq, text_eq_refl,
  ◌≡◌, ◌≢◌, refl, arith, is_empty, not, ◌&&◌,
}
use whiteagent.Store.{
  Db, Invite, User, Identity, rejected, crashed, stop, find_row, upsert, redeemable, identity_fits,
  user_fits, user_of, user_by_channel, query, execute, get_tenant, save_user, add_user_identity,
  use_invite, new_id,
}
use whiteagent.Onboarding.{
  Incoming, create_user, join_user, join_without_code, try_join, extract_code, default_rejection,
}

identity-upsert :
    (t c e id : Text) (rows : List Identity)
    → (i : Identity) × (find_row (identity_fits t c e) (
          upsert
            (identity_fits t c e)
            (λ r. record r { user = id })
            (record { tenant = t; channel = c; external = e; user = id })
            rows)
        ≡ some i)
      × (i.user ≡ id)
unfolding find_row upsert
identity-upsert t c e id [] = (
  record { tenant = t; channel = c; external = e; user = id },
  ground (arith, text_eq_refl t, text_eq_refl c, text_eq_refl e),
  refl,
)
identity-upsert t c e id (r ∷ rows) = elim (Bool-cases (identity_fits t c e r)) [
  | inl hit ↦ (record r { user = id }, ground (arith, hit), refl)
  | inr miss ↦ let (i, q, q') = identity-upsert t c e id rows in (i, ground (arith, miss, q), q')
]

user-upsert :
    (t id : Text) (f : User → User) (new : User) (rows : List User)
    → find_row (user_fits t id) rows ≡ none
    → user_fits t id new ≡ true
    → new.deleted ≡ false
    → find_row (λ u. user_fits t id u && not u.deleted) (upsert (user_fits t id) f new rows)
      ≡ some new
unfolding find_row upsert
user-upsert t id f new [] h p d = ground arith
user-upsert t id f new (r ∷ rows) h p d = ground (arith, user-upsert t id f new rows)

-- The user that a join creates, under the identifier that is next.
abbrev pub made : (ℕ → Text) → Text → Text → Incoming → Db → User
made name tenant channel msg db = record {
  id = name db.serial;
  tenant = tenant;
  name = msg.user_name;
  preferred_channel = channel;
  deleted = false;
}

-- What `join_user` leaves, where no statement fails.
abbrev pub left_by : (ℕ → Text) → Text → Text → Incoming → Db → Db
left_by name tenant channel msg db = record db {
  serial = suc db.serial;
  users =
      upsert (user_fits tenant (name db.serial))
        (λ r. record r { name = msg.user_name; preferred_channel = channel })
        (made name tenant channel msg db) db.users;
  identities =
      upsert (identity_fits tenant channel msg.user) (λ r. record r { user = name db.serial })
        (record { tenant = tenant; channel = channel; external = msg.user; user = name db.serial })
        db.identities;
  faults = [];
}

join_user_stale :
    (name : ℕ → Text) (channel code : Text) (inv : Invite) (msg : Incoming) (db : Db)
    → is_empty inv.tenant ≡ false
    → find_row (redeemable code) db.invites ≡ none
    → join_user name channel code inv msg (record db { faults = [] })
      ≡ (stop (rejected default_rejection), left_by name inv.tenant channel msg db)
unfolding join_user create_user get_tenant save_user add_user_identity use_invite new_id query
    execute
join_user_stale name channel code inv msg db set gone = rw set (rw gone refl)

-- Two join with one code for users: the one who comes second has read the code while it was unused and
-- finds it used. Though that join is rejected, it has registered its sender: the sender's identity on
-- the channel now leads to a user of the tenant. This is so wherever no statement fails, the code is
-- not redeemable any more, and the next identifier is not that of a user of the tenant.
pub join_user_race :
    (name : ℕ → Text) (channel code : Text) (inv : Invite) (msg : Incoming) (db : Db)
    → is_empty inv.tenant ≡ false
    → find_row (redeemable code) db.invites ≡ none
    → find_row (user_fits inv.tenant (name db.serial)) db.users ≡ none
    → let (reply, after) = join_user name channel code inv msg (record db { faults = [] }) in
      (reply ≡ stop (rejected default_rejection))
      × (user_by_channel inv.tenant channel msg.user after
          ≡ some (made name inv.tenant channel msg db))
unfolding user_of
join_user_race name channel code inv msg db set gone fresh =
    rw (join_user_stale name channel code inv msg db set gone) (refl, registered)
  where
    registered :
        user_by_channel inv.tenant channel msg.user (left_by name inv.tenant channel msg db)
        ≡ some (made name inv.tenant channel msg db)
    registered =
        let (i, q, q') =
          identity-upsert inv.tenant channel msg.user (name db.serial) db.identities in
        rw (q, q')
          (user-upsert inv.tenant (name db.serial) _ (made name inv.tenant channel msg db) db.users
            fresh (ground (arith, text_eq_refl inv.tenant, text_eq_refl (name db.serial))) refl)

-- A message without a code, for a tenant that was deleted or never was, where no statement fails:
-- `GetTenant` returns nil and no error, and the code dereferences nil.
pub try_join_crashes :
    (name : ℕ → Text) (channel : Text) (msg : Incoming) (tenant : Text) (db : Db)
    → extract_code msg.content ≡ []
    → tenant ≢ []
    → find_row (λ t. text_eq t.id tenant && not t.deleted) db.tenants ≡ none
    → (try_join name channel msg tenant (record db { faults = [] })).0 ≡ stop crashed
unfolding try_join join_without_code get_tenant query
try_join_crashes name channel msg [] db h given gone = absurd (given refl)
try_join_crashes name channel msg (c ∷ tenant) db h given gone = rw h (rw gone refl)
