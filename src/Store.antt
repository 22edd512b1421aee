-- ===== src/Store.antt =====
-- pkg/plugins/store/sqlite: the tables of tenants, users, identities, workspace mappings, invite codes,
-- agents and chats, and the statements on them that onboarding and identity resolution make.
-- A row that the database returns is the first one that fits: the tables' keys are unique. The columns
-- that no statement here tests (instructions, skills, tools, time of creation, delivery data) are left
-- out. Any statement may fail: `faults` holds, for the statements to come, whether they do.
mod Rows
pub mod Laws
pub use Rows.*
use whiteagent.Common.{
  ℕ, suc, ◌+◌, Bool, true, false, not, ◌&&◌, ◌||◌, Option, none, some, List, [], ◌∷◌, Text, text_eq,
  if◌then◌else◌, is_empty,
}

pub record Db : Type 0 where
  pub tenants : List Tenant
  pub users : List User
  pub identities : List Identity
  pub mappings : List Mapping
  pub invites : List Invite
  pub agents : List Agent
  pub chats : List Chat
  pub faults : List Bool
  pub serial : ℕ

-- How a handler stops before its end: with a rejection and its text, with an error of the store, or
-- with a dereference of nil.
pub data Stop : Type 0 where
  rejected : Text → Stop
  failed : Stop
  crashed : Stop

pub data Reply {ℓ} (A : Type ℓ) : Type ℓ where
  ok : A → Reply A
  stop : Stop → Reply A

-- A handler over the database.
abbrev pub M : Type 0 → Type 0
M A = Db → Reply A × Db

abbrev pub pure : {A : Type 0} → A → M A
pure a db = (ok a, db)

abbrev pub halt : {A : Type 0} → Stop → M A
halt s db = (stop s, db)

abbrev pub resume : {A B : Type 0} → Reply A → Db → (A → M B) → Reply B × Db
resume (ok a) db f = f a db
resume (stop s) db f = (stop s, db)

module _ {A B : Type 0} where
  infixl 5 ◌>>=◌
  abbrev pub ◌>>=◌ : M A → (A → M B) → M B
  (call >>= next) db = resume (call db).0 (call db).1 next

infixl 5 ◌>>◌
abbrev pub ◌>>◌ : {Rest : Type 0} → M (Unit {0}) → M Rest → M Rest
(call >> next) db = resume (call db).0 (call db).1 (λ _. next)

module _ {A : Type 0} where
  -- SELECT: the first row that fits.
  unfoldable pub find_row : (A → Bool) → List A → Option A
  find_row p [] = none
  find_row p (a ∷ rows) = if p a then some a else find_row p rows

  -- INSERT with a conflict clause: the row in the way is replaced by what the clause makes of it.
  unfoldable pub upsert : (A → Bool) → (A → A) → A → List A → List A
  upsert p f new [] = new ∷ []
  upsert p f new (a ∷ rows) = if p a then f a ∷ rows else a ∷ upsert p f new rows

  -- UPDATE
  unfoldable pub update_rows : (A → Bool) → (A → A) → List A → List A
  update_rows p f [] = []
  update_rows p f (a ∷ rows) = (if p a then f a else a) ∷ update_rows p f rows

  -- DELETE
  unfoldable pub delete_rows : (A → Bool) → List A → List A
  delete_rows p [] = []
  delete_rows p (a ∷ rows) = let rest = delete_rows p rows in if p a then rest else a ∷ rest

-- A statement either fails with no effect or is executed.
unfoldable pub attempt : {A : Type 0} → List Bool → Db → (Db → Reply A × Db) → Reply A × Db
attempt [] db run = run db
attempt (true ∷ fs) db run = (stop failed, record db { faults = fs })
attempt (false ∷ fs) db run = run (record db { faults = fs })

unfoldable pub statement : {A : Type 0} → (Db → Reply A × Db) → M A
unfolding attempt
statement run db = attempt db.faults db run

unfoldable pub query : {A : Type 0} → (Db → A) → M A
unfolding statement
query f = statement (λ db. (ok (f db), db))

unfoldable pub execute : (Db → Db) → M (Unit {0})
unfolding statement
execute f = statement (λ db. (ok tt, f db))

unfoldable pub get_tenant : Text → M (Option Tenant)
get_tenant id = query (λ db. find_row (λ t. text_eq t.id id && not t.deleted) db.tenants)

unfoldable pub save_tenant : Tenant → M (Unit {0})
save_tenant t = execute (λ db. record db {
  tenants = upsert (λ r. text_eq r.id t.id) (λ r. record t { deleted = r.deleted }) t db.tenants;
})

unfoldable pub save_agent : Agent → M (Unit {0})
save_agent a = execute (λ db. record db {
  agents = upsert (λ r. text_eq r.id a.id) (λ r. record r { name = a.name }) a db.agents;
})

abbrev pub identity_fits : Text → Text → Text → Identity → Bool
identity_fits tenant channel external i =
    text_eq i.tenant tenant && text_eq i.channel channel && text_eq i.external external

abbrev pub user_fits : Text → Text → User → Bool
user_fits tenant id u = text_eq u.tenant tenant && text_eq u.id id

abbrev pub live_user : Text → Text → Db → Option User
live_user tenant id db = find_row (λ u. user_fits tenant id u && not u.deleted) db.users

-- The join of an identity with its user.
unfoldable pub user_of : Text → Db → Option Identity → Option User
user_of tenant db none = none
user_of tenant db (some i) = live_user tenant i.user db

abbrev pub user_by_channel : Text → Text → Text → Db → Option User
user_by_channel tenant channel external db =
    user_of tenant db (find_row (identity_fits tenant channel external) db.identities)

unfoldable pub get_user_by_channel : Text → Text → Text → M (Option User)
unfolding user_of
get_user_by_channel tenant channel external = query (user_by_channel tenant channel external)

unfoldable pub get_user : Text → Text → M (Option User)
get_user tenant id = query (live_user tenant id)

unfoldable pub save_user : User → M (Unit {0})
save_user u = execute (λ db. record db {
  users =
      upsert (user_fits u.tenant u.id)
        (λ r. record r { name = u.name; preferred_channel = u.preferred_channel }) u db.users;
})

unfoldable pub add_user_identity : Identity → M (Unit {0})
add_user_identity i = execute (λ db. record db {
  identities =
      upsert (identity_fits i.tenant i.channel i.external) (λ r. record r { user = i.user }) i
        db.identities;
})

unfoldable pub get_invite : Text → M (Option Invite)
get_invite code = query (λ db. find_row (λ i. text_eq i.code code) db.invites)

-- The guard of the UPDATE: the code is neither used nor revoked.
abbrev pub redeemable : Text → Invite → Bool
redeemable code i = text_eq i.code code && is_empty i.used_by && not i.revoked

-- The rows affected are counted: none is an error.
unfoldable pub mark_used : Text → Text → Db → Option Invite → Reply (Unit {0}) × Db
mark_used code user db none = (stop failed, db)
mark_used code user db (some i) = (
  ok tt,
  record db {
    invites = update_rows (redeemable code) (λ r. record r { used_by = user }) db.invites;
  },
)

unfoldable pub use_invite : Text → Text → M (Unit {0})
unfolding mark_used
use_invite code user =
    statement (λ db. mark_used code user db (find_row (redeemable code) db.invites))

unfoldable pub save_mapping : Mapping → M (Unit {0})
save_mapping m = execute (λ db. record db {
  mappings =
      upsert (λ r. text_eq r.channel m.channel && text_eq r.external m.external) (λ r. m) m
        db.mappings;
})

-- The empty tenant, if there is no mapping.
unfoldable pub get_tenant_by_mapping : Text → Text → M Text
get_tenant_by_mapping channel external = query (λ db.
    elim (find_row (λ r. text_eq r.channel channel && text_eq r.external external) db.mappings) [
      | none ↦ []
      | some m ↦ m.tenant
    ])

abbrev chat_fits : Text → Text → Text → Chat → Bool
chat_fits tenant channel external c =
    text_eq c.tenant tenant && text_eq c.channel channel && text_eq c.external external

unfoldable pub save_chat : Chat → M (Unit {0})
save_chat c = execute (λ db. record db {
  chats =
      upsert (chat_fits c.tenant c.channel c.external)
        (λ r. record r { user = c.user; name = c.name; agent = c.agent }) c db.chats;
})

unfoldable pub get_chat_by_channel : Text → Text → Text → M (Option Chat)
get_chat_by_channel tenant channel external =
    query (λ db. find_row (chat_fits tenant channel external) db.chats)

abbrev moved : Text → Text → Text → Db → Db
moved tenant from to db = record db {
  identities =
      delete_rows (λ i. text_eq i.tenant tenant && text_eq i.user from)
        (update_rows (λ i. text_eq i.tenant tenant && text_eq i.user from)
          (λ i. record i { user = to }) db.identities);
  users = delete_rows (user_fits tenant from) db.users;
}

-- One transaction: it fails if one of the users is not there. The rows of messages, journal, cron
-- entries and errors, which it moves as well, are not part of this model.
unfoldable pub merge_user : Text → Text → Text → M (Unit {0})
merge_user tenant from to = statement (λ db. elim (live_user tenant from db) [
  | none ↦ (stop failed, db)
  | some u ↦ elim (live_user tenant to db) [
    | none ↦ (stop failed, db)
    | some v ↦ (ok tt, moved tenant from to db)
  ]
])

-- util.NewID: `name` gives the text of the n-th identifier.
unfoldable pub new_id : (ℕ → Text) → M Text
new_id name db = (ok (name db.serial), record db { serial = suc db.serial })
