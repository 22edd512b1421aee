-- ===== src/Store/Laws.antt =====
-- How handlers over the database run: inversion of a bind, and the handlers that leave the invite codes
-- alone.
use whiteagent.Common.{
  ◌⊎◌, ℕ, Bool, true, false, inl, inr, Option, none, some, List, [], ◌∷◌, Text, text_eq, ◌≡◌, ◌≢◌,
  refl, sym, ap, ◌∙◌, arith,
}
use whiteagent.Store.{
  Tenant, User, Agent, Identity, Mapping, Db, Invite, failed, Reply, ok, stop, M, resume, ◌>>=◌,
  attempt, statement, query, execute, find_row, update_rows, redeemable, use_invite, mark_used,
  get_tenant, save_tenant, save_agent, get_user_by_channel, get_user, save_user, add_user_identity,
  get_invite, save_mapping, get_tenant_by_mapping, merge_user, new_id,
}

abbrev pub Keeps : {A : Type 0} → M A → Type 0
Keeps m = (db : Db) → (m db).1.invites ≡ db.invites

module _ {A B : Type 0} where
  pub resume-ok :
      (r : Reply A) (d : Db) (f : A → M B) {b : B} {d' : Db}
      → resume r d f ≡ (ok b, d')
      → (a : A) × (r ≡ ok a) × (f a d ≡ (ok b, d'))
  resume-ok (ok a) d f h = (a, refl, h)
  resume-ok (stop s) d f h = cc

  Keeps-resume :
      (r : Reply A) (d : Db) (f : A → M B)
      → ((a : A) → Keeps (f a))
      → (resume r d f).1.invites ≡ d.invites
  Keeps-resume (ok a) d f h = h a d
  Keeps-resume (stop s) d f h = refl

  pub Keeps-bind : (m : M A) (f : A → M B) → Keeps m → ((a : A) → Keeps (f a)) → Keeps (m >>= f)
  Keeps-bind m f hm hf db = Keeps-resume (m db).0 (m db).1 f hf ∙ hm db

module _ {A : Type 0} where
  attempt-Keeps :
      (fs : List Bool) (db : Db) (run : Db → Reply A × Db)
      → Keeps run
      → (attempt fs db run).1.invites ≡ db.invites
  unfolding attempt
  attempt-Keeps [] db run h = h db
  attempt-Keeps (true ∷ fs) db run h = refl
  attempt-Keeps (false ∷ fs) db run h = h (record db { faults = fs })

  pub statement-Keeps : (run : Db → Reply A × Db) → Keeps run → Keeps (statement run)
  unfolding statement
  statement-Keeps run h db = attempt-Keeps db.faults db run h

  pub query-Keeps : (f : Db → A) → Keeps (query f)
  unfolding query
  query-Keeps f = statement-Keeps (λ db. (ok (f db), db)) (λ db. refl)

pub execute-Keeps : (f : Db → Db) → ((db : Db) → (f db).invites ≡ db.invites) → Keeps (execute f)
unfolding execute
execute-Keeps f h = statement-Keeps (λ db. (ok tt, f db)) h

-- The statements that do not write to the table of invite codes.
pub get_tenant-Keeps : (id : Text) → Keeps (get_tenant id)
unfolding get_tenant
get_tenant-Keeps id = query-Keeps _

pub get_user-Keeps : (tenant id : Text) → Keeps (get_user tenant id)
unfolding get_user
get_user-Keeps tenant id = query-Keeps _

pub get_user_by_channel-Keeps :
    (tenant channel external : Text) → Keeps (get_user_by_channel tenant channel external)
unfolding get_user_by_channel
get_user_by_channel-Keeps tenant channel external = query-Keeps _

pub get_invite-Keeps : (code : Text) → Keeps (get_invite code)
unfolding get_invite
get_invite-Keeps code = query-Keeps _

pub get_tenant_by_mapping-Keeps :
    (channel external : Text) → Keeps (get_tenant_by_mapping channel external)
unfolding get_tenant_by_mapping
get_tenant_by_mapping-Keeps channel external = query-Keeps _

pub save_tenant-Keeps : (t : Tenant) → Keeps (save_tenant t)
unfolding save_tenant
save_tenant-Keeps t = execute-Keeps _ (λ db. refl)

pub save_agent-Keeps : (a : Agent) → Keeps (save_agent a)
unfolding save_agent
save_agent-Keeps a = execute-Keeps _ (λ db. refl)

pub save_user-Keeps : (u : User) → Keeps (save_user u)
unfolding save_user
save_user-Keeps u = execute-Keeps _ (λ db. refl)

pub add_user_identity-Keeps : (i : Identity) → Keeps (add_user_identity i)
unfolding add_user_identity
add_user_identity-Keeps i = execute-Keeps _ (λ db. refl)

pub save_mapping-Keeps : (m : Mapping) → Keeps (save_mapping m)
unfolding save_mapping
save_mapping-Keeps m = execute-Keeps _ (λ db. refl)

pub merge_user-Keeps : (tenant from to : Text) → Keeps (merge_user tenant from to)
unfolding merge_user
merge_user-Keeps tenant from to = statement-Keeps _ (λ db. ground arith)

pub new_id-Keeps : (name : ℕ → Text) → Keeps (new_id name)
unfolding new_id
new_id-Keeps name db = refl

-- A code is redeemed for `user`: it was there, unused and not revoked, and it is marked.
abbrev pub Redeemed : Text → Text → Db → Db → Type 0
Redeemed code user before after =
    (i : Invite) × (find_row (redeemable code) before.invites ≡ some i)
    × (after.invites
        ≡ update_rows (redeemable code) (λ r. record r { used_by = user }) before.invites)

attempt_use :
    (fs : List Bool) (code user : Text) (db after : Db) (run : Db → Reply (Unit {0}) × Db)
    → ((d d' : Db) → run d ≡ (ok tt, d') → Redeemed code user d d')
    → attempt fs db run ≡ (ok tt, after)
    → Redeemed code user db after
unfolding attempt
attempt_use [] code user db after run h e = h db after e
attempt_use (true ∷ fs) code user db after run h e = cc
attempt_use (false ∷ fs) code user db after run h e = h (record db { faults = fs }) after e

mark_used-Redeemed :
    (code user : Text) (d d' : Db) (o : Option Invite)
    → find_row (redeemable code) d.invites ≡ o
    → mark_used code user d o ≡ (ok tt, d')
    → Redeemed code user d d'
unfolding mark_used
mark_used-Redeemed code user d d' none q h = cc
mark_used-Redeemed code user d d' (some i) q h =
    (i, q, ap (λ (r : Reply (Unit {0}) × Db). r.1.invites) (sym h))

-- `UseInviteCode` succeeds on a redeemable code only, and marks it.
pub use_invite-Redeemed :
    (code user : Text) (db after : Db)
    → use_invite code user db ≡ (ok tt, after)
    → Redeemed code user db after
unfolding use_invite statement
use_invite-Redeemed code user db after e =
    attempt_use db.faults code user db after
      (λ d. mark_used code user d (find_row (redeemable code) d.invites))
      (λ d d' h. mark_used-Redeemed code user d d' (find_row (redeemable code) d.invites) refl h) e

pub new_id-ne-nil :
    (name : ℕ → Text)
    → ((n : ℕ) → name n ≢ [])
    → (db after : Db) (id : Text) → new_id name db ≡ (ok id, after)
    → id ≢ []
unfolding new_id
new_id-ne-nil name named db after id e = ground (arith, named db.serial)

attempt_query :
    {A : Type 0} (fs : List Bool) (db : Db) (f : Db → A) (a : A)
    → ((d : Db) → d.invites ≡ db.invites → f d ≡ a)
    → ((attempt fs db (λ d. (ok (f d), d))).0 ≡ ok a)
      ⊎ ((attempt fs db (λ d. (ok (f d), d))).0 ≡ stop failed)
unfolding attempt
attempt_query [] db f a h = inl (ap ok (h db refl))
attempt_query (true ∷ fs) db f a h = inr refl
attempt_query (false ∷ fs) db f a h = inl (ap ok (h (record db { faults = fs }) refl))

-- `GetInviteCode` finds the row of the code, or fails.
pub get_invite-cases :
    (code : Text) (db : Db)
    → ((get_invite code db).0 ≡ ok (find_row (λ i. text_eq i.code code) db.invites))
      ⊎ ((get_invite code db).0 ≡ stop failed)
unfolding get_invite query statement
get_invite-cases code db =
    attempt_query db.faults db (λ d. find_row (λ i. text_eq i.code code) d.invites) _
      (λ d e. ap (find_row (λ i. text_eq i.code code)) e)
