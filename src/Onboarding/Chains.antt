-- ===== src/Onboarding/Chains.antt =====
-- Chains of steps over the store, as the methods of internal/domain/service/onboarding/service.go make
-- them: which of them leave the codes alone, and which redeem one.
use whiteagent.Common.{
  Bool, true, false, Option, none, some, [], Text, ◌≡◌, ◌≢◌, refl, sym, ap, ◌∙◌, if◌then◌else◌,
}
use whiteagent.Store.{
  Db, rejected, failed, crashed, Reply, ok, stop, M, pure, ◌>>=◌, find_row, update_rows, redeemable,
  use_invite,
}
use whiteagent.Store.Laws.{Keeps, resume-ok, Redeemed, use_invite-Redeemed}
use whiteagent.Onboarding.{refuse, refused, or_refuse, present, deref}

-- `m` returns only after it has redeemed the code for a user with an identifier.
abbrev pub Redeems : {A : Type 0} → Text → M A → Type 0
Redeems {A} code m =
    (db after : Db) (a : A)
    → m db ≡ (ok a, after)
    → (user : Text) × (user ≢ []) × Redeemed code user db after

pub pure-Keeps : {A : Type 0} (a : A) → Keeps (pure a)
pure-Keeps a db = refl

pub or_refuse-Keeps : {A : Type 0} (m : M A) → Keeps m → Keeps (or_refuse m)
or_refuse-Keeps m h = h

pub present-Keeps : {A : Type 0} (o : Option A) → Keeps (present o)
present-Keeps none db = refl
present-Keeps (some a) db = refl

pub deref-Keeps : {A : Type 0} (o : Option A) → Keeps (deref o)
deref-Keeps none db = refl
deref-Keeps (some a) db = refl

pub if-Keeps : {A : Type 0} (b : Bool) (m k : M A) → Keeps m → Keeps k → Keeps (if b then m else k)
if-Keeps true m k hm hk = hm
if-Keeps false m k hm hk = hk

pub refused-ok : {A : Type 0} (r : Reply A) {a : A} → refused r ≡ ok a → r ≡ ok a
refused-ok (ok a) h = h
refused-ok (stop (rejected t)) h = cc
refused-ok (stop failed) h = cc
refused-ok (stop crashed) h = cc

pub reply-eq : {A : Type 0} {a b : A} → ◌≡◌ {A = Reply A} (ok a) (ok b) → a ≡ b
reply-eq h = cc

-- What a pair of a reply and a database is made of.
pub pair-eq :
    {A : Type 0} {r r' : Reply A} {d d' : Db}
    → ◌≡◌ {A = Reply A × Db} (r, d) (r', d')
    → (r ≡ r') × (d ≡ d')
pair-eq h = (ap (λ p. p.0) h, ap (λ p. p.1) h)

pub Redeemed-before :
    (code user : Text) (first before after : Db)
    → before.invites ≡ first.invites
    → Redeemed code user before after
    → Redeemed code user first after
Redeemed-before code user first before after same (i, found, marked) = (
  i,
  ap (find_row (redeemable code)) (sym same) ∙ found,
  marked ∙ ap (update_rows (redeemable code) (λ r. record r { used_by = user })) same,
)

-- Whatever `m` returns satisfies `P`.
abbrev pub Ends : {A : Type 0} → (A → Type 0) → M A → Type 0
Ends {A} P m = (db after : Db) (a : A) → m db ≡ (ok a, after) → P a

pub Ends-bind :
    {A B : Type 0} (Q : A → Type 0) (P : B → Type 0) (m : M A) (f : A → M B)
    → Ends Q m
    → ((a : A) → Q a → Ends P (f a))
    → Ends P (m >>= f)
Ends-bind Q P m f hm hf db after b e =
    let (a, q, q') = resume-ok (m db).0 (m db).1 f e in
    hf a (hm db (m db).1 a (λ k. (q k, (m db).1))) (m db).1 after b q'

-- A step that leaves the codes alone, and whose result satisfies `P`, before one that redeems.
pub Redeems-bind :
    {A B : Type 0} (P : A → Type 0) (code : Text) (m : M A) (f : A → M B)
    → Keeps m
    → Ends P m
    → ((a : A) → P a → Redeems code (f a))
    → Redeems code (m >>= f)
Redeems-bind P code m f keep post rest db after b e =
    let (a, q, q') = resume-ok (m db).0 (m db).1 f e in
    let (user, given, done) =
      rest a (post db (m db).1 a (λ k. (q k, (m db).1))) (m db).1 after b q' in
    (user, given, Redeemed-before code user db (m db).1 after (keep db) done)

-- The same where nothing is needed of the result.
pub Redeems-after :
    {A B : Type 0} (code : Text) (m : M A) (f : A → M B)
    → Keeps m
    → ((a : A) → Redeems code (f a))
    → Redeems code (m >>= f)
Redeems-after code m f keep rest =
    Redeems-bind (λ a. Unit {0}) code m f keep (λ db after a e. tt) (λ a u. rest a)

-- The last two steps of each flow: the code is marked, and the result is returned.
pub Redeems-last :
    {B : Type 0} (code user : Text) (b : B)
    → user ≢ []
    → Redeems code (or_refuse (use_invite code user) >>= λ _. pure b)
Redeems-last code user b given db after c e =
    let (u, q, q') =
      resume-ok (refused (use_invite code user db).0) (use_invite code user db).1 (λ _. pure b) e in
    let q'' = refused-ok (use_invite code user db).0 q in
    let same : (use_invite code user db).1 ≡ after = (pair-eq q').1 in
    (user, given, use_invite-Redeemed code user db after (λ k. (q'' k, same k)))

pub Redeems-refuse : {A : Type 0} (code : Text) → Redeems {A = A} code refuse
Redeems-refuse code db after a e = cc
