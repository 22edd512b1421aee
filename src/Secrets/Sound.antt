-- ===== src/Secrets/Sound.antt =====
-- internal/domain/service/secret/impl.go: the table of secrets under the writes of the service.
use whiteagent.Common.{
  ℕ, Bool, true, false, Bool-cases, inl, inr, Option, none, some, List, [], ◌∷◌, Text, Result, ok,
  err, ◌≡◌, refl, sym, ◌∙◌,
}
use whiteagent.Store.{find_row, upsert, delete_rows}
use whiteagent.Secrets.Finds.{
  find_row-hit, find_row-skip, find_row-upsert_other, fits_sound, fits_by, fits_not,
}
use whiteagent.Secrets.Shadow.{ScopeFits, IsSound}
use whiteagent.Secrets.{
  Secret, SecretToken, Vault, consumed, SecretError, Call, Aead, Draw, default_mode, Submission,
  resume, ◌>>=◌, secret_fits, replaced, statement, on_faults, save_secret, delete_secret, get_token,
  consume_secret_token, scope_of, encrypt, put_secret, set, delete, set_values, validate_token,
  consume_token,
}

apart :
    (tenant user key : Text) (a b : Secret)
    → secret_fits tenant user key a ≡ false
    → secret_fits tenant user key b ≡ true
    → secret_fits a.tenant a.user a.key b ≡ false
apart tenant user key a b miss hit =
    let (p, q, r) = fits_sound tenant user key b hit in
    fits_not a.tenant a.user a.key b
      (λ e. absurd (cc (miss, fits_by tenant user key a (sym e.0 ∙ p) (sym e.1 ∙ q) (sym e.2 ∙ r))))

-- Other rows' keys are searched as before.
apart_saved :
    (tenant mode : Text) (s new a : Secret) (rows : List Secret)
    → secret_fits tenant s.user s.key new ≡ true
    → secret_fits tenant s.user s.key a ≡ false
    → find_row
        (secret_fits a.tenant a.user a.key)
        (upsert (secret_fits tenant s.user s.key) (replaced mode s) new rows)
      ≡ find_row (secret_fits a.tenant a.user a.key) rows
apart_saved tenant mode s new a rows fits miss =
    find_row-upsert_other (secret_fits tenant s.user s.key) (secret_fits a.tenant a.user a.key)
      (replaced mode s) new rows
      (λ b hit. (
        apart tenant s.user s.key a b miss hit,
        apart tenant s.user s.key a (replaced mode s b) miss hit,
      ))
      (apart tenant s.user s.key a new miss fits)

upsert-IsSound :
    (tenant mode : Text) (s new : Secret) (rows : List Secret)
    → ScopeFits s
    → ScopeFits new
    → secret_fits tenant s.user s.key new ≡ true
    → IsSound rows
    → IsSound (upsert (secret_fits tenant s.user s.key) (replaced mode s) new rows)
unfolding upsert
upsert-IsSound tenant mode s new [] scope scope' fits d = (scope', (unfold find_row in refl, tt))
upsert-IsSound tenant mode s new (a ∷ rows) scope scope' fits d =
    elim (Bool-cases (secret_fits tenant s.user s.key a)) [
      | inl hit ↦
          let same = (fits_sound tenant s.user s.key a hit).1 in rw hit (rescoped same scope, d.1)
      | inr miss ↦ rw miss (
        d.0,
        (
          apart_saved tenant mode s new a rows fits miss ∙ d.1.0,
          upsert-IsSound tenant mode s new rows scope scope' fits d.1.1,
        ),
      )
    ]
  where
    rescoped : a.user ≡ s.user → ScopeFits s → ScopeFits (replaced mode s a)
    rescoped same (inl (u, t)) = inl (same ∙ u, t)
    rescoped same (inr (u, t)) = inr (λ e. u (sym same ∙ e), t)

delete_rows-none :
    (p q : Secret → Bool) (rows : List Secret)
    → find_row q rows ≡ none
    → find_row q (delete_rows p rows) ≡ none
unfolding delete_rows
delete_rows-none p q [] h = h
delete_rows-none p q (a ∷ rows) h = elim (Bool-cases (q a)) [
  | inl fits ↦ absurd (cc (h, find_row-hit q a rows fits))
  | inr not_fits ↦
      let rest = delete_rows-none p q rows (sym (find_row-skip q a rows not_fits) ∙ h) in
      elim (Bool-cases (p a)) [
        | inl gone ↦ rw gone rest
        | inr stays ↦ rw stays (find_row-skip q a (delete_rows p rows) not_fits ∙ rest)
      ]
]

delete_rows-IsSound :
    (p : Secret → Bool) (rows : List Secret) → IsSound rows → IsSound (delete_rows p rows)
unfolding delete_rows
delete_rows-IsSound p [] d = tt
delete_rows-IsSound p (a ∷ rows) d = elim (Bool-cases (p a)) [
  | inl gone ↦ rw gone (delete_rows-IsSound p rows d.1.1)
  | inr stays ↦ rw stays (
    d.0,
    (
      delete_rows-none p (secret_fits a.tenant a.user a.key) rows d.1.0,
      delete_rows-IsSound p rows d.1.1,
    ),
  )
]

-- A call that leaves the rows sound.
abbrev pub KeepsSound : {A : Type 0} → Call A → Type 0
KeepsSound call = (v : Vault) → IsSound v.secrets → IsSound (call v).1.secrets

module _ {A : Type 0} where
  statement-KeepsSound : (run : Call A) → KeepsSound run → KeepsSound (statement run)
  unfolding statement
  statement-KeepsSound run keeps v d = by_faults v.faults
    where
      by_faults : (fs : List Bool) → IsSound (on_faults fs v run).1.secrets
      by_faults [] = unfold on_faults in keeps v d
      by_faults (true ∷ fs) = unfold on_faults in d
      by_faults (false ∷ fs) = unfold on_faults in keeps (record v { faults = fs }) d

  bind-KeepsSound :
      {B : Type 0} (call : Call A) (next : A → Call B)
      → KeepsSound call
      → ((a : A) → KeepsSound (next a))
      → KeepsSound (call >>= next)
  bind-KeepsSound call next first then' v d = by_result (call v).0 (call v).1 (first v d)
    where
      by_result :
          (r : Result SecretError A) (w : Vault)
          → IsSound w.secrets
          → IsSound (resume r w next).1.secrets
      by_result (err e) w d' = d'
      by_result (ok a) w d' = then' a w d'

new_row :
    (id key encrypted mode tenant user : Text)
    → ScopeFits (record {
      id = id;
      key = key;
      encrypted = encrypted;
      scope = scope_of user;
      mode = mode;
      tenant = tenant;
      user = user;
    })
new_row id key encrypted mode tenant [] = inl (refl, refl)
new_row id key encrypted mode tenant (c ∷ user) = inr (λ e. cc, refl)

save_secret-KeepsSound :
    (tenant : Text) (s : Secret)
    → ScopeFits s
    → s.tenant ≡ tenant
    → KeepsSound (save_secret tenant s)
unfolding save_secret
save_secret-KeepsSound tenant s scope same = statement-KeepsSound _ (λ w e.
    let new : Secret = record s { mode = default_mode s.mode; tenant = tenant } in
    upsert-IsSound tenant (default_mode s.mode) s new w.secrets scope scope
      (fits_by tenant s.user s.key new refl refl refl) e)

pub set-KeepsSound :
    (aead : Aead) (tenant user key value mode : Text) (draw : Draw)
    → KeepsSound (set aead tenant user key value mode draw)
unfolding set
set-KeepsSound aead tenant user key value mode draw = by_sealed (encrypt aead draw.nonce value)
  where
    by_sealed :
        (r : Result SecretError Text) → KeepsSound (put_secret r tenant user key mode draw.id)
    by_sealed (err e) v d = unfold put_secret in d
    by_sealed (ok data') v d =
        unfold put_secret in
        save_secret-KeepsSound tenant
          (record {
            id = draw.id;
            key = key;
            encrypted = data';
            scope = scope_of user;
            mode = default_mode mode;
            tenant = tenant;
            user = user;
          })
          (new_row draw.id key data' (default_mode mode) tenant user) refl v d

set_values-KeepsSound :
    (aead : Aead) (tenant user : Text) (values : List (Text × Submission × Draw))
    → KeepsSound (set_values aead tenant user values)
unfolding set_values
set_values-KeepsSound aead tenant user [] v d = d
set_values-KeepsSound aead tenant user ((key, sub, draw) ∷ more) v d =
    bind-KeepsSound (set aead tenant user key sub.value (default_mode sub.mode) draw)
      (λ _. set_values aead tenant user more)
      (set-KeepsSound aead tenant user key sub.value (default_mode sub.mode) draw)
      (λ _. set_values-KeepsSound aead tenant user more) v d

get_token-KeepsSound : (id : Text) → KeepsSound (get_token id)
unfolding get_token
get_token-KeepsSound id = statement-KeepsSound _ (λ w e. e)

validate_token-KeepsSound : (id : Text) (now : ℕ) → KeepsSound (validate_token id now)
unfolding validate_token
validate_token-KeepsSound id now =
    bind-KeepsSound (get_token id) _ (get_token-KeepsSound id) (λ found w e. e)

consume_secret_token-KeepsSound : (id : Text) → KeepsSound (consume_secret_token id)
unfolding consume_secret_token
consume_secret_token-KeepsSound id =
    statement-KeepsSound _ (λ w e. by_row w e (find_row _ w.tokens))
  where
    by_row :
        (w : Vault)
        → IsSound w.secrets
        → (o : Option SecretToken) → IsSound (consumed id w o).1.secrets
    by_row w e none = e
    by_row w e (some t) = e

-- `Delete` and `ConsumeToken`, which sets any number of values, keep the table of secrets sound, whatever
-- fails: no two rows are for the same tenant, user and key, and a row's scope is the tenant's exactly if it
-- has no user.
pub consume_token-delete-KeepsSound :
    (aead : Aead) (v : Vault)
    → IsSound v.secrets
    → ((id : Text) (now : ℕ) (values : List (Text × Submission × Draw))
        → IsSound (consume_token aead id now values v).1.secrets)
      × ((tenant user key : Text) → IsSound (delete tenant user key v).1.secrets)
unfolding consume_token delete delete_secret
consume_token-delete-KeepsSound aead v d = (
  λ id now values.
      bind-KeepsSound (validate_token id now) _ (validate_token-KeepsSound id now)
        (λ t.
          bind-KeepsSound (set_values aead t.tenant t.user values) _
            (set_values-KeepsSound aead t.tenant t.user values)
            (λ _. consume_secret_token-KeepsSound id))
        v d,
  λ tenant user key.
      statement-KeepsSound _ (λ w e. delete_rows-IsSound (secret_fits tenant user key) w.secrets e)
        v d,
)
