-- ===== src/Secrets/Listing.antt =====
-- internal/domain/service/secret/impl.go: what `List` and `EnvVars` give for each key.
use whiteagent.Common.{
  Bool-cases, inl, inr, Option, none, some, List, [], ◌∷◌, Text, text_eq, text_eq_sound,
  if◌then◌else◌, load, Result, ok, err, ok-injective, ◌≡◌, ◌≢◌, refl, sym, ap, ◌∙◌,
}
use whiteagent.Store.{find_row}
use whiteagent.Secrets.Finds.{find_row-hit, find_row-skip, statement-run}
use whiteagent.Secrets.Shadow.{IsSound, picked, first_of, effective-select}
use whiteagent.Secrets.{
  Scope, Secret, Vault, SecretError, Call, Effective, Entry, EnvEntry, Aead, resume, secret_fits,
  default_mode, select, order_by_key, list_secrets, effective, entries, mode_of, list, decrypt,
  sealed_of, env_cons, env_entries, env_vars,
}

-- The user's secret, or else the tenant's.
abbrev pub shown : {B : Type 0} → (Secret → Option B) → Option Secret → Option Secret → Option B
shown show (some s) shared = show s
shown show none (some s) = show s
shown show none none = none

abbrev pub entry_of : Text → Secret → Option Entry
entry_of k s = some (record { key = k; scope = s.scope; mode = default_mode s.mode })

abbrev pub entry_at : Text → List Entry → Option Entry
entry_at k es = find_row (λ e. text_eq k e.key) es

entry_of_load : Text → Option (Scope × Text) → Option Entry
entry_of_load k none = none
entry_of_load k (some (scope, mode)) = some (record { key = k; scope = scope; mode = mode })

entries-entry_at :
    (k : Text) (m : Effective Text) → entry_at k (entries m) ≡ entry_of_load k (load k m)
unfolding load entry_of_load
entries-entry_at k [] = unfold find_row in refl
entries-entry_at k ((j, (scope, mode)) ∷ m) = elim (Bool-cases (text_eq k j)) [
  | inl hit ↦
      find_row-hit _ _ (entries m) hit
      ∙ rw hit (
          ap (λ t. some (record { key = t; scope = scope; mode = mode }))
            (sym (text_eq_sound k j hit)))
  | inr miss ↦ find_row-skip _ _ (entries m) miss ∙ rw miss (entries-entry_at k m)
]

entry_of_first :
    (k : Text) (own shared : Option Secret)
    → entry_of_load k (first_of mode_of (picked mode_of own) (picked mode_of shared))
      ≡ shown (entry_of k) own shared
unfolding entry_of_load
entry_of_first k (some s) shared = refl
entry_of_first k none (some s) = refl
entry_of_first k none none = refl

-- With a sound table and a store that does not fail, `List` succeeds, and has for each key the scope and
-- the mode of the user's secret, or else of the tenant's, or else nothing. The user is not the empty one.
pub list_lem :
    (tenant user : Text) (v : Vault)
    → user ≢ []
    → IsSound v.secrets
    → v.faults ≡ []
    → (r : List Entry) × ((list tenant user v).0 ≡ ok r)
      × ((k : Text)
          → entry_at k r
            ≡ shown
                (entry_of k)
                (find_row (secret_fits tenant user k) v.secrets)
                (find_row (secret_fits tenant [] k) v.secrets))
unfolding list list_secrets
list_lem tenant user v named d quiet =
    let rows = order_by_key (select tenant user v.secrets) in
    let m = effective mode_of rows [] in
    (
      entries m,
      ap (λ (p : Result SecretError (List Secret) × Vault). (resume p.0 p.1 answer).0)
          (statement-run (λ w. (ok (order_by_key (select tenant user w.secrets)), w)) v quiet),
      λ k.
          entries-entry_at k m
          ∙ ap (entry_of_load k) (effective-select mode_of tenant user k named v.secrets d)
          ∙ entry_of_first k _ _,
    )
  where
    answer : List Secret → Call (List Entry)
    answer found w = (ok (entries (effective mode_of found [])), w)

env_value : Text → Text → Result SecretError Text → Option EnvEntry
env_value k mode (err e) = none
env_value k mode (ok value) = some (record { key = k; value = value; mode = mode })

pub variable_of : Aead → Text → Secret → Option EnvEntry
unfolding env_value
variable_of aead k s = env_value k (default_mode s.mode) (decrypt aead s.encrypted)

abbrev pub variable_at : Text → List EnvEntry → Option EnvEntry
variable_at k es = find_row (λ e. text_eq k e.key) es

module _ (aead : Aead) where
  variable_of_load : Text → Option (Scope × (Text × Text)) → Option EnvEntry
  unfolding env_value
  variable_of_load k none = none
  variable_of_load k (some (scope, (encrypted, mode))) = env_value k mode (decrypt aead encrypted)

  env_cons-variable_at :
      (k j mode : Text) (x : Result SecretError Text) (rest : Result SecretError (List EnvEntry))
      (r : List EnvEntry)
      → env_cons j mode x rest ≡ ok r
      → (es : List EnvEntry) × (rest ≡ ok es)
        × (variable_at k r ≡ (if text_eq k j then env_value k mode x else variable_at k es))
  unfolding env_cons env_value
  env_cons-variable_at k j mode (err e) rest r h = cc
  env_cons-variable_at k j mode (ok value) (err e) r h = cc
  env_cons-variable_at k j mode (ok value) (ok es) r h =
      let made = record { key = j; value = value; mode = mode } ∷ es in
      let head : variable_at k r ≡ variable_at k made = ap (variable_at k) (sym (ok-injective h)) in
      (
        es,
        refl,
        elim (Bool-cases (text_eq k j)) [
          | inl hit ↦ rw hit (
              head
              ∙ find_row-hit _ _ es hit
              ∙ ap (λ t. some (record { key = t; value = value; mode = mode }))
                  (sym (text_eq_sound k j hit)))
          | inr miss ↦ rw miss (head ∙ find_row-skip _ _ es miss)
        ],
      )

  env_entries-variable_at :
      (k : Text) (m : Effective (Text × Text)) (r : List EnvEntry)
      → env_entries aead m ≡ ok r
      → variable_at k r ≡ variable_of_load k (load k m)
  unfolding load variable_of_load env_entries
  env_entries-variable_at k [] r h =
      ap (variable_at k) (sym (ok-injective h)) ∙ (unfold find_row in refl)
  env_entries-variable_at k ((j, (scope, (encrypted, mode))) ∷ m) r h =
      let (es, done, at_head) =
        env_cons-variable_at k j mode (decrypt aead encrypted) (env_entries aead m) r h in
      at_head ∙ elim (Bool-cases (text_eq k j)) [
        | inl hit ↦ rw hit refl
        | inr miss ↦ rw miss (env_entries-variable_at k m es done)
      ]

  variable_of_first :
      (k : Text) (own shared : Option Secret)
      → variable_of_load k (first_of sealed_of (picked sealed_of own) (picked sealed_of shared))
        ≡ shown (variable_of aead k) own shared
  unfolding variable_of_load variable_of
  variable_of_first k (some s) shared = refl
  variable_of_first k none (some s) = refl
  variable_of_first k none none = refl

-- With a sound table and a store that does not fail, what `EnvVars` gives, if all the values that it wants
-- can be decrypted, has for each key the value and the mode of the user's secret, or else of the tenant's,
-- or else nothing. The user is not the empty one.
pub env_vars_lem :
    (aead : Aead) (tenant user : Text) (v : Vault) (r : List EnvEntry)
    → user ≢ []
    → IsSound v.secrets
    → v.faults ≡ []
    → (env_vars aead tenant user v).0 ≡ ok r
    → (k : Text)
    → variable_at k r
      ≡ shown
          (variable_of aead k)
          (find_row (secret_fits tenant user k) v.secrets)
          (find_row (secret_fits tenant [] k) v.secrets)
unfolding env_vars list_secrets
env_vars_lem aead tenant user v r named d quiet h k =
    let m = effective sealed_of (order_by_key (select tenant user v.secrets)) [] in
    let ran =
      ap (λ (p : Result SecretError (List Secret) × Vault). (resume p.0 p.1 answer).0)
        (statement-run (λ w. (ok (order_by_key (select tenant user w.secrets)), w)) v quiet) in
    env_entries-variable_at aead k m r (sym ran ∙ h)
    ∙ ap (variable_of_load aead k) (effective-select sealed_of tenant user k named v.secrets d)
    ∙ variable_of_first aead k _ _
  where
    answer : List Secret → Call (List EnvEntry)
    answer found w = (env_entries aead (effective sealed_of found []), w)
