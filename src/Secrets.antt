-- ===== src/Secrets.antt =====
-- internal/domain/service/secret/impl.go: the secrets of users and tenants, kept encrypted.
-- The cipher (Go's AES-256-GCM) is a parameter. A draw holds what a call gets from outside: the nonce, if
-- there is one, and a new identifier. Values of Go's `map` come in the order in which they are visited.
mod Rows
pub mod Finds
pub mod Shadow
pub mod Sound
pub mod Values
pub mod Listing
pub mod Tokens
pub mod Tests
unfoldable pub use Rows.*
use whiteagent.Common.{
  ℕ, zero, suc, ◌+◌, ◌-◌, ◌*◌, Bool, true, false, not, ◌&&◌, Option, none, some, List, [], ◌∷◌,
  ◌++◌, Text, codes, text_eq, has_prefix, take_bytes, after, length, ltb, if◌then◌else◌, is_empty,
  load, store, Result, ok, err,
}

-- cipher.AEAD, with no additional data
pub record Aead : Type 0 where
  pub nonce_size : ℕ
  pub seal : Text → Text → Text
  pub open_sealed : Text → Text → Option Text

pub record Draw : Type 0 where
  pub nonce : Option Text
  pub id : Text

-- SecretEntry
pub record Entry : Type 0 where
  pub key : Text
  pub scope : Scope
  pub mode : Text

-- SecretEnvEntry
pub record EnvEntry : Type 0 where
  pub key : Text
  pub value : Text
  pub mode : Text

-- SecretSubmission
pub record Submission : Type 0 where
  pub value : Text
  pub mode : Text

-- `if err != nil { return err }` after a call.
abbrev pub resume :
    {A B : Type 0} → Result SecretError A → Vault → (A → Call B) → Result SecretError B × Vault
resume (err e) v next = (err e, v)
resume (ok a) v next = next a v

module _ {A B : Type 0} where
  infixl 5 ◌>>=◌
  abbrev pub ◌>>=◌ : Call A → (A → Call B) → Call B
  (call >>= next) v = resume (call v).0 (call v).1 next

-- What a map of the effective secrets holds for a key: the scope, and what a caller wants of the secret.
abbrev pub Effective : Type 0 → Type 0
Effective A = List (Text × (Scope × A))

abbrev pub shadows : {A : Type 0} → Option (Scope × A) → Scope → Bool
shadows none scope = true
shadows (some (tenant_scope, a)) user_scope = true
shadows (some (tenant_scope, a)) tenant_scope = false
shadows (some (user_scope, a)) scope = false

module _ {A : Type 0} (wanted : Secret → Option A) where
  add_effective : Option A → Secret → Effective A → Effective A
  add_effective none s m = m
  add_effective (some a) s m =
      if shadows (load s.key m) s.scope then store s.key (s.scope, a) m else m

  -- The loop over the rows that `List`, `Redact` and `EnvVars` have.
  unfoldable pub effective : List Secret → Effective A → Effective A
  unfolding add_effective
  effective [] m = m
  effective (s ∷ ss) m = effective ss (add_effective (wanted s) s m)

abbrev scope_of : Text → Scope
scope_of user = if is_empty user then tenant_scope else user_scope

put_secret : Result SecretError Text → Text → Text → Text → Text → Text → Call (Unit {0})
put_secret (err e) tenant user key mode id v = (err e, v)
put_secret (ok encrypted) tenant user key mode id v =
    save_secret tenant
      (record {
        id = id;
        key = key;
        encrypted = encrypted;
        scope = scope_of user;
        mode = default_mode mode;
        tenant = tenant;
        user = user;
      })
      v

abbrev present : Option Secret → Bool
present none = false
present (some s) = true

pub exists : Text → Text → Text → Call Bool
exists tenant user key = get_secret tenant user key >>= (λ found v. (ok (present found), v))

abbrev pub mode_of : Secret → Option Text
mode_of s = some (default_mode s.mode)

abbrev pub entries : Effective Text → List Entry
entries [] = []
entries ((key, (scope, mode)) ∷ m) = record { key = key; scope = scope; mode = mode } ∷ entries m

pub list : Text → Text → Call (List Entry)
list tenant user =
    list_secrets tenant user >>= (λ rows v. (ok (entries (effective mode_of rows [])), v))

pub delete : Text → Text → Text → Call (Unit {0})
delete tenant user key = delete_secret tenant user key

abbrev pub redacted : Text
redacted = codes "[REDACTED]"

-- One value at the front of a text is skipped once it is replaced: `skip` bytes of it are left.
replace_from : Text → ℕ → Text → Text
replace_from old skip [] = []
replace_from old (suc skip) (c ∷ s) = replace_from old skip s
replace_from old zero (c ∷ s) =
    if has_prefix (c ∷ s) old
    then redacted ++ replace_from old (length old - 1) s
    else c ∷ replace_from old zero s

-- strings.ReplaceAll for a value that is not empty; it changes only a text that contains the value.
pub replace_all : Text → Text → Text
unfolding replace_from
replace_all old s = replace_from old zero s

abbrev pub sealed_of : Secret → Option (Text × Text)
sealed_of s = some (s.encrypted, default_mode s.mode)

-- What `RequestEntry` makes of the identifier and the time that it draws.
abbrev pub new_token :
    List Text → List (Text × Text) → Text → Text → Text → Text → Text → ℕ → SecretToken
new_token keys modes tenant user conversation chat id now = record {
  token_id = id;
  keys = keys;
  modes = modes;
  tenant = tenant;
  user = user;
  conversation = conversation;
  chat = chat;
  expires_at = now + 3600 * 1000000000;
  used = false;
}

pub request_entry :
    Text → List Text → List (Text × Text) → Text → Text → Text → Text → Text → ℕ → Call Text
request_entry url keys modes tenant user conversation chat id now =
    save_token (new_token keys modes tenant user conversation chat id now)
    >>= (λ _ v. (ok (url ++ codes "/secrets/" ++ id), v))

abbrev pub check_token : ℕ → Option SecretToken → Result SecretError SecretToken
check_token now none = err token_missing
check_token now (some t) =
    if t.used then err token_used else if ltb t.expires_at now then err token_expired else ok t

pub validate_token : Text → ℕ → Call SecretToken
validate_token id now = get_token id >>= (λ found v. (check_token now found, v))

-- The first value that cannot be decrypted ends the loop.
env_cons :
    Text
    → Text
    → Result SecretError Text
    → Result SecretError (List EnvEntry)
    → Result SecretError (List EnvEntry)
env_cons key mode (err e) rest = err e
env_cons key mode (ok value) (err e) = err e
env_cons key mode (ok value) (ok rest) =
    ok (record { key = key; value = value; mode = mode } ∷ rest)

module _ (aead : Aead) where
  encrypt : Option Text → Text → Result SecretError Text
  encrypt none plaintext = err no_nonce
  encrypt (some nonce) plaintext = ok (nonce ++ aead.seal nonce plaintext)

  abbrev opened : Option Text → Result SecretError Text
  opened none = err not_opened
  opened (some value) = ok value

  pub decrypt : Text → Result SecretError Text
  decrypt data' =
      if ltb (length data') aead.nonce_size
      then err too_short
      else opened
          (aead.open_sealed (take_bytes aead.nonce_size data') (after aead.nonce_size data'))

  pub set : Text → Text → Text → Text → Text → Draw → Call (Unit {0})
  unfolding encrypt put_secret
  set tenant user key value mode draw =
      put_secret (encrypt draw.nonce value) tenant user key mode draw.id

  got : Option Secret → Result SecretError Text
  unfolding decrypt
  got none = err secret_missing
  got (some s) = decrypt s.encrypted

  pub get : Text → Text → Text → Call Text
  unfolding got
  get tenant user key = get_secret tenant user key >>= (λ found v. (got found, v))

  abbrev pub value_of : Secret → Option Text
  value_of s = elim (decrypt s.encrypted) [ err e ↦ none | ok value ↦ some value ]

  pub redact_values : Effective Text → Text → Text
  unfolding replace_all
  redact_values [] s = s
  redact_values ((key, (scope, value)) ∷ m) s =
      redact_values m (if ltb (length value) 4 then s else replace_all value s)

  redact_rows : Result SecretError (List Secret) × Vault → Text → Text × Vault
  unfolding redact_values
  redact_rows (err e, v) s = (s, v)
  redact_rows (ok rows, v) s = (redact_values (effective value_of rows []) s, v)

  pub redact : Bool → Text → Text → Text → Vault → Text × Vault
  unfolding redact_rows
  redact enabled s tenant user v =
      if enabled then redact_rows (list_secrets tenant user v) s else (s, v)

  env_entries : Effective (Text × Text) → Result SecretError (List EnvEntry)
  unfolding env_cons
  env_entries [] = ok []
  env_entries ((key, (scope, (encrypted, mode))) ∷ m) =
      env_cons key mode (decrypt encrypted) (env_entries m)

  pub env_vars : Text → Text → Call (List EnvEntry)
  unfolding env_entries
  env_vars tenant user =
      list_secrets tenant user >>= (λ rows v. (env_entries (effective sealed_of rows []), v))

  pub set_values : Text → Text → List (Text × Submission × Draw) → Call (Unit {0})
  unfolding set
  set_values tenant user [] v = (ok tt, v)
  set_values tenant user ((key, sub, draw) ∷ more) v =
      (set tenant user key sub.value (default_mode sub.mode) draw
          >>= (λ _. set_values tenant user more))
        v

  pub consume_token : Text → ℕ → List (Text × Submission × Draw) → Call (Unit {0})
  unfolding set_values validate_token
  consume_token id now values =
      validate_token id now
      >>= (λ t. set_values t.tenant t.user values >>= (λ _. consume_secret_token id))
