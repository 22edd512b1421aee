-- ===== src/Secrets/Rows.antt =====
-- pkg/plugins/store/sqlite/secret.go and internal/domain/entity/secret.go: the rows of secrets and of the
-- tokens for entering them, and the statements on the two tables.
-- Any statement may fail, also because of an identifier that is in use: `faults` holds, for the statements
-- to come, whether they do. The times of creation and update are left out, since no statement tests them.
-- Times are in nanoseconds. The lists of keys and modes of a token, which the table has as JSON, are lists.
use whiteagent.Common.{
  ℕ, ◌*◌, ◌/◌, Bool, true, false, not, ◌&&◌, ◌||◌, Option, none, some, List, [], ◌∷◌, ◌++◌, Text,
  codes, text_eq, text_le, if◌then◌else◌, is_empty, Result, ok, err,
}
use whiteagent.Store.{find_row, upsert, delete_rows}

pub data Scope : Type 0 where
  tenant_scope user_scope : Scope

pub record Secret : Type 0 where
  pub id : Text
  pub key : Text
  pub encrypted : Text
  pub scope : Scope
  pub mode : Text
  pub tenant : Text
  pub user : Text

pub record SecretToken : Type 0 where
  pub token_id : Text
  pub keys : List Text
  pub modes : List (Text × Text)
  pub tenant : Text
  pub user : Text
  pub conversation : Text
  pub chat : Text
  pub expires_at : ℕ
  pub used : Bool

pub record Vault : Type 0 where
  pub secrets : List Secret
  pub tokens : List SecretToken
  pub faults : List Bool

pub data SecretError : Type 0 where
  store_failed no_nonce too_short not_opened secret_missing : SecretError
  token_missing token_used token_expired not_consumed : SecretError

-- A call that reads or writes the two tables.
abbrev pub Call : Type 0 → Type 0
Call A = Vault → Result SecretError A × Vault

unfoldable pub on_faults : {A : Type 0} → List Bool → Vault → Call A → Result SecretError A × Vault
on_faults [] v run = run v
on_faults (true ∷ fs) v run = (err store_failed, record v { faults = fs })
on_faults (false ∷ fs) v run = run (record v { faults = fs })

unfoldable pub statement : {A : Type 0} → Call A → Call A
unfolding on_faults
statement run v = on_faults v.faults v run

abbrev pub default_mode : Text → Text
default_mode mode = if is_empty mode then codes "value" else mode

abbrev pub secret_fits : Text → Text → Text → Secret → Bool
secret_fits tenant user key s =
    text_eq s.tenant tenant && (text_eq s.user user && text_eq s.key key)

-- On a conflict the row in the way gets all columns but those of the conflict.
abbrev pub replaced : Text → Secret → Secret → Secret
replaced mode s old = record old {
  id = s.id;
  encrypted = s.encrypted;
  scope = s.scope;
  mode = mode;
}

abbrev pub saved : Text → Secret → List Secret → List Secret
saved tenant s rows =
    let mode = default_mode s.mode in
    upsert (secret_fits tenant s.user s.key) (replaced mode s)
      (record s { mode = mode; tenant = tenant }) rows

unfoldable pub save_secret : Text → Secret → Call (Unit {0})
save_secret tenant s = statement (λ v. (ok tt, record v { secrets = saved tenant s v.secrets }))

unfoldable pub get_secret : Text → Text → Text → Call (Option Secret)
get_secret tenant user key =
    statement (λ v. (ok (find_row (secret_fits tenant user key) v.secrets), v))

abbrev pub visible : Text → Text → Secret → Bool
visible tenant user s = text_eq s.tenant tenant && (is_empty s.user || text_eq s.user user)

unfoldable pub select : Text → Text → List Secret → List Secret
select tenant user [] = []
select tenant user (s ∷ ss) =
    let rest = select tenant user ss in if visible tenant user s then s ∷ rest else rest

unfoldable pub insert_by_key : Secret → List Secret → List Secret
insert_by_key s [] = s ∷ []
insert_by_key s (t ∷ ts) =
    let rest = insert_by_key s ts in if text_le s.key t.key then s ∷ t ∷ ts else t ∷ rest

-- ORDER BY key; rows with the same key stay in the order of the table.
unfoldable pub order_by_key : List Secret → List Secret
unfolding insert_by_key
order_by_key [] = []
order_by_key (s ∷ ss) = insert_by_key s (order_by_key ss)

unfoldable pub list_secrets : Text → Text → Call (List Secret)
unfolding select order_by_key
list_secrets tenant user = statement (λ v. (ok (order_by_key (select tenant user v.secrets)), v))

unfoldable pub delete_secret : Text → Text → Text → Call (Unit {0})
delete_secret tenant user key =
    statement
      (λ v. (ok tt, record v { secrets = delete_rows (secret_fits tenant user key) v.secrets }))

-- A time as the table keeps it, in whole seconds.
abbrev pub whole_seconds : ℕ → ℕ
whole_seconds t = t / 1000000000 * 1000000000

unfoldable pub save_token : SecretToken → Call (Unit {0})
save_token t = statement (λ v. (
  ok tt,
  record v {
    tokens = v.tokens ++ (record t { expires_at = whole_seconds t.expires_at; used = false } ∷ []);
  },
))

abbrev pub token_fits : Text → SecretToken → Bool
token_fits id t = text_eq t.token_id id

unfoldable pub get_token : Text → Call (Option SecretToken)
get_token id = statement (λ v. (ok (find_row (token_fits id) v.tokens), v))

unfoldable pub mark_consumed : Text → List SecretToken → List SecretToken
mark_consumed id [] = []
mark_consumed id (t ∷ ts) =
    let rest = mark_consumed id ts in
    if token_fits id t && not t.used then record t { used = true } ∷ rest else t ∷ rest

-- No row was updated: the token is missing, or used.
abbrev pub consumed : Text → Vault → Option SecretToken → Result SecretError (Unit {0}) × Vault
consumed id v none = (err not_consumed, v)
consumed id v (some t) = (ok tt, record v { tokens = mark_consumed id v.tokens })

unfoldable pub consume_secret_token : Text → Call (Unit {0})
consume_secret_token id =
    statement (λ v. consumed id v (find_row (λ t. token_fits id t && not t.used) v.tokens))
