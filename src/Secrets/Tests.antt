-- ===== src/Secrets/Tests.antt =====
-- Tests and examples for internal/domain/service/secret/impl.go, with a cipher that only puts a byte in
-- front.
use whiteagent.Common.{
  ℕ, ◌+◌, Bool, true, false, Option, none, some, List, [], ◌∷◌, ◌++◌, Text, codes, text_eq,
  has_prefix, length, load, store, Result, ok, err, ◌≡◌, ◌≢◌, inl, inr, refl, sym, ap, ◌∙◌, arith,
}
use whiteagent.Store.{find_row, upsert}
use whiteagent.Secrets.{
  Scope, tenant_scope, user_scope, Secret, SecretToken, Vault, SecretError, token_used, Call, Aead,
  Draw, Submission, Entry, EnvEntry, secret_fits, statement, on_faults, set, get, list, env_vars,
  redact, delete, validate_token, consume_token, consume_secret_token,
}
use whiteagent.Secrets.Shadow.{IsSound}
use whiteagent.Secrets.Sound.{consume_token-delete-KeepsSound}
use whiteagent.Secrets.Values.{OpensSealed, set-get}
use whiteagent.Secrets.Listing.{
  shown, entry_of, entry_at, list_lem, variable_of, variable_at, env_vars_lem,
}
use whiteagent.Secrets.Tokens.{consume_token-validate_token}

abbrev open_byte : Text → Option Text
open_byte [] = none
open_byte (c ∷ s) = some s

abbrev cipher : Aead
cipher = record {
  nonce_size = 1;
  seal = λ nonce plaintext. 9 ∷ plaintext;
  open_sealed = λ nonce s. open_byte s;
}

cipher-OpensSealed : OpensSealed cipher
cipher-OpensSealed = record { opens = λ nonce plaintext sized. refl }

abbrev one : Draw
one = record { nonce = some (1 ∷ []); id = codes "s9" }

abbrev ours : Secret
ours = record {
  id = codes "s1";
  key = codes "KEY";
  encrypted = 1 ∷ 9 ∷ codes "tenant";
  scope = tenant_scope;
  mode = codes "value";
  tenant = codes "t";
  user = [];
}

abbrev mine : Secret
mine = record ours {
  id = codes "s2";
  encrypted = 1 ∷ 9 ∷ codes "own";
  scope = user_scope;
  user = codes "ann";
}

abbrev entry_token : SecretToken
entry_token = record {
  token_id = codes "k";
  keys = codes "KEY" ∷ [];
  modes = [];
  tenant = codes "t";
  user = codes "ann";
  conversation = [];
  chat = [];
  expires_at = 100;
  used = false;
}

abbrev vault : Vault
vault = record { secrets = ours ∷ mine ∷ []; tokens = entry_token ∷ []; faults = [] }

vault-IsSound : IsSound vault.secrets
unfolding find_row text_eq
vault-IsSound = (inl (refl, refl), (refl, (inr ((λ e. cc), refl), (refl, tt))))

named : codes "ann" ≢ []
named e = cc

set-get_example :
    let (r, w) = set cipher (codes "t") (codes "ann") (codes "KEY") (codes "v") [] one vault in
    (r ≡ ok tt)
    × ((get cipher (codes "t") (codes "ann") (codes "KEY") w).0 ≡ ok (codes "v"))
    × ((t u k : Text)
        → ¬ ((t ≡ codes "t") × (u ≡ codes "ann") × (k ≡ codes "KEY"))
        → (get cipher t u k w).0 ≡ (get cipher t u k vault).0)
set-get_example =
    set-get cipher cipher-OpensSealed (codes "t") (codes "ann") (codes "KEY") (codes "v") []
      (1 ∷ []) (codes "s9") vault refl refl

abbrev tenant_of : Option Secret
tenant_of = find_row (secret_fits (codes "t") [] (codes "KEY")) vault.secrets

list_lem_example :
    (r : List Entry) × ((list (codes "t") (codes "ann") vault).0 ≡ ok r)
    × ((k : Text)
        → entry_at k r
          ≡ shown
              (entry_of k)
              (find_row (secret_fits (codes "t") (codes "ann") k) vault.secrets)
              (find_row (secret_fits (codes "t") [] k) vault.secrets))
list_lem_example = list_lem (codes "t") (codes "ann") vault named vault-IsSound refl

abbrev own_variable : EnvEntry
own_variable = record { key = codes "KEY"; value = codes "own"; mode = codes "value" }

env_vars_own : (env_vars cipher (codes "t") (codes "ann") vault).0 ≡ ok (own_variable ∷ [])
unfolding env_vars whiteagent.Secrets.list_secrets statement whiteagent.Secrets.effective text_eq
    whiteagent.Common.text_le load store whiteagent.Secrets.decrypt
env_vars_own = refl

env_vars_lem_example :
    variable_at (codes "KEY") (own_variable ∷ [])
    ≡ shown
        (variable_of cipher (codes "KEY"))
        (find_row (secret_fits (codes "t") (codes "ann") (codes "KEY")) vault.secrets)
        (find_row (secret_fits (codes "t") [] (codes "KEY")) vault.secrets)
env_vars_lem_example =
    env_vars_lem cipher (codes "t") (codes "ann") vault (own_variable ∷ []) named vault-IsSound refl
      env_vars_own (codes "KEY")

consume_token-delete-KeepsSound_example :
    ((id : Text) (now : ℕ) (form_values : List (Text × Submission × Draw))
      → IsSound (consume_token cipher id now form_values vault).1.secrets)
    × ((tenant user key : Text) → IsSound (delete tenant user key vault).1.secrets)
consume_token-delete-KeepsSound_example = consume_token-delete-KeepsSound cipher vault vault-IsSound

abbrev form : Submission
form = record { value = codes "new"; mode = [] }

abbrev form_values : List (Text × Submission × Draw)
form_values = (codes "KEY", form, one) ∷ []

-- The vault after the form was form_sent.
abbrev after_form : Vault
after_form = record vault {
  secrets = ours ∷ record mine { id = codes "s9"; encrypted = 1 ∷ 9 ∷ codes "new" } ∷ [];
  tokens = record entry_token { used = true } ∷ [];
}

form_sent : consume_token cipher (codes "k") 50 form_values vault ≡ (ok tt, after_form)
unfolding consume_token whiteagent.Secrets.get_token statement find_row text_eq
    whiteagent.Secrets.save_secret consume_secret_token upsert whiteagent.Secrets.mark_consumed
form_sent = refl

consume_token-validate_token_example :
    (validate_token (codes "k") 60 after_form ≡ (err token_used, after_form))
    × (consume_token cipher (codes "k") 60 form_values after_form ≡ (err token_used, after_form))
consume_token-validate_token_example =
    consume_token-validate_token cipher (codes "k") 50 form_values vault after_form refl form_sent
      60 form_values

redacts :
    (redact cipher true (codes "it is tenant!") (codes "t") (codes "bob") vault).0
    ≡ codes "it is [REDACTED]!"
unfolding redact whiteagent.Secrets.list_secrets statement whiteagent.Secrets.effective text_eq
    whiteagent.Secrets.decrypt load store has_prefix
redacts = refl
