-- ===== src/Secrets/Values.antt =====
-- internal/domain/service/secret/impl.go: the values that `Get` reads after `Set`, and the tokens.
use whiteagent.Common.{
  true, false, inl, inr, Option, some, List, [], ◌++◌, Text, take_bytes, after, take_bytes-append,
  after-append, length-append, length, ltb, Result, ok, ◌≡◌, refl, sym, ap, ◌∙◌, subst, arith,
}
use whiteagent.Store.{find_row, upsert}
use whiteagent.Secrets.Finds.{
  find_row-upsert, find_row-upsert_other, fits_sound, fits_by, fits_not, statement-run,
}
use whiteagent.Secrets.{
  Secret, Vault, SecretError, Call, Aead, resume, default_mode, secret_fits, replaced, saved,
  save_secret, get_secret, scope_of, encrypt, decrypt, put_secret, set, got, get,
}

-- What the cipher is for: what was sealed is opened again.
pub record OpensSealed (aead : Aead) : Type 0 where
  pub opens :
      (nonce plaintext : Text)
      → length nonce ≡ aead.nonce_size
      → aead.open_sealed nonce (aead.seal nonce plaintext) ≡ some plaintext

module _ (aead : Aead) (opens : OpensSealed aead) where
  decrypt_sealed :
      (nonce value : Text)
      → length nonce ≡ aead.nonce_size
      → decrypt aead (nonce ++ aead.seal nonce value) ≡ ok value
  unfolding decrypt
  decrypt_sealed nonce value fits =
      let data' = nonce ++ aead.seal nonce value in
      let long : ltb (length data') aead.nonce_size ≡ false =
        ground (arith, length-append nonce (aead.seal nonce value), fits) in
      let front : take_bytes aead.nonce_size data' ≡ nonce =
        subst (λ n. take_bytes n data' ≡ nonce) fits
          (take_bytes-append nonce (aead.seal nonce value)) in
      let back : after aead.nonce_size data' ≡ aead.seal nonce value =
        subst (λ n. after n data' ≡ aead.seal nonce value) fits
          (after-append nonce (aead.seal nonce value)) in
      rw long (rw front (rw back (rw (opens.opens nonce value fits) refl)))

-- Another secret's row is found as before.
other_saved :
    (tenant user key t u k : Text) (s new : Secret) (mode : Text) (rows : List Secret)
    → s.user ≡ user
    → s.key ≡ key
    → secret_fits tenant user key new ≡ true
    → ¬ ((t ≡ tenant) × (u ≡ user) × (k ≡ key))
    → find_row (secret_fits t u k) (upsert (secret_fits tenant user key) (replaced mode s) new rows)
      ≡ find_row (secret_fits t u k) rows
other_saved tenant user key t u k s new mode rows p q fits ne =
    find_row-upsert_other (secret_fits tenant user key) (secret_fits t u k) (replaced mode s) new
      rows (λ a hit. (apart a hit, apart (replaced mode s a) hit)) (apart new fits)
  where
    apart : (a : Secret) → secret_fits tenant user key a ≡ true → secret_fits t u k a ≡ false
    apart a hit =
        let (x, y, z) = fits_sound tenant user key a hit in
        fits_not t u k a (λ e. ne (sym e.0 ∙ x, sym e.1 ∙ y, sym e.2 ∙ z))

get-found :
    (aead : Aead) (tenant user key : Text) (v : Vault) (o : Option Secret)
    → v.faults ≡ []
    → find_row (secret_fits tenant user key) v.secrets ≡ o
    → (get aead tenant user key v).0 ≡ got aead o
unfolding get get_secret
get-found aead tenant user key v o quiet e =
    ap (λ (r : Result SecretError (Option Secret) × Vault). (resume r.0 r.1 answer).0)
      (statement-run (λ w. (ok (find_row (secret_fits tenant user key) w.secrets), w)) v quiet)
    ∙ ap (got aead) e
  where
    answer : Option Secret → Call Text
    answer found w = (got aead found, w)

-- With a nonce of the cipher's size and a store that does not fail, `Set` succeeds, and then `Get` gives
-- the value that was set, and for every other tenant, user or key what it gave before; this is so for a
-- cipher that opens what it has sealed.
pub set-get :
    (aead : Aead)
    → OpensSealed aead
    → (tenant user key value mode nonce id : Text) (v : Vault) → length nonce ≡ aead.nonce_size
    → v.faults ≡ []
    → let (r, w) = set aead tenant user key value mode (record { nonce = some nonce; id = id }) v in
      (r ≡ ok tt)
      × ((get aead tenant user key w).0 ≡ ok value)
      × ((t u k : Text)
          → ¬ ((t ≡ tenant) × (u ≡ user) × (k ≡ key))
          → (get aead t u k w).0 ≡ (get aead t u k v).0)
unfolding set put_secret encrypt save_secret got
set-get aead opens tenant user key value mode nonce id v sized quiet =
    let data' = nonce ++ aead.seal nonce value in
    let s : Secret = record {
      id = id;
      key = key;
      encrypted = data';
      scope = scope_of user;
      mode = default_mode mode;
      tenant = tenant;
      user = user;
    } in
    let new : Secret = record s { mode = default_mode s.mode } in
    let fits = fits_by tenant user key new refl refl refl in
    let w : Vault = record v { secrets = saved tenant s v.secrets } in
    let written =
      statement-run (λ v. (ok tt, record v { secrets = saved tenant s v.secrets })) v quiet in
    let (a, found, way) =
      find_row-upsert (secret_fits tenant user key) (replaced new.mode s) new v.secrets
        (λ b hit. hit) fits in
    let sealed : a.encrypted ≡ data' = elim way [
      | inl e ↦ ap (λ r. r.encrypted) e
      | inr e ↦ ap (λ r. r.encrypted) e.1
    ] in
    (
      ap (λ p. p.0) written,
      ap (λ p. (get aead tenant user key p.1).0) written
          ∙ get-found aead tenant user key w (some a) quiet found
          ∙ ap (decrypt aead) sealed
          ∙ decrypt_sealed aead opens nonce value sized,
      λ t u k ne.
          ap (λ p. (get aead t u k p.1).0) written
          ∙ get-found aead t u k w (find_row (secret_fits t u k) v.secrets) quiet
              (other_saved tenant user key t u k s new new.mode v.secrets refl refl fits ne)
          ∙ sym (get-found aead t u k v _ quiet refl),
    )
