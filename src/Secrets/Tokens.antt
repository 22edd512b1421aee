-- ===== src/Secrets/Tokens.antt =====
-- internal/domain/service/secret/impl.go: the tokens for entering secrets, from `ValidateToken` to
-- `ConsumeToken`, and two calls of `ConsumeToken` that overlap.
use whiteagent.Common.{
  ℕ, true, false, not, ◌&&◌, Bool-cases, inl, inr, Option, none, some, List, [], ◌∷◌, Text, ltb,
  Result, ok, err, ok-injective, ◌≡◌, refl, sym, ap, ◌∙◌, arith,
}
use whiteagent.Store.{find_row}
use whiteagent.Secrets.Finds.{find_row-hit, find_row-skip, statement-run}
use whiteagent.Secrets.{
  Secret, SecretToken, Vault, SecretError, token_used, token_expired, Call, Aead, Draw, Submission,
  resume, ◌>>=◌, default_mode, saved, save_secret, get_token, consumed, consume_secret_token,
  mark_consumed, token_fits, scope_of, encrypt, put_secret, set, check_token, validate_token,
  set_values, consume_token,
}

abbrev the_token : Text → Vault → Option SecretToken
the_token id v = find_row (token_fits id) v.tokens

-- A call that leaves the tokens, and adds no fault.
abbrev Quiet : {A : Type 0} → Call A → Type 0
Quiet call = (v : Vault) → v.faults ≡ [] → ((call v).1.tokens ≡ v.tokens) × ((call v).1.faults ≡ [])

set-Quiet :
    (aead : Aead) (tenant user key value mode : Text) (draw : Draw)
    → Quiet (set aead tenant user key value mode draw)
unfolding set
set-Quiet aead tenant user key value mode draw v quiet = by_sealed (encrypt aead draw.nonce value)
  where
    by_sealed :
        (r : Result SecretError Text)
        → ((put_secret r tenant user key mode draw.id v).1.tokens ≡ v.tokens)
          × ((put_secret r tenant user key mode draw.id v).1.faults ≡ [])
    by_sealed (err e) = unfold put_secret in (refl, quiet)
    by_sealed (ok data') =
        unfold put_secret save_secret in
        let s : Secret = record {
          id = draw.id;
          key = key;
          encrypted = data';
          scope = scope_of user;
          mode = default_mode mode;
          tenant = tenant;
          user = user;
        } in
        let run =
          statement-run (λ v. (ok tt, record v { secrets = saved tenant s v.secrets })) v quiet in
        (ap (λ p. p.1.tokens) run, ap (λ p. p.1.faults) run ∙ quiet)

bind-Quiet :
    {A B : Type 0} (call : Call A) (next : A → Call B)
    → Quiet call
    → ((a : A) → Quiet (next a))
    → Quiet (call >>= next)
bind-Quiet {A = A} call next first then' v quiet =
    let (same, quiet') = first v quiet in by_result (call v).0 (call v).1 same quiet'
  where
    by_result :
        (r : Result SecretError A) (w : Vault)
        → w.tokens ≡ v.tokens
        → w.faults ≡ []
        → ((resume r w next).1.tokens ≡ v.tokens) × ((resume r w next).1.faults ≡ [])
    by_result (err e) w same q = (same, q)
    by_result (ok a) w same q = let (same', q') = then' a w q in (same' ∙ same, q')

set_values-Quiet :
    (aead : Aead) (tenant user : Text) (values : List (Text × Submission × Draw))
    → Quiet (set_values aead tenant user values)
unfolding set_values
set_values-Quiet aead tenant user [] v quiet = (refl, quiet)
set_values-Quiet aead tenant user ((key, sub, draw) ∷ more) v quiet =
    bind-Quiet (set aead tenant user key sub.value (default_mode sub.mode) draw) _
      (set-Quiet aead tenant user key sub.value (default_mode sub.mode) draw)
      (λ _. set_values-Quiet aead tenant user more) v quiet

mark_consumed-find :
    (id : Text) (ts : List SecretToken) (t : SecretToken)
    → find_row (token_fits id) ts ≡ some t
    → (t' : SecretToken) × (find_row (token_fits id) (mark_consumed id ts) ≡ some t')
      × (t'.used ≡ true)
unfolding mark_consumed
mark_consumed-find id [] t h = absurd (unfold find_row in cc)
mark_consumed-find id (u ∷ us) t h = elim (Bool-cases (token_fits id u)) [
  | inr miss ↦
      let (t', found, used) =
        mark_consumed-find id us t (sym (find_row-skip (token_fits id) u us miss) ∙ h) in
      rw miss (t', find_row-skip (token_fits id) u (mark_consumed id us) miss ∙ found, used)
  | inl hit ↦ elim (Bool-cases u.used) [
    | inl used ↦
        let marked : SecretToken = record u { used = true } in
        rw hit
          (rw used (marked, find_row-hit (token_fits id) marked (mark_consumed id us) hit, refl))
    | inr unused ↦
        let marked : SecretToken = record u { used = true } in
        rw hit
          (rw unused (marked, find_row-hit (token_fits id) marked (mark_consumed id us) hit, refl))
  ]
]

-- No token of the identifier is left unused.
mark_consumed-none :
    (id : Text) (ts : List SecretToken)
    → find_row (λ t. token_fits id t && not t.used) (mark_consumed id ts) ≡ none
unfolding mark_consumed
mark_consumed-none id [] = unfold find_row in refl
mark_consumed-none id (u ∷ us) = elim (Bool-cases (token_fits id u && not u.used)) [
  | inl hit ↦
      let marked : SecretToken = record u { used = true } in
      rw hit
        (find_row-skip _ marked (mark_consumed id us) (ground arith) ∙ mark_consumed-none id us)
  | inr miss ↦ rw miss (find_row-skip _ u (mark_consumed id us) miss ∙ mark_consumed-none id us)
]

check_token-ok :
    (now : ℕ) (o : Option SecretToken) (t : SecretToken) → check_token now o ≡ ok t → o ≡ some t
check_token-ok now none t h = cc
check_token-ok now (some u) t h = elim (Bool-cases u.used) [
  | inl used ↦ absurd (cc (h, the_error used))
  | inr unused ↦ elim (Bool-cases (ltb u.expires_at now)) [
    | inl old ↦ absurd (cc (h, the_expiry unused old))
    | inr fresh ↦ ap some (ok-injective (sym (the_success unused fresh) ∙ h))
  ]
]
  where
    the_error : u.used ≡ true → check_token now (some u) ≡ err token_used
    the_error used = rw used refl

    the_expiry :
        u.used ≡ false → ltb u.expires_at now ≡ true → check_token now (some u) ≡ err token_expired
    the_expiry unused old = rw unused (rw old refl)

    the_success : u.used ≡ false → ltb u.expires_at now ≡ false → check_token now (some u) ≡ ok u
    the_success unused fresh = rw unused (rw fresh refl)

validate_token-run :
    (id : Text) (now : ℕ) (v : Vault)
    → v.faults ≡ []
    → validate_token id now v ≡ (check_token now (the_token id v), v)
unfolding validate_token get_token
validate_token-run id now v quiet =
    ap (λ (p : Result SecretError (Option SecretToken) × Vault). resume p.0 p.1 answer)
      (statement-run (λ w. (ok (the_token id w), w)) v quiet)
  where
    answer : Option SecretToken → Call SecretToken
    answer found w = (check_token now found, w)

consume_secret_token-run :
    (id : Text) (v : Vault)
    → v.faults ≡ []
    → consume_secret_token id v
      ≡ consumed id v (find_row (λ t. token_fits id t && not t.used) v.tokens)
unfolding consume_secret_token
consume_secret_token-run id v quiet = statement-run _ v quiet

resume-ok :
    {A B : Type 0} (r : Result SecretError A) (v : Vault) (next : A → Call B) {b : B} {w : Vault}
    → resume r v next ≡ (ok b, w)
    → (a : A) × (r ≡ ok a) × (next a v ≡ (ok b, w))
resume-ok (err e) v next h = cc
resume-ok (ok a) v next h = (a, refl, h)

consumed-ok :
    (id : Text) (v w : Vault) (o : Option SecretToken)
    → consumed id v o ≡ (ok tt, w)
    → w ≡ record v { tokens = mark_consumed id v.tokens }
consumed-ok id v w none h = cc
consumed-ok id v w (some t) h = sym (ap (λ p. p.1) h)

-- What a successful `ConsumeToken` leaves: a store without faults, in which all tokens of the identifier
-- are used.
consume_token-ok :
    (aead : Aead) (id : Text) (now : ℕ) (values : List (Text × Submission × Draw)) (v w : Vault)
    → v.faults ≡ []
    → consume_token aead id now values v ≡ (ok tt, w)
    → (w.faults ≡ [])
      × ((t : SecretToken) × (the_token id w ≡ some t) × (t.used ≡ true))
      × (find_row (λ t. token_fits id t && not t.used) w.tokens ≡ none)
unfolding consume_token
consume_token-ok aead id now values v w quiet h =
    let (t, valid, h1) = resume-ok (validate_token id now v).0 (validate_token id now v).1 _ h in
    let run = validate_token-run id now v quiet in
    let there : the_token id v ≡ some t =
      check_token-ok now (the_token id v) t (sym (ap (λ p. p.0) run) ∙ valid) in
    let v1 = (validate_token id now v).1 in
    let quiet1 : v1.faults ≡ [] = ap (λ p. p.1.faults) run ∙ quiet in
    let tokens1 : v1.tokens ≡ v.tokens = ap (λ p. p.1.tokens) run in
    let v2 = (set_values aead t.tenant t.user values v1).1 in
    let (x, done, h2) = resume-ok (set_values aead t.tenant t.user values v1).0 v2 _ h1 in
    let (tokens2, quiet2) = set_values-Quiet aead t.tenant t.user values v1 quiet1 in
    let last = consumed-ok id v2 w _ (sym (consume_secret_token-run id v2 quiet2) ∙ h2) in
    let (t', found, used) =
      mark_consumed-find id v2.tokens t
        (ap (find_row (token_fits id)) (tokens2 ∙ tokens1) ∙ there) in
    (
      ap (λ u. u.faults) last ∙ quiet2,
      (t', ap (the_token id) last ∙ found, used),
      ap (λ u. find_row (λ t. token_fits id t && not t.used) u.tokens) last
          ∙ mark_consumed-none id v2.tokens,
    )

-- Once `ConsumeToken` has succeeded on a store that does not fail, the token is refused as consumed at any
-- time, by `ValidateToken` and by `ConsumeToken`, which then leaves all secrets and tokens as they are.
pub consume_token-validate_token :
    (aead : Aead) (id : Text) (now : ℕ) (values : List (Text × Submission × Draw)) (v w : Vault)
    → v.faults ≡ []
    → consume_token aead id now values v ≡ (ok tt, w)
    → (later : ℕ) (values' : List (Text × Submission × Draw))
    → (validate_token id later w ≡ (err token_used, w))
      × (consume_token aead id later values' w ≡ (err token_used, w))
unfolding consume_token
consume_token-validate_token aead id now values v w quiet h later values' =
    let (quiet', (t, found, used), none_left) = consume_token-ok aead id now values v w quiet h in
    let refused : validate_token id later w ≡ (err token_used, w) =
      validate_token-run id later w quiet'
      ∙ ap (λ o. (check_token later o, w)) found
      ∙ rw used refl in
    (refused, ap (λ (p : Result SecretError SecretToken × Vault). resume p.0 p.1 rest) refused)
  where
    rest : SecretToken → Call (Unit {0})
    rest t = set_values aead t.tenant t.user values' >>= (λ _. consume_secret_token id)
