-- ===== src/Secrets/Shadow.antt =====
-- internal/domain/service/secret/impl.go: which secrets the loops of `List`, `Redact` and `EnvVars` keep.
use whiteagent.Common.{
  Bool, true, false, Bool-cases, ◌⊎◌, inl, inr, Option, none, some, List, [], ◌∷◌, Text, text_eq,
  text_eq_refl, text_eq_ne, text_cases, text_le, text_le_refl, is_empty, load, store, load-store,
  load-store_other, if◌then◌else◌, ◌≡◌, ◌≢◌, refl, sym, ap, ◌∙◌, subst, arith,
}
use whiteagent.Store.{find_row}
use whiteagent.Secrets.Finds.{text_eq_by, fits_sound, fits_not, find_row-hit, find_row-skip}
use whiteagent.Secrets.{
  Scope, tenant_scope, user_scope, Secret, Effective, shadows, add_effective, effective,
  secret_fits, visible, select, insert_by_key, order_by_key,
}

-- The scope of a row tells whether it has a user.
abbrev pub ScopeFits : Secret → Type 0
ScopeFits s = ((s.user ≡ []) × (s.scope ≡ tenant_scope)) ⊎ ((s.user ≢ []) × (s.scope ≡ user_scope))

-- A table in which tenant, user and key are a row's key, and scopes fit.
abbrev pub IsSound : List Secret → Type 0
IsSound [] = Unit
IsSound (s ∷ ss) =
    ScopeFits s × ((find_row (secret_fits s.tenant s.user s.key) ss ≡ none) × IsSound ss)

empty_eq : (t : Text) → is_empty t ≡ text_eq t []
unfolding text_eq
empty_eq [] = refl
empty_eq (c ∷ t) = refl

module _ {A : Type 0} (wanted : Secret → Option A) where
  -- The first of a user's and a tenant's secret that has what is wanted.
  abbrev pub picked : Option Secret → Option (Scope × A)
  picked none = none
  picked (some s) = elim (wanted s) [ none ↦ none | some a ↦ some (s.scope, a) ]

  abbrev pub first_of : Option (Scope × A) → Option (Scope × A) → Option (Scope × A)
  first_of none later = later
  first_of (some e) later = some e

  -- One round of the loop, seen at one key.
  abbrev step : Option A → Scope → Option (Scope × A) → Option (Scope × A)
  step none scope o = o
  step (some a) scope o = if shadows o scope then some (scope, a) else o

  abbrev at_key : Text → Secret → Option (Scope × A) → Option (Scope × A)
  at_key k s o = if text_eq k s.key then step (wanted s) s.scope o else o

  abbrev fold_key : Text → List Secret → Option (Scope × A) → Option (Scope × A)
  fold_key k [] o = o
  fold_key k (s ∷ ss) o = fold_key k ss (at_key k s o)

  add_effective-load :
      (k : Text) (s : Secret) (m : Effective A) (w : Option A)
      → load k (add_effective wanted w s m)
        ≡ (if text_eq k s.key then step w s.scope (load k m) else load k m)
  unfolding add_effective
  add_effective-load k s m none = ground arith
  add_effective-load k s m (some a) = elim (text_cases k s.key) [
    | inl same ↦
        let hit : text_eq k s.key ≡ true = subst (λ t. text_eq k t ≡ true) same (text_eq_refl k) in
        rw hit (
          subst
            (λ t.
              load k (add_effective wanted (some a) s m)
              ≡ (if shadows (load t m) s.scope then some (s.scope, a) else load t m))
            (sym same)
            (subst
              (λ t.
                load t (add_effective wanted (some a) s m)
                ≡ (if shadows (load s.key m) s.scope then some (s.scope, a) else load s.key m))
              (sym same) (at_own (shadows (load s.key m) s.scope))))
    | inr other ↦ rw (text_eq_ne k s.key other) (at_other other (shadows (load s.key m) s.scope))
  ]
    where
      at_own :
          (b : Bool)
          → load s.key (if b then store s.key (s.scope, a) m else m)
            ≡ (if b then some (s.scope, a) else load s.key m)
      at_own true = load-store s.key (s.scope, a) m
      at_own false = refl

      at_other :
          k ≢ s.key → (b : Bool) → load k (if b then store s.key (s.scope, a) m else m) ≡ load k m
      at_other ne true = load-store_other k s.key (s.scope, a) m ne
      at_other ne false = refl

  effective-load :
      (k : Text) (ss : List Secret) (m : Effective A)
      → load k (effective wanted ss m) ≡ fold_key k ss (load k m)
  unfolding effective
  effective-load k [] m = refl
  effective-load k (s ∷ ss) m =
      effective-load k ss (add_effective wanted (wanted s) s m)
      ∙ ap (fold_key k ss) (add_effective-load k s m (wanted s))

  at_key-hit :
      (k : Text) (s : Secret) (o : Option (Scope × A))
      → k ≡ s.key
      → at_key k s o ≡ step (wanted s) s.scope o
  at_key-hit k s o e = rw (text_eq_by e) refl

  at_key-miss : (k : Text) (s : Secret) (o : Option (Scope × A)) → k ≢ s.key → at_key k s o ≡ o
  at_key-miss k s o ne = rw (text_eq_ne k s.key ne) refl

  at_key_comm :
      (k : Text) (s t : Secret) (o : Option (Scope × A))
      → s.key ≢ t.key
      → at_key k t (at_key k s o) ≡ at_key k s (at_key k t o)
  at_key_comm k s t o ne = elim (text_cases k s.key) [
    | inl same ↦ rw (text_eq_ne k t.key (λ e. ne (sym same ∙ e))) refl
    | inr other ↦ rw (text_eq_ne k s.key other) refl
  ]

  not_le : {s t : Text} → text_le s t ≡ false → s ≢ t
  not_le {s} {t} later e =
      absurd (ground (arith, subst (λ u. text_le s u ≡ true) e (text_le_refl s), later))

  insert_by_key-fold :
      (k : Text) (s : Secret) (ss : List Secret) (o : Option (Scope × A))
      → fold_key k (insert_by_key s ss) o ≡ fold_key k (s ∷ ss) o
  unfolding insert_by_key
  insert_by_key-fold k s [] o = refl
  insert_by_key-fold k s (t ∷ ts) o = elim (Bool-cases (text_le s.key t.key)) [
    | inl first ↦ rw first refl
    | inr later ↦ rw later (
        insert_by_key-fold k s ts (at_key k t o)
        ∙ ap (fold_key k ts) (sym (at_key_comm k s t o (λ e. not_le later e))))
  ]

  order_by_key-fold :
      (k : Text) (ss : List Secret) (o : Option (Scope × A))
      → fold_key k (order_by_key ss) o ≡ fold_key k ss o
  unfolding order_by_key
  order_by_key-fold k [] o = refl
  order_by_key-fold k (s ∷ ss) o =
      insert_by_key-fold k s (order_by_key ss) o ∙ order_by_key-fold k ss (at_key k s o)

  -- What the loop has found so far, with the user's and the tenant's secret still to come.
  abbrev joined : Option (Scope × A) → Option (Scope × A) → Option (Scope × A) → Option (Scope × A)
  joined none own shared = first_of own shared
  joined (some (tenant_scope, a)) own shared = first_of own (some (tenant_scope, a))
  joined (some (user_scope, a)) own shared = some (user_scope, a)

  own_round :
      (w : Option A) (scope : Scope) (o own shared : Option (Scope × A))
      → scope ≡ user_scope
      → own ≡ none
      → joined (step w scope o) own shared
        ≡ joined o (elim w [ none ↦ none | some a ↦ some (scope, a) ]) shared
  own_round w tenant_scope o own shared u e = cc
  own_round none user_scope o own shared u e = ap (λ x. joined o x shared) e
  own_round (some a) user_scope none own shared u e = refl
  own_round (some a) user_scope (some (tenant_scope, b)) own shared u e = refl
  own_round (some a) user_scope (some (user_scope, b)) own shared u e = refl

  shared_round :
      (w : Option A) (scope : Scope) (o own shared : Option (Scope × A))
      → scope ≡ tenant_scope
      → shared ≡ none
      → joined (step w scope o) own shared
        ≡ joined o own (elim w [ none ↦ none | some a ↦ some (scope, a) ])
  shared_round w user_scope o own shared u e = cc
  shared_round none tenant_scope o own shared u e = ap (λ x. joined o own x) e
  shared_round (some a) tenant_scope none own shared u e = refl
  shared_round (some a) tenant_scope (some (tenant_scope, b)) own shared u e = refl
  shared_round (some a) tenant_scope (some (user_scope, b)) own shared u e = refl

  module _ (tenant user k : Text) (named : user ≢ []) where
    abbrev own_in : List Secret → Option Secret
    own_in ss = find_row (secret_fits tenant user k) ss

    abbrev shared_in : List Secret → Option Secret
    shared_in ss = find_row (secret_fits tenant [] k) ss

    fold-seen :
        (s : Secret) (ss : List Secret) (o : Option (Scope × A))
        → visible tenant user s ≡ true
        → s.key ≡ k
        → fold_key k (select tenant user (s ∷ ss)) o
          ≡ fold_key k (select tenant user ss) (step (wanted s) s.scope o)
    unfolding select
    fold-seen s ss o seen e =
        rw seen (ap (fold_key k (select tenant user ss)) (at_key-hit k s o (sym e)))

    -- A row that fits neither search changes nothing.
    fold-skip :
        (s : Secret) (ss : List Secret) (o : Option (Scope × A))
        → secret_fits tenant user k s ≡ false
        → secret_fits tenant [] k s ≡ false
        → fold_key k (select tenant user (s ∷ ss)) o ≡ fold_key k (select tenant user ss) o
    unfolding select
    fold-skip s ss o h h' = elim (Bool-cases (visible tenant user s)) [
      | inr unseen ↦ rw unseen refl
      | inl seen ↦ elim (text_cases k s.key) [
        | inr ne ↦ rw seen (ap (fold_key k (select tenant user ss)) (at_key-miss k s o ne))
        | inl e ↦ absurd (ground (arith, seen, h, h', text_eq_by (sym e), empty_eq s.user))
      ]
    ]

    alone_at :
        (s : Secret) (ss : List Secret) (u : Text)
        → find_row (secret_fits s.tenant s.user s.key) ss ≡ none
        → (s.tenant ≡ tenant) × (s.user ≡ u) × (s.key ≡ k)
        → find_row (secret_fits tenant u k) ss ≡ none
    alone_at s ss u alone (a, b, c) =
        subst (λ x. find_row (secret_fits tenant u x) ss ≡ none) c
          (subst (λ x. find_row (secret_fits tenant x s.key) ss ≡ none) b
            (subst (λ x. find_row (secret_fits x s.user s.key) ss ≡ none) a alone))

    fold-select :
        (ss : List Secret) (o : Option (Scope × A))
        → IsSound ss
        → fold_key k (select tenant user ss) o
          ≡ joined o (picked (own_in ss)) (picked (shared_in ss))
    unfolding select
    fold-select [] none d = unfold find_row in refl
    fold-select [] (some (tenant_scope, a)) d = unfold find_row in refl
    fold-select [] (some (user_scope, a)) d = unfold find_row in refl
    fold-select (s ∷ ss) o (scope, (alone, d)) = elim (Bool-cases (secret_fits tenant user k s)) [
      | inl own ↦
          let (a, b, c) = fits_sound tenant user k s own in
          let scoped : s.scope ≡ user_scope = elim scope [
            | inl shared ↦ absurd (named (sym b ∙ shared.0))
            | inr mine ↦ mine.1
          ] in
          let seen : visible tenant user s ≡ true = ground (arith, text_eq_by a, text_eq_by b) in
          fold-seen s ss o seen c
          ∙ fold-select ss (step (wanted s) s.scope o) d
          ∙ own_round (wanted s) s.scope o _ _ scoped
              (ap picked (alone_at s ss user alone (a, b, c)))
          ∙ ap (λ x. joined o x (picked (shared_in ss)))
              (ap picked (sym (find_row-hit (secret_fits tenant user k) s ss own)))
          ∙ ap (λ x. joined o (picked (own_in (s ∷ ss))) (picked x))
              (sym (
                find_row-skip (secret_fits tenant [] k) s ss
                  (fits_not tenant [] k s (λ q. named (sym b ∙ q.1)))))
      | inr other ↦ elim (Bool-cases (secret_fits tenant [] k s)) [
        | inl shared ↦
            let (a, b, c) = fits_sound tenant [] k s shared in
            let scoped : s.scope ≡ tenant_scope = elim scope [
              | inl ours ↦ ours.1
              | inr mine ↦ absurd (mine.0 b)
            ] in
            let seen : visible tenant user s ≡ true = ground (arith, text_eq_by a, ap is_empty b) in
            fold-seen s ss o seen c
            ∙ fold-select ss (step (wanted s) s.scope o) d
            ∙ shared_round (wanted s) s.scope o _ _ scoped
                (ap picked (alone_at s ss [] alone (a, b, c)))
            ∙ ap (λ x. joined o (picked (own_in ss)) x)
                (ap picked (sym (find_row-hit (secret_fits tenant [] k) s ss shared)))
            ∙ ap (λ x. joined o (picked x) (picked (shared_in (s ∷ ss))))
                (sym (find_row-skip (secret_fits tenant user k) s ss other))
        | inr neither ↦
            fold-skip s ss o other neither
            ∙ fold-select ss o d
            ∙ ap (λ x. joined o (picked x) (picked (shared_in ss)))
                (sym (find_row-skip (secret_fits tenant user k) s ss other))
            ∙ ap (λ x. joined o (picked (own_in (s ∷ ss))) (picked x))
                (sym (find_row-skip (secret_fits tenant [] k) s ss neither))
      ]
    ]

    -- What the loops keep at a key, for the rows that the store lists.
    pub effective-select :
        (ss : List Secret)
        → IsSound ss
        → load k (effective wanted (order_by_key (select tenant user ss)) [])
          ≡ first_of (picked (own_in ss)) (picked (shared_in ss))
    unfolding load
    effective-select ss d =
        effective-load k (order_by_key (select tenant user ss)) []
        ∙ order_by_key-fold k (select tenant user ss) none
        ∙ fold-select ss none d
