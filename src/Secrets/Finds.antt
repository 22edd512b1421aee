-- ===== src/Secrets/Finds.antt =====
-- pkg/plugins/store/sqlite/secret.go: the rows that the statements on secrets find.
use whiteagent.Common.{
  Bool, true, false, Bool-cases, ◌⊎◌, inl, inr, some, List, [], ◌∷◌, Text, text_eq, text_eq_refl,
  text_eq_sound, ◌≡◌, refl, sym, ap, ◌∙◌, subst, arith,
}
use whiteagent.Store.{find_row, upsert}
use whiteagent.Secrets.{Secret, Vault, Call, secret_fits, on_faults, statement}

module _ {A : Type 0} where
  pub find_row-hit :
      (p : A → Bool) (a : A) (as' : List A) → p a ≡ true → find_row p (a ∷ as') ≡ some a
  unfolding find_row
  find_row-hit p a as' h = rw h refl

  pub find_row-skip :
      (p : A → Bool) (a : A) (as' : List A) → p a ≡ false → find_row p (a ∷ as') ≡ find_row p as'
  unfolding find_row
  find_row-skip p a as' h = rw h refl

  -- After a change of the rows that fit, the first one is the changed one.
  pub find_row-upsert :
      (p : A → Bool) (f : A → A) (new : A) (rows : List A)
      → ((a : A) → p a ≡ true → p (f a) ≡ true)
      → p new ≡ true
      → (a : A) × (find_row p (upsert p f new rows) ≡ some a)
        × ((a ≡ new) ⊎ ((old : A) × (a ≡ f old)))
  unfolding upsert
  find_row-upsert p f new [] keep h = (new, find_row-hit p new [] h, inl refl)
  find_row-upsert p f new (a ∷ rows) keep h = elim (Bool-cases (p a)) [
    | inl hit ↦ rw hit (f a, find_row-hit p (f a) rows (keep a hit), inr (a, refl))
    | inr miss ↦
        let (b, found, way) = find_row-upsert p f new rows keep h in
        rw miss (b, find_row-skip p a (upsert p f new rows) miss ∙ found, way)
  ]

  -- A search for other rows does not see the change.
  pub find_row-upsert_other :
      (p q : A → Bool) (f : A → A) (new : A) (rows : List A)
      → ((a : A) → p a ≡ true → (q a ≡ false) × (q (f a) ≡ false))
      → q new ≡ false
      → find_row q (upsert p f new rows) ≡ find_row q rows
  unfolding upsert
  find_row-upsert_other p q f new [] apart h = find_row-skip q new [] h
  find_row-upsert_other p q f new (a ∷ rows) apart h = elim (Bool-cases (p a)) [
    | inl hit ↦
        let (old, new') = apart a hit in
        rw hit (find_row-skip q (f a) rows new' ∙ sym (find_row-skip q a rows old))
    | inr miss ↦ rw miss (by_test (q a) (find_row-upsert_other p q f new rows apart h))
  ]
    where
      by_test :
          (b : Bool)
          → find_row q (upsert p f new rows) ≡ find_row q rows
          → find_row q (a ∷ upsert p f new rows) ≡ find_row q (a ∷ rows)
      by_test b rest = elim (Bool-cases (q a)) [
        | inl fits ↦ find_row-hit q a (upsert p f new rows) fits ∙ sym (find_row-hit q a rows fits)
        | inr not_fits ↦
            find_row-skip q a (upsert p f new rows) not_fits
            ∙ rest
            ∙ sym (find_row-skip q a rows not_fits)
      ]

pub text_eq_by : {s t : Text} → s ≡ t → text_eq s t ≡ true
text_eq_by {s} {t} e = subst (λ u. text_eq s u ≡ true) e (text_eq_refl s)

pub fits_sound :
    (tenant user key : Text) (s : Secret)
    → secret_fits tenant user key s ≡ true
    → (s.tenant ≡ tenant) × (s.user ≡ user) × (s.key ≡ key)
fits_sound tenant user key s h = (
  text_eq_sound s.tenant tenant (ground (arith, h)),
  text_eq_sound s.user user (ground (arith, h)),
  text_eq_sound s.key key (ground (arith, h)),
)

pub fits_by :
    (tenant user key : Text) (s : Secret)
    → s.tenant ≡ tenant
    → s.user ≡ user
    → s.key ≡ key
    → secret_fits tenant user key s ≡ true
fits_by tenant user key s a b c = ground (arith, text_eq_by a, text_eq_by b, text_eq_by c)

pub fits_not :
    (tenant user key : Text) (s : Secret)
    → ¬ ((s.tenant ≡ tenant) × (s.user ≡ user) × (s.key ≡ key))
    → secret_fits tenant user key s ≡ false
fits_not tenant user key s h = elim (Bool-cases (secret_fits tenant user key s)) [
  | inl fits ↦ absurd (h (fits_sound tenant user key s fits))
  | inr not_fits ↦ not_fits
]

-- A statement with no fault to come is executed.
pub statement-run :
    {A : Type 0} (run : Call A) (v : Vault) → v.faults ≡ [] → statement run v ≡ run v
unfolding statement on_faults
statement-run run v h = ap (λ fs. on_faults fs v run) h
