-- ===== src/Common/Maps.antt =====
-- Maps from texts, as lists of bindings in which the first of a key counts.
use mathlib.Core.Bool.{false}
use mathlib.Core.List.{List, [], ◌∷◌}
use mathlib.Core.Logic.{◌≢◌, inl, inr}
use mathlib.Core.Option.{Option, none, some}
use mathlib.Core.Path.{◌≡◌, refl, subst}
use native.Mathlib.Omega.{arith}
use whiteagent.Common.Tests.{if◌then◌else◌, Bool-cases}
use whiteagent.Common.Texts.{Text, text_eq, text_eq_refl, text_eq_sound, text_eq_ne}

module _ {ℓ} {V : Type ℓ} where
  unfoldable pub load : Text → List (Text × V) → Option V
  load k [] = none
  load k ((k', v) ∷ m) = if text_eq k k' then some v else load k m

  unfoldable pub store : Text → V → List (Text × V) → List (Text × V)
  store k v [] = (k, v) ∷ []
  store k v ((k', v') ∷ m) = if text_eq k k' then (k, v) ∷ m else (k', v') ∷ store k v m

  pub load-store : (k : Text) (v : V) (m : List (Text × V)) → load k (store k v m) ≡ some v
  unfolding load store
  load-store k v [] = ground (arith, text_eq_refl k)
  load-store k v ((k', v') ∷ m) = ground (arith, text_eq_refl k, load-store k v m)

  unfoldable pub erase : Text → List (Text × V) → List (Text × V)
  erase k [] = []
  erase k ((k', v') ∷ m) = let rest = erase k m in if text_eq k k' then rest else (k', v') ∷ rest

  -- Another key's binding stays as it was.
  pub load-store_other :
      (k j : Text) (v : V) (m : List (Text × V)) → k ≢ j → load k (store j v m) ≡ load k m
  unfolding load store
  load-store_other k j v [] other = ground (arith, text_eq_ne k j other)
  load-store_other k j v ((i, w) ∷ m) other = elim (Bool-cases (text_eq j i)) [
    | inl hit ↦
        let same = text_eq_sound j i hit in
        rw hit (
          rw (text_eq_ne k j other)
            (rw (subst (λ x. text_eq k x ≡ false) same (text_eq_ne k j other)) refl))
    | inr miss ↦ ground (arith, miss, load-store_other k j v m other)
  ]

  pub load-erase : (k : Text) (m : List (Text × V)) → load k (erase k m) ≡ none
  unfolding load erase
  load-erase k [] = refl
  load-erase k ((i, w) ∷ m) = ground (arith, load-erase k m)

  pub load-erase_other : (k j : Text) (m : List (Text × V)) → k ≢ j → load k (erase j m) ≡ load k m
  unfolding load erase
  load-erase_other k j [] other = refl
  load-erase_other k j ((i, w) ∷ m) other = elim (Bool-cases (text_eq j i)) [
    | inl hit ↦
        let same = text_eq_sound j i hit in
        rw hit (
          rw (subst (λ x. text_eq k x ≡ false) same (text_eq_ne k j other))
            (load-erase_other k j m other))
    | inr miss ↦ ground (arith, miss, load-erase_other k j m other)
  ]
