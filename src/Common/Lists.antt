-- ===== src/Common/Lists.antt =====
-- Lists measured by native numbers, predicates on all elements, and loops over a list.
use Prim.Native.Nat.{ℕ, suc, ◌+◌}
use mathlib.Core.Bool.{Bool, true, false}
use mathlib.Core.Logic.{◌⊎◌, inl, inr}
use mathlib.Core.List.{List, [], ◌∷◌, ◌++◌}
use mathlib.Core.Path.{◌≡◌, refl}
use native.Mathlib.Omega.{arith}

module _ {ℓ} {A : Type ℓ} where
  abbrev pub length : List A → ℕ
  length [] = 0
  length (x ∷ xs) = suc (length xs)

  pub length-append : (xs ys : List A) → length (xs ++ ys) ≡ length xs + length ys
  length-append [] ys = omega arith
  length-append (x ∷ xs) ys = omega (arith, length-append xs ys)

  abbrev pub is_empty : List A → Bool
  is_empty [] = true
  is_empty (x ∷ xs) = false

module _ {ℓ κ} {A : Type ℓ} (P : A → Type κ) where
  abbrev pub All : List A → Type κ
  All [] = Unit
  All (x ∷ xs) = P x × All xs

  pub All-append : (xs ys : List A) → All xs → All ys → All (xs ++ ys)
  All-append [] ys hx hy = hy
  All-append (x ∷ xs) ys hx hy = (hx.0, All-append xs ys hx.1 hy)

  pub All-suffix : (xs ys : List A) → All (xs ++ ys) → All ys
  All-suffix [] ys all = all
  All-suffix (x ∷ xs) ys (one, all) = All-suffix xs ys all

-- Membership as data, at the level of the list.
pub data In {ℓ} {A : Type ℓ} (a : A) : List A → Type ℓ where
  here : {x : A} {xs : List A} → a ≡ x → In a (x ∷ xs)
  there : {x : A} {xs : List A} → In a xs → In a (x ∷ xs)

pub In-cons {ℓ} : {A : Type ℓ} {a x : A} {xs : List A} → In a (x ∷ xs) → (a ≡ x) ⊎ In a xs
In-cons (here e) = inl e
In-cons (there i) = inr i

module _ {ℓ} {A : Type ℓ} where
  pub In-nil : (v : A) → ¬ In v []
  In-nil v i = nil_case i refl
    where
      nil_case : {xs : List A} → In v xs → ◌≡◌ {A = List A} xs [] → ⊥
      nil_case (here e) k = cc
      nil_case (there i) k = cc

  pub In-snoc : (v u : A) (xs : List A) → In v xs → In v (xs ++ (u ∷ []))
  In-snoc v u [] i = absurd (In-nil v i)
  In-snoc v u (x ∷ xs) i = elim (In-cons i) [
    | inl e ↦ here e
    | inr later ↦ there (In-snoc v u xs later)
  ]

  pub In-last : (u : A) (xs : List A) → In u (xs ++ (u ∷ []))
  In-last u [] = here refl
  In-last u (x ∷ xs) = there (In-last u xs)
