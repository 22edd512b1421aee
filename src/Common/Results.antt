-- ===== src/Common/Results.antt =====
-- What a fallible Go function returns: an error, or else a value.
use mathlib.Core.Logic.{◌⊎◌, inl, inr}
use mathlib.Core.Path.{◌≡◌, refl}

pub data Result {ℓ κ} (Failure : Type ℓ) (Value : Type κ) : Type (ℓ ⊔ κ) where
  err : Failure → Result Failure Value
  ok : Value → Result Failure Value

module _ {ℓ κ μ} {Failure : Type ℓ} {Value : Type κ} {Next : Type μ} where
  -- `if err != nil { return err }`, and what comes after it.
  abbrev pub and_then : (Value → Result Failure Next) → Result Failure Value → Result Failure Next
  and_then next (err reason) = err reason
  and_then next (ok value) = next value

  infixl 5 ◌>>=◌
  abbrev pub ◌>>=◌ : Result Failure Value → (Value → Result Failure Next) → Result Failure Next
  checked >>= next = and_then next checked

  -- A chain that fails does so at its first part, or after it.
  pub and_then-err :
      (checked : Result Failure Value) (next : Value → Result Failure Next) {reason : Failure}
      → and_then next checked ≡ err reason
      → (checked ≡ err reason) ⊎ ((v : Value) × (checked ≡ ok v) × (next v ≡ err reason))
  and_then-err (err reason) next stopped = inl (cc)
  and_then-err (ok v) next stopped = inr (v, refl, stopped)

  -- A chain that returns a value has got through its first part.
  pub and_then-ok :
      (checked : Result Failure Value) (next : Value → Result Failure Next) {b : Next}
      → and_then next checked ≡ ok b
      → (v : Value) × (checked ≡ ok v) × (next v ≡ ok b)
  and_then-ok (err reason) next returned = cc
  and_then-ok (ok v) next returned = (v, refl, returned)

  -- `fmt.Errorf("...: %w", err)`: the error is wrapped.
  abbrev pub wrap : (Failure → Next) → Result Failure Value → Result Next Value
  wrap outer (err reason) = err (outer reason)
  wrap outer (ok value) = ok value

  pub wrap-ok :
      (outer : Failure → Next) (checked : Result Failure Value) {value : Value}
      → wrap outer checked ≡ ok value
      → checked ≡ ok value
  wrap-ok outer (err reason) returned = cc
  wrap-ok outer (ok v) returned = cc

module _ {ℓ κ} {Failure : Type ℓ} {Value : Type κ} where
  infixl 5 ◌>>◌
  abbrev pub ◌>>◌ : Result Failure (Unit {0}) → Result Failure Value → Result Failure Value
  tested >> later = tested >>= λ _. later

  pub ok-injective : {v w : Value} → ◌≡◌ {A = Result Failure Value} (ok v) (ok w) → v ≡ w
  ok-injective same = cc
