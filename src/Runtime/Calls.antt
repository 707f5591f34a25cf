-- ===== src/Runtime/Calls.antt =====
-- Calls that change a state and give a value or an error. The state that a failed call leaves is
-- kept.
use sihkaromicro.Prelude.{◌≡◌, refl, Bool, true, false, if◌then◌else◌}
use sihkaromicro.Runtime.Errors.{Error, Result, ok, err}

abbrev pub Call {ℓ} : Type ℓ → Type ℓ → Type ℓ
Call S A = S → Result A × S

module _ {ℓ} {S A : Type ℓ} where
  abbrev pub pure : A → Call S A
  pure a s = (ok a, s)

  abbrev pub raise : Error → Call S A
  raise e s = (err e, s)

  abbrev pub lift : Result A → Call S A
  lift r s = (r, s)

module _ {ℓ} {S A B : Type ℓ} where
  abbrev pub and_then : Result A → (A → Call S B) → Call S B
  and_then (ok a) f s = f a s
  and_then (err e) f s = (err e, s)

  -- `x, err := m; if err != nil { return err }`, and then the rest.
  infixl 10 ◌>>=◌ ◌>>◌
  abbrev pub ◌>>=◌ : Call S A → (A → Call S B) → Call S B
  ◌>>=◌ m f s = and_then (m s).0 f (m s).1

  abbrev pub ◌>>◌ : Call S A → Call S B → Call S B
  m >> n = m >>= λ _. n

abbrev pub replace_err {ℓ} : {A : Type ℓ} → Result A → Error → Result A
replace_err (ok a) e = ok a
replace_err (err _) e = err e

module _ {ℓ} {S A : Type ℓ} where
  -- `if err != nil { return e }`: the caller sees another error.
  abbrev pub or_raise : Call S A → Error → Call S A
  or_raise m e s = (replace_err (m s).0 e, (m s).1)

  -- `if err := m; err != nil { log }`: the error is logged and goes no further.
  abbrev pub best_effort : Call S A → Call S (Unit {ℓ})
  best_effort m s = (ok tt, (m s).1)

-- A body that sets a flag `success`, with `defer func() { if !success { cleanup } }()`.
pub record Attempt {ℓ} (A : Type ℓ) : Type ℓ where
  pub result : Result A
  pub success : Bool

module _ {ℓ} {S A : Type ℓ} where
  abbrev pub cleaned : Attempt A → (S → S) → S → Attempt A × S
  cleaned a cleanup s = (a, if a.success then s else cleanup s)

  unfoldable pub deferring : (S → Attempt A × S) → (S → S) → S → Attempt A × S
  deferring body cleanup s = cleaned (body s).0 cleanup (body s).1

abbrev pub failed {ℓ} : {A : Type ℓ} → Error → Attempt A
failed e = record { result = err e; success = false }

abbrev pub succeeded {ℓ} : {A : Type ℓ} → A → Attempt A
succeeded a = record { result = ok a; success = true }

module _ {ℓ} {S A B : Type ℓ} where
  abbrev checked : Result A → Error → (A → S → Attempt B × S) → S → Attempt B × S
  checked (ok a) e k s = k a s
  checked (err _) e k s = (failed e, s)

  -- `if err := m; err != nil { return e }` in a body that sets a flag, and then the rest.
  unfoldable pub attempting : Call S A → Error → (A → S → Attempt B × S) → S → Attempt B × S
  attempting m e k s = checked (m s).0 e k (m s).1

-- A property of the state that a body keeps, from the property for its parts.
module _ {ℓ κ} {S A B : Type ℓ} (P : S → Type κ) where
  checked_keeps :
      (r : Result A) (e : Error) (k : A → S → Attempt B × S) (s : S)
      → P s
      → ((a : A) (t : S) → P t → P (k a t).1)
      → P (checked r e k s).1
  checked_keeps (ok a) e k s h hk = hk a s h
  checked_keeps (err x) e k s h hk = h

  pub attempting_keeps :
      (m : Call S A) (e : Error) (k : A → S → Attempt B × S) (s : S)
      → P (m s).1
      → ((a : A) (t : S) → P t → P (k a t).1)
      → P (attempting m e k s).1
  unfolding attempting
  attempting_keeps m e k s h hk = checked_keeps (m s).0 e k (m s).1 h hk

module _ {ℓ κ} {S : Type ℓ} (P : S → Type κ) where
  cleaned_keeps :
      (b : Bool) (cleanup : S → S) (s : S)
      → P s
      → ((t : S) → P t → P (cleanup t))
      → P (if b then s else cleanup s)
  cleaned_keeps true cleanup s h hc = h
  cleaned_keeps false cleanup s h hc = hc s h

module _ {ℓ κ} {S B : Type ℓ} (P : S → Type κ) where
  pub deferring_keeps :
      (body : S → Attempt B × S) (cleanup : S → S) (s : S)
      → P (body s).1
      → ((t : S) → P t → P (cleanup t))
      → P (deferring body cleanup s).1
  unfolding deferring
  deferring_keeps body cleanup s h hc = cleaned_keeps P (body s).0.success cleanup (body s).1 h hc

-- A property of every attempt that a body can make, from the property for its parts.
module _ {ℓ κ} {S A B : Type ℓ} (Q : Attempt B → Type κ)
    (at_failure : (e : Error) → Q (failed e)) where
  checked_gives :
      (r : Result A) (e : Error) (k : A → S → Attempt B × S) (s : S)
      → ((a : A) (t : S) → Q (k a t).0)
      → Q (checked r e k s).0
  checked_gives (ok a) e k s hk = hk a s
  checked_gives (err x) e k s hk = at_failure e

  pub attempting_gives :
      (m : Call S A) (e : Error) (k : A → S → Attempt B × S) (s : S)
      → ((a : A) (t : S) → Q (k a t).0)
      → Q (attempting m e k s).0
  unfolding attempting
  attempting_gives m e k s hk = checked_gives (m s).0 e k (m s).1 hk

module _ {ℓ κ} {S B : Type ℓ} (Q : Attempt B → Type κ) where
  pub deferring_gives :
      (body : S → Attempt B × S) (cleanup : S → S) (s : S)
      → Q (body s).0
      → Q (deferring body cleanup s).0
  unfolding deferring
  deferring_gives body cleanup s h = h

module _ {ℓ} {S B : Type ℓ} where
  -- After a body with success the state is as the body left it.
  pub deferring_succeeded :
      (body : S → Attempt B × S) (cleanup : S → S) (s : S)
      → (deferring body cleanup s).0.success ≡ true
      → (deferring body cleanup s).1 ≡ (body s).1
  unfolding deferring
  deferring_succeeded body cleanup s h = rw h

  -- After a body without success the clean-up has run.
  pub deferring_failed :
      (body : S → Attempt B × S) (cleanup : S → S) (s : S)
      → (deferring body cleanup s).0.success ≡ false
      → (deferring body cleanup s).1 ≡ cleanup (body s).1
  unfolding deferring
  deferring_failed body cleanup s h = rw h

module _ {ℓ} {S B : Type ℓ} (body : S → Attempt B × S) (cleanup : S → S) (s : S) where
  -- After a body with success nothing more is done; after another one, the clean-up.
  pub deferring-true : (body s).0.success ≡ true → deferring body cleanup s ≡ body s
  unfolding deferring
  deferring-true h = rw h

  pub deferring-false :
      (body s).0.success ≡ false → deferring body cleanup s ≡ ((body s).0, cleanup (body s).1)
  unfolding deferring
  deferring-false h = rw h

module _ {ℓ} {S A B : Type ℓ} (m : Call S A) (e : Error) (k : A → S → Attempt B × S) (s : S) where
  pub attempting-ok : {a : A} → (m s).0 ≡ ok a → attempting m e k s ≡ k a (m s).1
  unfolding attempting
  attempting-ok h = rw h

  pub attempting-err : {x : Error} → (m s).0 ≡ err x → attempting m e k s ≡ (failed e, (m s).1)
  unfolding attempting
  attempting-err h = rw h

-- Inversion of a chain that ends well: every call in it has.
pub and_then-eq-ok {ℓ} :
    {S A B : Type ℓ} (r : Result A) (f : A → Call S B) (s : S) {b : B}
    → (and_then r f s).0 ≡ ok b
    → (a : A) × (r ≡ ok a) × (and_then r f s ≡ f a s)
and_then-eq-ok (ok a) f s h = (a, refl, refl)
and_then-eq-ok (err e) f s h = cc

pub replace_err-eq-ok {ℓ} :
    {A : Type ℓ} (r : Result A) (e : Error) {a : A} → replace_err r e ≡ ok a → r ≡ ok a
replace_err-eq-ok (ok b) e h = h
replace_err-eq-ok (err x) e h = cc
