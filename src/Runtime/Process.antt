-- ===== src/Runtime/Process.antt =====
-- A program: it goes on with a value, or ends by os.Exit with a code or by a panic.
use sihkaromicro.Prelude.{ap, ℕ, ◌≡◌, refl, arith}
use sihkaromicro.Runtime.Errors.{Error, Result, ok, err, Panic}
use sihkaromicro.Runtime.Calls.{Call}

pub data Ended {ℓ} (A : Type ℓ) : Type ℓ where
  going : A → Ended A
  exited : ℕ → Ended A
  crashed : Panic → Ended A

abbrev pub Process {ℓ} : Type 0 → Type ℓ → Type ℓ
Process S A = S → Ended A × S

module _ {ℓ κ} {S : Type 0} {A : Type ℓ} {B : Type κ} where
  abbrev go_on : Ended A → (A → Process S B) → Process S B
  go_on (going a) f s = f a s
  go_on (exited code) f s = (exited code, s)
  go_on (crashed p) f s = (crashed p, s)

  infixl 10 ◌>>=◌ ◌>>◌
  abbrev pub ◌>>=◌ : Process S A → (A → Process S B) → Process S B
  ◌>>=◌ m f s = go_on (m s).0 f (m s).1

  abbrev pub ◌>>◌ : Process S A → Process S B → Process S B
  m >> n = m >>= λ _. n

module _ {ℓ} {A : Type ℓ} where
  abbrev or_panicked : (Error → Panic) → Result A → Ended A
  or_panicked f (ok a) = going a
  or_panicked f (err e) = crashed (f e)

  abbrev pub or_exited : Result A → Ended A
  or_exited (ok a) = going a
  or_exited (err e) = exited 1

module _ {ℓ} {S : Type 0} {A : Type ℓ} where
  abbrev pub proceed : A → Process S A
  proceed a s = (going a, s)

  -- `if err != nil { panic(…) }`
  abbrev pub or_panic : Result A → (Error → Panic) → Process S A
  or_panic r f s = (or_panicked f r, s)

  -- `if err != nil { log; os.Exit(1) }`
  abbrev pub or_exit : Result A → Process S A
  or_exit r s = (or_exited r, s)

module _ {S A : Type 0} where
  abbrev pub call_or_panic : Call S A → (Error → Panic) → Process S A
  call_or_panic m f s = or_panic (m s).0 f (m s).1

  abbrev pub call_or_exit : Call S A → Process S A
  call_or_exit m s = or_exit (m s).0 (m s).1

-- A chain that goes on to its end: its first part has gone on.
pub go_on-eq-going {ℓ κ} :
    {S : Type 0} {A : Type ℓ} {B : Type κ} (m : Ended A) (f : A → Process S B) (s : S) {b : B}
    → (go_on m f s).0 ≡ going b
    → (a : A) × (m ≡ going a) × (go_on m f s ≡ f a s)
go_on-eq-going (going a) f s h = (a, refl, refl)
go_on-eq-going (exited code) f s h = absurd (ground arith)
go_on-eq-going (crashed p) f s h = absurd (ground arith)

abbrev going_or {ℓ} : {A : Type ℓ} → A → Ended A → A
going_or old (going a) = a
going_or old (exited code) = old
going_or old (crashed p) = old

pub going_injective {ℓ} : {A : Type ℓ} (a b : A) → ◌≡◌ {A = Ended A} (going a) (going b) → a ≡ b
going_injective a b h = ap (going_or a) h
