-- ===== src/Exec.antt =====
-- A service method: it reads and writes the state of its call and may raise. What it wrote
-- before a raise stays written, so the state comes back beside the error too.
use aiplatform.Shared.{Bool, true, false, Option, none, some}
use aiplatform.Errors.{Failure}

pub data Result {ℓ} (A : Type ℓ) : Type ℓ where
  ok : A → Result A
  err : Failure → Result A

abbrev pub Exec {ℓ} : Type ℓ → Type ℓ → Type ℓ
Exec S A = S → Result A × S

module _ {ℓ} {S : Type ℓ} {A : Type ℓ} where
  abbrev pub pure : A → Exec S A
  pure a s = (ok a, s)

  abbrev pub raise : Failure → Exec S A
  raise e s = (err e, s)

  abbrev pub gets : (S → A) → Exec S A
  gets f s = (ok (f s), s)

  abbrev pub lift : Result A → Exec S A
  lift r s = (r, s)

  abbrev pub or_raise : Option A → Failure → Exec S A
  or_raise none e = raise e
  or_raise (some a) e = pure a

module _ {S : Type 0} where
  abbrev pub modify : (S → S) → Exec S (Unit {0})
  modify f s = (ok tt, f s)

  abbrev pub raise_if : Bool → Failure → Exec S (Unit {0})
  raise_if true e s = (err e, s)
  raise_if false e s = (ok tt, s)

module _ {S A B : Type 0} where
  abbrev pub resume : Result A → (A → Exec S B) → Exec S B
  resume (ok a) f s = f a s
  resume (err e) f s = (err e, s)

  infixl 5 ◌>>=◌ ◌>>◌
  abbrev pub ◌>>=◌ : Exec S A → (A → Exec S B) → Exec S B
  ◌>>=◌ m f s = let (r, s') = m s in resume r f s'

  abbrev pub ◌>>◌ : Exec S A → Exec S B → Exec S B
  m >> k = m >>= λ _. k

  -- `try: m except Failure as e: handler(e)`, with what follows the block
  abbrev pub catch_resume : Result A → (A → Exec S B) → (Failure → Exec S B) → Exec S B
  catch_resume (ok a) f h s = f a s
  catch_resume (err e) f h s = h e s

  abbrev pub try_with : Exec S A → (A → Exec S B) → (Failure → Exec S B) → Exec S B
  try_with m f h s = let (r, s') = m s in catch_resume r f h s'
