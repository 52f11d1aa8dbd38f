-- ===== src/Base/Act.antt =====
-- Methods that change an object and may raise. What was written before the exception stays
-- written, so the object comes back beside the error too.
use schunk_fts_ros.Base.Raise.{Result, Error, ok, err}

abbrev pub Act {ℓ} : Type ℓ → Type ℓ → Type ℓ
Act S A = S → S × Result A

module _ {ℓ} {S A : Type ℓ} where
  abbrev pub pure : A → Act S A
  pure a s = (s, ok a)

  abbrev pub raise : Error → Act S A
  raise e s = (s, err e)

  abbrev pub lift : Result A → Act S A
  lift r s = (s, r)

  abbrev pub gets : (S → A) → Act S A
  gets f s = (s, ok (f s))

-- A write to the object.
abbrev pub modify {ℓ} : {S : Type ℓ} → (S → S) → Act S (Unit {ℓ})
modify f s = (f s, ok tt)

module _ {ℓ} {S A B : Type ℓ} where
  abbrev pub continue : Result A → (A → Act S B) → Act S B
  continue (ok a) f s = f a s
  continue (err e) f s = (s, err e)

  infixl 5 ◌>>=◌ ◌>>◌
  abbrev pub ◌>>=◌ : Act S A → (A → Act S B) → Act S B
  ◌>>=◌ m f s = let (s', r) = m s in continue r f s'

  abbrev pub ◌>>◌ : Act S A → Act S B → Act S B
  m >> n = m >>= λ _. n
