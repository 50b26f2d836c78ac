-- ===== src/Exec.antt =====
-- Methods that take `&mut self` and return a `Result`: the state comes back beside the result, and
-- beside an error too, since what was changed before the `?` stays changed.
use atlas_kv.Base.{refl, ◌≡◌}
use atlas_kv.Error.{AtlasError, Result, ok, err}

abbrev pub Exec {ℓ κ} : Type ℓ → Type κ → Type (ℓ ⊔ κ)
Exec S A = S → Result A × S

module _ {ℓ κ} {S : Type ℓ} {A : Type κ} where
  abbrev pub pure : A → Exec S A
  pure a s = (ok a, s)

  abbrev pub fail : AtlasError → Exec S A
  fail e s = (err e, s)

  abbrev pub lift : Result A → Exec S A
  lift r s = (r, s)

module _ {ℓ κ μ} {S : Type ℓ} {A : Type κ} {B : Type μ} where
  abbrev pub then_run : Result A → (A → Exec S B) → Exec S B
  then_run (ok a) f s = f a s
  then_run (err e) f s = (err e, s)

  infixl 5 ◌>>=◌ ◌>>◌
  abbrev pub ◌>>=◌ : Exec S A → (A → Exec S B) → Exec S B
  ◌>>=◌ m f s = let (r, s') = m s in then_run r f s'

  abbrev pub ◌>>◌ : Exec S A → Exec S B → Exec S B
  m >> k = m >>= λ _. k

abbrev pub modify {ℓ} : {S : Type ℓ} → (S → S) → Exec S (Unit {0})
modify f s = (ok tt, f s)

abbrev pub gets {ℓ κ} : {S : Type ℓ} {A : Type κ} → (S → A) → Exec S A
gets f s = (ok (f s), s)

-- A chain that succeeds: its first step did, and the rest from there.
then_run-ok {ℓ κ μ} :
    {S : Type ℓ} {A : Type κ} {B : Type μ} (r : Result A) (f : A → Exec S B) (s : S) {b : B} {t : S}
    → then_run r f s ≡ (ok b, t)
    → (a : A) × (r ≡ ok a) × (f a s ≡ (ok b, t))
then_run-ok (ok a) f s h = (a, refl, h)
then_run-ok (err e) f s h = cc

pub bind-ok {ℓ κ μ} :
    {S : Type ℓ} {A : Type κ} {B : Type μ} (m : Exec S A) (f : A → Exec S B) (s : S) {b : B} {t : S}
    → (m >>= f) s ≡ (ok b, t)
    → (a : A) × ((m s).0 ≡ ok a) × (f a (m s).1 ≡ (ok b, t))
bind-ok m f s h = then_run-ok (m s).0 f (m s).1 h
