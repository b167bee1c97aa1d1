-- ===== src/Base/Exec.antt =====
-- Methods that change an object and may return an error. The state comes back beside the error, since
-- what was written before an early return stays written.
use mathlib.Core.Path.{◌≡◌, refl, sym, ap, subst}
use hyperfleet_applier.Base.Result.{Result, ok, err}

abbrev pub Exec {ℓ κ μ} : Type ℓ → Type κ → Type μ → Type (ℓ ⊔ κ ⊔ μ)
Exec S E A = S → Result E A × S

module _ {ℓ κ μ} {S : Type ℓ} {E : Type κ} {A : Type μ} where
  abbrev pub lift : Result E A → Exec S E A
  lift r s = (r, s)

  abbrev pub pure : A → Exec S E A
  pure a s = (ok a, s)

  abbrev pub raise : E → Exec S E A
  raise e s = (err e, s)

module _ {ℓ κ μ ν} {S : Type ℓ} {E : Type κ} {A : Type μ} {B : Type ν} where
  abbrev pub continue : Result E A → (A → Exec S E B) → Exec S E B
  continue (ok a) f s = f a s
  continue (err e) f s = (err e, s)

  infixl 5 ◌>>=◌ ◌>>◌
  unfoldable pub ◌>>=◌ : Exec S E A → (A → Exec S E B) → Exec S E B
  ◌>>=◌ m f s = continue (m s).0 f (m s).1

  abbrev pub ◌>>◌ : Exec S E A → Exec S E B → Exec S E B
  m >> n = m >>= λ _. n

module _ {ℓ κ μ ν π} {S : Type ℓ} {E : Type κ} {A : Type μ} {B : Type ν} (P : S → Type π) where
  pub continue_inv :
      (r : Result E A) (f : A → Exec S E B) (s : S)
      → P s
      → ((a : A) → r ≡ ok a → P (f a s).1)
      → P (continue r f s).1
  continue_inv (ok a) f s h k = k a refl
  continue_inv (err e) f s h k = h

  -- A sequence leaves a state with `P` if its first part does, and its second part from there.
  pub bind_inv :
      (m : Exec S E A) (f : A → Exec S E B) (s : S)
      → P (m s).1
      → ((a : A) → (m s).0 ≡ ok a → P (f a (m s).1).1)
      → P ((m >>= f) s).1
  unfolding ◌>>=◌
  bind_inv m f s h k = continue_inv (m s).0 f (m s).1 h k

  -- The same, where the first part changes nothing.
  pub bind_same :
      (m : Exec S E A) (f : A → Exec S E B) (s : S)
      → (m s).1 ≡ s
      → P s
      → ((a : A) → (m s).0 ≡ ok a → P (f a s).1)
      → P ((m >>= f) s).1
  bind_same m f s same h k =
      bind_inv m f s (subst P (sym same) h) λ a e. subst (λ t. P (f a t).1) (sym same) (k a e)

-- `Q` holds of the state that an error leaves
abbrev pub OnError {ℓ κ μ π} :
    {S : Type ℓ} {E : Type κ} {A : Type μ} → (S → Type π) → Result E A × S → Type (κ ⊔ μ ⊔ π)
OnError {E} Q r = (x : E) → r.0 ≡ err x → Q r.1

module _ {ℓ κ μ ν π} {S : Type ℓ} {E : Type κ} {A : Type μ} {B : Type ν} (Q : S → Type π) where
  pub continue_error :
      (r : Result E A) (f : A → Exec S E B) (s : S)
      → OnError Q (r, s)
      → ((a : A) → r ≡ ok a → OnError Q (f a s))
      → OnError Q (continue r f s)
  continue_error (ok a) f s h k = k a refl
  continue_error (err e) f s h k = λ x q. h e refl

  pub bind_error :
      (m : Exec S E A) (f : A → Exec S E B) (s : S)
      → OnError Q (m s)
      → ((a : A) → (m s).0 ≡ ok a → OnError Q (f a (m s).1))
      → OnError Q ((m >>= f) s)
  unfolding ◌>>=◌
  bind_error m f s h k = continue_error (m s).0 f (m s).1 h k

module _ {ℓ κ μ ν} {S : Type ℓ} {E : Type κ} {A : Type μ} {B : Type ν} where
  continue_ok :
      (r : Result E A) (u : S) (f : A → Exec S E B) {b : B} {t : S}
      → continue r f u ≡ (ok b, t)
      → (a : A) × (r ≡ ok a) × (f a u ≡ (ok b, t))
  continue_ok (ok a) u f h = (a, refl, h)
  continue_ok (err e) u f h = cc (ap (λ (x : Result E B × S). x.0) h)

  -- Inversion of a successful sequence.
  pub bind_ok :
      (m : Exec S E A) (f : A → Exec S E B) (s : S) {b : B} {t : S}
      → (m >>= f) s ≡ (ok b, t)
      → (a : A) × ((m s).0 ≡ ok a) × (f a (m s).1 ≡ (ok b, t))
  unfolding ◌>>=◌
  bind_ok m f s h = continue_ok (m s).0 (m s).1 f h

  -- Inversion where the first part changes nothing.
  pub bind_ok_same :
      (m : Exec S E A) (f : A → Exec S E B) (s : S) {b : B} {t : S}
      → (m s).1 ≡ s
      → (m >>= f) s ≡ (ok b, t)
      → (a : A) × ((m s).0 ≡ ok a) × (f a s ≡ (ok b, t))
  bind_ok_same m f s {b} {t} same h =
      let (a, e, k) = bind_ok m f s h in (a, e, subst (λ u. f a u ≡ (ok b, t)) same k)

  -- A sequence whose first part succeeds.
  pub bind-eq :
      (m : Exec S E A) (f : A → Exec S E B) (s u : S) (a : A)
      → m s ≡ (ok a, u)
      → (m >>= f) s ≡ f a u
  unfolding ◌>>=◌
  bind-eq m f s u a h = ap (λ (r : Result E A × S). continue r.0 f r.1) h

  -- A sequence whose first part fails.
  pub bind-err :
      (m : Exec S E A) (f : A → Exec S E B) (s u : S) (e : E)
      → m s ≡ (err e, u)
      → (m >>= f) s ≡ (err e, u)
  unfolding ◌>>=◌
  bind-err m f s u e h = ap (λ (r : Result E A × S). continue r.0 f r.1) h
