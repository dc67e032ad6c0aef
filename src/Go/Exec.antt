-- ===== src/Go/Exec.antt =====
-- A Go function that changes a state and returns a value or an error. What was written before an
-- error stays written, so the state comes back beside the error too.
pub mod Triple
pub mod Within
use mpc_custody.Prelude.{◌≡◌, refl, ◌⊎◌, inl, inr, Bool, if◌then◌else◌}
use mpc_custody.Errors.{Error}

pub data Result {ℓ} (A : Type ℓ) : Type ℓ where
  ok : A → Result A
  err : Error → Result A

pub Result-cases :
    {A : Type 0} (r : Result A) → ((a : A) × (r ≡ ok a)) ⊎ ((e : Error) × (r ≡ err e))
Result-cases (ok a) = inl (a, refl)
Result-cases (err e) = inr (e, refl)

abbrev pub Exec {ℓ} : Type ℓ → Type ℓ → Type ℓ
Exec W A = W → Result A × W

module _ {ℓ} {W A : Type ℓ} where
  abbrev pub pure : A → Exec W A
  pure a w = (ok a, w)

  abbrev pub raise : Error → Exec W A
  raise e w = (err e, w)

  abbrev pub lift : Result A → Exec W A
  lift r w = (r, w)

module _ {ℓ} {W A B : Type ℓ} where
  abbrev pub continue : Result A → (A → Exec W B) → Exec W B
  continue (ok a) f w = f a w
  continue (err e) f w = (err e, w)

  infixl 10 ◌>>=◌
  unfoldable pub ◌>>=◌ : Exec W A → (A → Exec W B) → Exec W B
  ◌>>=◌ m f w = let (r, w') = m w in continue r f w'

infixl 10 ◌>>◌
abbrev pub ◌>>◌ {ℓ} : {W A B : Type ℓ} → Exec W A → Exec W B → Exec W B
m >> n = m >>= λ _. n

-- `if cond { return …, err }`
abbrev pub raise_if : {W : Type 0} → Bool → Error → Exec W (Unit {0})
raise_if c e w = (if c then err e else ok tt, w)

-- `_ = f()`: the error is dropped
unfoldable pub ignore : {W A : Type 0} → Exec W A → Exec W (Unit {0})
ignore m w = (ok tt, (m w).1)

-- `if err != nil { h(err); return …, err }`
module _ {W A : Type 0} where
  abbrev pub on_error_result : (Error → Exec W (Unit {0})) → Result A → Exec W A
  on_error_result h (ok a) w = (ok a, w)
  on_error_result h (err e) w = (err e, (h e w).1)

  unfoldable pub on_error : Exec W A → (Error → Exec W (Unit {0})) → Exec W A
  on_error m h w = let (r, w') = m w in on_error_result h r w'

abbrev map_error_result : {A : Type 0} → (Error → Error) → Result A → Result A
map_error_result f (ok a) = ok a
map_error_result f (err e) = err (f e)

-- `if err := m(); err != nil { return f(err) }`
unfoldable pub map_error : {W A : Type 0} → (Error → Error) → Exec W A → Exec W A
map_error f m w = let (r, w') = m w in (map_error_result f r, w')
