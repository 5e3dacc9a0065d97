-- ===== src/Prelude/Results.antt =====
-- Python's exceptions: a computation returns a value or raises.
use mathlib.Core.Path.{◌≡◌, refl}
use mathlib.Core.List.{List, [], ◌∷◌}

-- The exceptions that the modelled code raises, or lets through from what it calls.
pub data Error : Type 0 where
  zero_division overflow type_error attribute_error database_error value_error index_error
        assertion_error not_null_violation key_error system_exit :
      Error
  adapt_error stop_iteration : Error

pub data Result {ℓ} (A : Type ℓ) : Type ℓ where
  raise : Error → Result A
  ok : A → Result A

module _ {ℓ κ} {A : Type ℓ} {B : Type κ} where
  infixl 5 ◌>>=◌
  -- An exception ends the computation.
  abbrev pub ◌>>=◌ : Result A → (A → Result B) → Result B
  raise x >>= next = raise x
  ok a >>= next = next a

  -- Inversion of a computation that returned.
  pub >>=-eq-ok :
      (r : Result A) (next : A → Result B) {y : B}
      → (r >>= next) ≡ ok y
      → (x : A) × (r ≡ ok x) × (next x ≡ ok y)
  >>=-eq-ok (raise x) next e = cc
  >>=-eq-ok (ok x) next e = (x, refl, e)

-- The computation for each element in turn; the first exception ends the loop.
unfoldable pub traverse {ℓ κ} :
    {A : Type ℓ} {B : Type κ} → (A → Result B) → List A → Result (List B)
traverse f [] = ok []
traverse f (x ∷ xs) = do y ← f x; ys ← traverse f xs; ok (y ∷ ys)

pub ok-injective {ℓ} : {A : Type ℓ} {a b : A} → ok a ≡ ok b → a ≡ b
ok-injective h = cc
