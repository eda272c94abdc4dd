-- ===== src/Errors.antt =====
-- The exceptions that the program raises or catches, and the methods that may raise.
use echo_security_scanner.Base.{◌⊎◌, inl, inr, ℕ, ◌≡◌, refl, Option, Text, codes, ◌++◌}

-- `integrity_error` and `stale_data` are the database layer's: a unique constraint by its name, and
-- an update that finds no row. `other` is any further exception, by its class and message.
pub data Exception : Type 0 where
  image_not_found : Text → Exception
  rate_limited : Text → Option ℕ → Exception
  registry_error : Text → Exception
  trivy_error : Text → Exception
  trivy_timeout : Text → Exception
  trivy_rate_limited : Text → Exception
  trivy_report_error : Text → Exception
  integrity_error : Text → Exception
  stale_data : Exception
  other : Text → Text → Exception

pub data Result {ℓ} (A : Type ℓ) : Type ℓ where
  ok : A → Result A
  raise : Exception → Result A

-- An action on a state. What was done before an exception stays done, until a rollback.
abbrev pub Exec {ℓ} : Type ℓ → Type ℓ → Type ℓ
Exec S A = S → Result A × S

abbrev pub proceed {ℓ} : {S A B : Type ℓ} → Result A → (A → Exec S B) → S → Result B × S
proceed (ok a) f s = f a s
proceed (raise e) f s = (raise e, s)

infixl 10 ◌>>=◌ ◌>>◌
abbrev pub ◌>>=◌ {ℓ} : {S A B : Type ℓ} → Exec S A → (A → Exec S B) → Exec S B
◌>>=◌ m f s = let (r, s') = m s in proceed r f s'

abbrev pub ◌>>◌ {ℓ} : {S A B : Type ℓ} → Exec S A → Exec S B → Exec S B
m >> n = m >>= λ _. n

abbrev pub pure {ℓ} : {S A : Type ℓ} → A → Exec S A
pure a s = (ok a, s)

abbrev pub throw {ℓ} : {S A : Type ℓ} → Exception → Exec S A
throw e s = (raise e, s)

-- `f"{type(error).__name__}: {error}"`. Of the database layer's own errors, whose text is not in
-- the program, the constraint stands for the message.
unfoldable pub describe : Exception → Text
describe (image_not_found m) = codes "ImageNotFound: " ++ m
describe (rate_limited m _) = codes "RateLimited: " ++ m
describe (registry_error m) = codes "RegistryError: " ++ m
describe (trivy_error m) = codes "TrivyError: " ++ m
describe (trivy_timeout m) = codes "TrivyTimeout: " ++ m
describe (trivy_rate_limited m) = codes "TrivyRateLimited: " ++ m
describe (trivy_report_error m) = codes "TrivyReportError: " ++ m
describe (integrity_error constraint) = codes "IntegrityError: " ++ constraint
describe stale_data = codes "StaleDataError: "
describe (other name m) = name ++ codes ": " ++ m

-- Returning a value changes no state, whether the action before it raised or not.
pub state-then-pure {ℓ} :
    {S A B : Type ℓ} (m : Exec S A) (f : A → B) (s : S) → ((m >>= λ a. pure (f a)) s).1 ≡ (m s).1
state-then-pure {A = A} m f s = split (m s).0
  where
    split : (r : Result A) → (proceed r (λ a. pure (f a)) (m s).1).1 ≡ (m s).1
    split (ok a) = refl
    split (raise e) = refl

-- A pure function that may raise, followed by another.
abbrev pub and_then {ℓ} : {A B : Type ℓ} → Result A → (A → Result B) → Result B
and_then (ok a) f = f a
and_then (raise e) f = raise e

pub and_then-ok {ℓ} :
    {A B : Type ℓ} (r : Result A) (f : A → Result B) {b : B}
    → and_then r f ≡ ok b
    → (a : A) × (r ≡ ok a) × (f a ≡ ok b)
and_then-ok (ok a) f h = (a, refl, h)
and_then-ok (raise e) f h = cc

pub and_then-raise {ℓ} :
    {A B : Type ℓ} (r : Result A) (f : A → Result B) {e : Exception}
    → and_then r f ≡ raise e
    → (r ≡ raise e) ⊎ ((a : A) × (r ≡ ok a) × (f a ≡ raise e))
and_then-raise (ok a) f h = inr (a, refl, h)
and_then-raise (raise d) f h = inl (cc h)

pub ok_injective {ℓ} : {A : Type ℓ} {a b : A} → ok a ≡ ok b → a ≡ b
ok_injective h = cc

-- To split on an answer and keep the equation.
pub Result-cases :
    {A : Type 0} (r : Result A) → ((a : A) × (r ≡ ok a)) ⊎ ((e : Exception) × (r ≡ raise e))
Result-cases (ok a) = inl (a, refl)
Result-cases (raise e) = inr (e, refl)
