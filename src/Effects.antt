-- ===== src/Effects.antt =====
-- C++ functions that change state and may throw. What was written before a throw stays written.
-- The exceptions are those that the code under src/ throws or lets through; `errno_value` is an int.
pub mod Hoare
pub mod Keeps
use rc2compute.Prelude.{◌≡◌, refl, Bool, true, false, [], Bytes, take, if◌then◌else◌}

pub data Exn : Type 0 where
  runtime_error : Bytes → Exn
  db_exception : Bytes → Exn
  stat_exception : Bytes → Exn
  formatted_exception : Bytes → Exn
  logic_error : Bytes → Exn
  out_of_range : Exn
  bad_alloc : Exn
  errno_value : Exn

-- What `catch (std::runtime_error &)` takes: the class and its subclasses DBException and
-- StatException; FormattedException derives from `std::exception` alone.
unfoldable pub is_runtime_error : Exn → Bool
is_runtime_error (runtime_error m) = true
is_runtime_error (db_exception m) = true
is_runtime_error (stat_exception m) = true
is_runtime_error _ = false

-- `what()`; the texts of the standard library's own exceptions are left empty.
unfoldable pub what : Exn → Bytes
what (runtime_error m) = m
what (db_exception m) = m
what (stat_exception m) = m
what (formatted_exception m) = m
what (logic_error m) = m
what _ = []

-- `undefined` is undefined behaviour, such as a read through a null pointer.
pub data Result {ℓ} (A : Type ℓ) : Type ℓ where
  ok : A → Result A
  raised : Exn → Result A
  undefined : Result A

abbrev pub Exec {ℓ} : Type ℓ → Type ℓ → Type ℓ
Exec S A = S → Result A × S

module _ {ℓ} {S A : Type ℓ} where
  unfoldable pub pure : A → Exec S A
  pure a s = (ok a, s)

  unfoldable pub raise : Exn → Exec S A
  raise e s = (raised e, s)

  unfoldable pub crash : Exec S A
  crash s = (undefined, s)

  unfoldable pub gets : (S → A) → Exec S A
  gets f s = (ok (f s), s)

  abbrev pub caught : Result A → (Exn → Bool) → (Exn → Exec S A) → Exec S A
  caught (ok a) takes handler s = (ok a, s)
  caught (raised e) takes handler s = (if takes e then handler e else raise e) s
  caught undefined takes handler s = (undefined, s)

  -- `try { m } catch (…) { handler }` for the exceptions that `takes` accepts
  unfoldable pub try_catch : Exec S A → (Exn → Bool) → (Exn → Exec S A) → Exec S A
  try_catch m takes handler s = let (r, t) = m s in caught r takes handler t

  -- an action that runs at the end of the scope, also when the scope is left by a throw
  unfoldable pub finally : Exec S A → (S → S) → Exec S A
  finally m last s = let (r, t) = m s in (r, last t)

unfoldable pub modify {ℓ} : {S : Type ℓ} → (S → S) → S → Result (Unit {ℓ}) × S
modify f s = (ok tt, f s)

abbrev pub any_exception : Exn → Bool
any_exception e = true

module _ {ℓ} {S A B : Type ℓ} where
  abbrev pub continue : Result A → (A → Exec S B) → Exec S B
  continue (ok a) f s = f a s
  continue (raised e) f s = (raised e, s)
  continue undefined f s = (undefined, s)

  infixl 10 ◌>>=◌ ◌>>◌
  unfoldable pub ◌>>=◌ : Exec S A → (A → Exec S B) → Exec S B
  ◌>>=◌ m f s = let (r, t) = m s in continue r f t

  abbrev pub ◌>>◌ : Exec S A → Exec S B → Exec S B
  m >> n = m >>= λ _. n

-- `FormattedException` keeps the first 255 bytes of its message (common/FormattedException.cpp).
unfoldable pub formatted : Bytes → Exn
formatted message = formatted_exception (take 255 message)
