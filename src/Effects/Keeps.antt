-- ===== src/Effects/Keeps.antt =====
-- Predicates that an action keeps, whether it returns or throws: one rule for each way to build an action.
use rc2compute.Prelude.{Bool, true, false, Option, none, some, if◌then◌else◌}
use rc2compute.Effects.{Exn, Exec, pure, raise, crash, gets, finally, try_catch, ◌>>=◌}
use rc2compute.Effects.Hoare.{
  Triple, IsDefined, state_of_post, by_pure, by_raise, by_crash, by_gets, by_bind, by_try,
  by_finally,
}

pub record Keeps {ℓ} {S A : Type ℓ} (P : S → Type ℓ) (m : Exec S A) : Type ℓ where
  pub both : Triple P m (λ _. P) P

module _ {ℓ} {S A : Type ℓ} {P : S → Type ℓ} where
  pub Keeps-pure : (a : A) → Keeps P (pure a)
  Keeps-pure a = record { both = by_pure a (λ s h. h) }

  pub Keeps-raise : (e : Exn) → Keeps P (raise {A = A} e)
  Keeps-raise e = record { both = by_raise e (λ s h. h) }

  pub Keeps-crash : Keeps P (crash {S = S} {A = A})
  Keeps-crash = record { both = by_crash }

  pub Keeps-gets : (f : S → A) → Keeps P (gets f)
  Keeps-gets f = record { both = by_gets f }

  pub Keeps-if : (b : Bool) (m n : Exec S A) → Keeps P m → Keeps P n → Keeps P (if b then m else n)
  Keeps-if true m n km kn = km
  Keeps-if false m n km kn = kn

  pub Keeps-try :
      (m : Exec S A) (takes : Exn → Bool) (handler : Exn → Exec S A)
      → Keeps P m
      → ((e : Exn) → Keeps P (handler e))
      → Keeps P (try_catch m takes handler)
  Keeps-try m takes handler km kh = record {
    both = by_try m takes handler km.both (λ s h. h) (λ e. (kh e).both);
  }

  pub Keeps-finally :
      (m : Exec S A) (last : S → S)
      → ((s : S) → P s → P (last s))
      → Keeps P m
      → Keeps P (finally m last)
  Keeps-finally m last e km = record {
    both = by_finally m last (λ a s h. e s h) (λ s h. e s h) km.both;
  }

  -- The last state of an action, short of undefined behaviour.
  pub kept : (m : Exec S A) (s : S) → Keeps P m → IsDefined (m s).0 → P s → P (m s).1
  kept m s k d h = state_of_post P (m s).0 (m s).1 d (k.both.at s h)

module _ {ℓ} {S A B : Type ℓ} {P : S → Type ℓ} where
  pub Keeps-bind :
      (m : Exec S A) (f : A → Exec S B) → Keeps P m → ((a : A) → Keeps P (f a)) → Keeps P (m >>= f)
  Keeps-bind m f km kf = record { both = by_bind m f km.both (λ a. (kf a).both) }

  pub Keeps-option :
      (o : Option B) (m : Exec S A) (f : B → Exec S A)
      → Keeps P m
      → ((b : B) → Keeps P (f b))
      → Keeps P (elim o [ none ↦ m | some b ↦ f b ])
  Keeps-option none m f km kf = km
  Keeps-option (some b) m f km kf = kf b

pub ruleset keeps_rules = (
  Keeps-pure, Keeps-raise, Keeps-crash, Keeps-gets, Keeps-if, Keeps-try, Keeps-bind, Keeps-option,
)
