-- ===== src/Effects/Hoare.antt =====
-- Pre- and postconditions of actions: one for a normal end and one for a throw. After undefined
-- behaviour nothing is claimed.
use rc2compute.Prelude.{Option, none, some, ◌≡◌, refl, Bool, true, false, if◌then◌else◌}
use rc2compute.Effects.{
  Exn, Result, ok, raised, undefined, Exec, pure, raise, crash, gets, modify, finally, try_catch,
  caught, continue, ◌>>=◌,
}

abbrev pub Post {ℓ} : {S A : Type ℓ} → (A → S → Type ℓ) → (S → Type ℓ) → Result A × S → Type ℓ
Post Q E (ok a, s) = Q a s
Post Q E (raised e, s) = E s
Post Q E (undefined, s) = Unit

pub record Triple {ℓ} {S A : Type ℓ} (P : S → Type ℓ) (m : Exec S A) (Q : A → S → Type ℓ)
    (E : S → Type ℓ) : Type ℓ where
  pub at : (s : S) → P s → Post Q E (m s)

module _ {ℓ} {S A : Type ℓ} {P E : S → Type ℓ} where
  pub by_pure : {Q : A → S → Type ℓ} (a : A) → ((s : S) → P s → Q a s) → Triple P (pure a) Q E
  unfolding pure
  by_pure a h = record { at = h }

  pub by_raise :
      {Q : A → S → Type ℓ} (e : Exn) → ((s : S) → P s → E s) → Triple P (raise {A = A} e) Q E
  unfolding raise
  by_raise e h = record { at = h }

  pub by_gets : (f : S → A) → Triple P (gets f) (λ _. P) E
  unfolding gets
  by_gets f = record { at = λ s h. h }

  -- What was read is known.
  pub by_reads : (f : S → A) → Triple P (gets f) (λ a s. P s × (f s ≡ a)) E
  unfolding gets
  by_reads f = record { at = λ s h. (h, refl) }

  pub by_if :
      {Q : A → S → Type ℓ} (b : Bool) (m n : Exec S A)
      → (b ≡ true → Triple P m Q E)
      → (b ≡ false → Triple P n Q E)
      → Triple P (if b then m else n) Q E
  by_if true m n hm hn = hm refl
  by_if false m n hm hn = hn refl

module _ {ℓ} {S A B : Type ℓ} {P E : S → Type ℓ} {Q : A → S → Type ℓ} where
  pub by_option :
      (o : Option B) (m : Exec S A) (f : B → Exec S A)
      → Triple P m Q E
      → ((b : B) → Triple P (f b) Q E)
      → Triple P (elim o [ none ↦ m | some b ↦ f b ]) Q E
  by_option none m f hm hf = hm
  by_option (some b) m f hm hf = hf b

module _ {ℓ} {S A : Type ℓ} {P E : S → Type ℓ} {Q : A → S → Type ℓ} where
  pub by_crash : Triple P (crash {S = S} {A = A}) Q E
  unfolding crash
  by_crash = record { at = λ s h. tt }

module _ {ℓ} {S : Type ℓ} {P E : S → Type ℓ} where
  pub by_modify :
      {Q : Unit {ℓ} → S → Type ℓ} (f : S → S)
      → ((s : S) → P s → Q tt (f s))
      → Triple P (modify f) Q E
  unfolding modify
  by_modify f h = record { at = h }

module _ {ℓ} {S A B : Type ℓ} {E : S → Type ℓ} {Q : A → S → Type ℓ} {R : B → S → Type ℓ} where
  continue-Post :
      (r : Result A) (t : S) (f : A → Exec S B)
      → Post Q E (r, t)
      → ((a : A) → Triple (Q a) (f a) R E)
      → Post R E (continue r f t)
  continue-Post (ok a) t f h k = (k a).at t h
  continue-Post (raised e) t f h k = h
  continue-Post undefined t f h k = tt

  pub by_bind :
      {P : S → Type ℓ} (m : Exec S A) (f : A → Exec S B)
      → Triple P m Q E
      → ((a : A) → Triple (Q a) (f a) R E)
      → Triple P (m >>= f) R E
  unfolding ◌>>=◌
  by_bind m f hm hf = record { at = λ s h. let (r, t) = m s in continue-Post r t f (hm.at s h) hf }

module _ {ℓ} {S A : Type ℓ} (E F : S → Type ℓ) (Q R : A → S → Type ℓ) (last : S → S) where
  finally-Post :
      (r : Result A) (t : S)
      → ((a : A) (s : S) → Q a s → R a (last s))
      → ((s : S) → E s → F (last s))
      → Post Q E (r, t)
      → Post R F (r, last t)
  finally-Post (ok a) t q e h = q a t h
  finally-Post (raised x) t q e h = e t h
  finally-Post undefined t q e h = tt

module _ {ℓ} {S A : Type ℓ} {P E F : S → Type ℓ} {Q R : A → S → Type ℓ} where
  pub by_finally :
      (m : Exec S A) (last : S → S)
      → ((a : A) (s : S) → Q a s → R a (last s))
      → ((s : S) → E s → F (last s))
      → Triple P m Q E
      → Triple P (finally m last) R F
  unfolding finally
  by_finally m last q e h = record {
    at = λ s p. let (r, t) = m s in finally-Post E F Q R last r t q e (h.at s p);
  }

  pub by_weaken :
      (m : Exec S A)
      → ((a : A) (s : S) → Q a s → R a s)
      → ((s : S) → E s → F s)
      → Triple P m Q E
      → Triple P m R F
  by_weaken m q e h = record {
    at = λ s p. let (r, t) = m s in finally-Post E F Q R (λ s. s) r t q e (h.at s p);
  }

module _ {ℓ} {S A : Type ℓ} {O P E : S → Type ℓ} {Q : A → S → Type ℓ} where
  pub by_before : (m : Exec S A) → ((s : S) → O s → P s) → Triple P m Q E → Triple O m Q E
  by_before m o h = record { at = λ s p. h.at s (o s p) }

module _ {ℓ} {S A : Type ℓ} {E F : S → Type ℓ} {Q : A → S → Type ℓ} where
  caught-Post :
      (r : Result A) (t : S) (takes : Exn → Bool) (handler : Exn → Exec S A)
      → Post Q E (r, t)
      → ((s : S) → E s → F s)
      → ((e : Exn) → Triple E (handler e) Q F)
      → Post Q F (caught r takes handler t)
  caught-Post (ok a) t takes handler h e k = h
  caught-Post (raised x) t takes handler h e k =
      (by_if (takes x) (handler x) (raise x) (λ _. k x) (λ _. by_raise x e)).at t h
  caught-Post undefined t takes handler h e k = tt

  pub by_try :
      {P : S → Type ℓ} (m : Exec S A) (takes : Exn → Bool) (handler : Exn → Exec S A)
      → Triple P m Q E
      → ((s : S) → E s → F s)
      → ((e : Exn) → Triple E (handler e) Q F)
      → Triple P (try_catch m takes handler) Q F
  unfolding try_catch
  by_try m takes handler h e k = record {
    at = λ s p. let (r, t) = m s in caught-Post r t takes handler (h.at s p) e k;
  }

-- Every outcome, when the state does not depend on it.
pub by_state {ℓ} :
    {S A : Type ℓ} (P : S → Type ℓ) (r : Result A) (t : S) → P t → Post (λ _. P) P (r, t)
by_state P (ok a) t h = h
by_state P (raised e) t h = h
by_state P undefined t h = tt

-- An action of a part of the state, run on the whole.
abbrev pub inside {ℓ} : {S T A : Type ℓ} (part : T → S) (put : T → S → T) → Exec S A → Exec T A
inside part put m t = let (r, s) = m (part t) in (r, put t s)

module _ {ℓ} {S T A : Type ℓ} (E : S → Type ℓ) (Q : A → S → Type ℓ) (F : T → Type ℓ) (part : T → S)
    (put : T → S → T) where
  inside-Post :
      (r : Result A) (t : T) (s : S)
      → (part (put t s) ≡ s) × F (put t s)
      → Post Q E (r, s)
      → Post (λ a t. Q a (part t) × F t) (λ t. E (part t) × F t) (r, put t s)
  inside-Post (ok a) t s e h = (rw (e.0) h, e.1)
  inside-Post (raised x) t s e h = (rw (e.0) h, e.1)
  inside-Post undefined t s e h = tt

-- The rest of the state satisfies `F`, before and after.
module _ {ℓ} {S T A : Type ℓ} {P E : S → Type ℓ} {Q : A → S → Type ℓ} where
  pub by_inside :
      (F : T → Type ℓ) (part : T → S) (put : T → S → T) (m : Exec S A)
      → ((t : T) (s : S) → F t → (part (put t s) ≡ s) × F (put t s))
      → Triple P m Q E
      → Triple
          (λ t. P (part t) × F t)
          (inside part put m)
          (λ a t. Q a (part t) × F t)
          (λ t. E (part t) × F t)
  by_inside F part put m e h = record {
    at = λ t p.
        let (r, s) = m (part t) in inside-Post E Q F part put r t s (e t s p.1) (h.at (part t) p.0);
  }

-- Undefined behaviour has no next state.
abbrev pub IsDefined {ℓ} : {A : Type ℓ} → Result A → Type 0
IsDefined undefined = ⊥
IsDefined _ = Unit

pub state_of_post {ℓ} :
    {S A : Type ℓ} (P : S → Type ℓ) (r : Result A) (s : S)
    → IsDefined r
    → Post (λ _. P) P (r, s)
    → P s
state_of_post P (ok a) s d h = h
state_of_post P (raised e) s d h = h
state_of_post P undefined s d h = absurd d

-- Nothing is claimed of the outcome.
pub any_outcome :
    {S A : Type 0} (m : Exec S A) → Triple (λ (s : S). Unit {0}) m (λ _ _. Unit {0}) (λ _. Unit {0})
any_outcome m = record { at = λ s h. let (x, t) = m s in by_state (λ _. Unit {0}) x t tt }
