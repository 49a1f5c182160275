-- ===== src/Environment/Order.antt =====
-- `std::string::operator<`, `std::sort` and `std::set_difference`, as src/EnvironmentWatcher.cpp uses them.
use rc2compute.Prelude.{
  ◌≡◌, refl, Bool, true, false, ◌&&◌, ◌||◌, List, [], ◌∷◌, ◌⊎◌, inl, inr, arith, Bytes, same, ltb,
  ◌==◌, if◌then◌else◌, Bool-cases, same_iff,
}

-- The order of bytes, from the first on.
unfoldable pub lt_text : Bytes → Bytes → Bool
lt_text [] [] = false
lt_text [] (y ∷ ys) = true
lt_text (x ∷ xs) [] = false
lt_text (x ∷ xs) (y ∷ ys) = ltb x y || (x == y && lt_text xs ys)

-- The laws of a comparison of the standard library: a strict weak order.
pub record IsOrder {ℓ} {A : Type ℓ} (lt : A → A → Bool) : Type ℓ where
  pub irreflexive : (a : A) → lt a a ≡ false
  pub transitive : (a b c : A) → lt a b ≡ true → lt b c ≡ true → lt a c ≡ true
  pub between : (a b c : A) → lt a c ≡ true → (lt a b ≡ true) ⊎ (lt b c ≡ true)

lt_text_self : (a : Bytes) → lt_text a a ≡ false
unfolding lt_text
lt_text_self [] = refl
lt_text_self (x ∷ a) = ground (arith, lt_text_self a)

lt_text_trans : (a b c : Bytes) → lt_text a b ≡ true → lt_text b c ≡ true → lt_text a c ≡ true
unfolding lt_text
lt_text_trans [] [] c h k = ground arith
lt_text_trans [] (y ∷ b) [] h k = ground arith
lt_text_trans [] (y ∷ b) (z ∷ c) h k = refl
lt_text_trans (x ∷ a) [] c h k = ground arith
lt_text_trans (x ∷ a) (y ∷ b) [] h k = ground arith
lt_text_trans (x ∷ a) (y ∷ b) (z ∷ c) h k = ground (arith, lt_text_trans a b c)

-- Of two different texts one comes first.
pub lt_text-total : (a b : Bytes) → lt_text a b ≡ false → lt_text b a ≡ false → same a b ≡ true
unfolding lt_text same
lt_text-total [] [] h k = refl
lt_text-total [] (y ∷ b) h k = ground arith
lt_text-total (x ∷ a) [] h k = ground arith
lt_text-total (x ∷ a) (y ∷ b) h k = ground (arith, lt_text-total a b)

lt_text-between : (a b c : Bytes) → lt_text a c ≡ true → (lt_text a b ≡ true) ⊎ (lt_text b c ≡ true)
lt_text-between a b c h = elim (Bool-cases (lt_text a b)) [
  | inl before ↦ inl before
  | inr here ↦ elim (Bool-cases (lt_text b a)) [
    | inl after ↦ inr (lt_text_trans b a c after h)
    | inr both ↦ inr (rw (← (same_iff a b).0 (lt_text-total a b here both)) h)
  ]
]

pub lt_text-IsOrder : IsOrder lt_text
lt_text-IsOrder = record {
  irreflexive = lt_text_self;
  transitive = lt_text_trans;
  between = lt_text-between;
}

module _ {ℓ} {A : Type ℓ} (lt : A → A → Bool) where
  -- `std::sort`. It may order equivalent elements in another way; here no two are equivalent.
  unfoldable pub insert_sorted : A → List A → List A
  insert_sorted v [] = v ∷ []
  insert_sorted v (x ∷ xs) = if lt x v then x ∷ insert_sorted v xs else v ∷ x ∷ xs

  unfoldable pub sort : List A → List A
  unfolding insert_sorted
  sort [] = []
  sort (x ∷ xs) = insert_sorted x (sort xs)

  -- `std::set_difference`
  unfoldable pub set_difference : List A → List A → List A
  set_difference [] ys = []
  set_difference (x ∷ xs) [] = x ∷ xs
  set_difference (x ∷ xs) (y ∷ ys) = elim (lt x y) [
    | true ↦ x ∷ set_difference xs (y ∷ ys)
    | false ↦ elim (lt y x) [ true ↦ set_difference (x ∷ xs) ys | false ↦ set_difference xs ys ]
  ]
