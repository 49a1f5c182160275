-- ===== src/Environment/Sorted.antt =====
-- src/EnvironmentWatcher.cpp: what the sorts and the differences of `jsonDelta` compute.
use rc2compute.Prelude.{
  ◌≡◌, refl, sym, ap, ◌∙◌, Bool, true, false, not, ◌&&◌, ◌||◌, List, [], ◌∷◌, inl, inr, arith,
  if◌then◌else◌, Bool-cases,
}
use rc2compute.Environment.Order.{IsOrder, insert_sorted, sort, set_difference}

module _ {ℓ} {A : Type ℓ} (lt : A → A → Bool) where
  -- `x` comes before every element.
  abbrev pub IsBefore : A → List A → Type 0
  IsBefore x [] = Unit {0}
  IsBefore x (y ∷ ys) = (lt x y ≡ true) × IsBefore x ys

  abbrev pub IsAscending : List A → Type 0
  IsAscending [] = Unit {0}
  IsAscending (x ∷ xs) = IsBefore x xs × IsAscending xs

  -- Some element is equivalent to `x`.
  unfoldable pub meets : A → List A → Bool
  meets x [] = false
  meets x (y ∷ ys) = (not (lt x y) && not (lt y x)) || meets x ys

  -- The elements that have no equivalent in the other list.
  unfoldable pub without : List A → List A → List A
  unfolding meets
  without [] ys = []
  without (x ∷ xs) ys = let rest = without xs ys in if meets x ys then rest else x ∷ rest

  -- No element is smaller than the one before.
  abbrev pub IsOrdered : List A → Type 0
  IsOrdered [] = Unit {0}
  IsOrdered (x ∷ []) = Unit {0}
  IsOrdered (x ∷ y ∷ ys) = (lt y x ≡ false) × IsOrdered (y ∷ ys)

module _ {ℓ} {A : Type ℓ} {lt : A → A → Bool} (o : IsOrder lt) where
  pub IsBefore-trans : (x y : A) (zs : List A) → lt x y ≡ true → IsBefore lt y zs → IsBefore lt x zs
  IsBefore-trans x y [] h k = tt
  IsBefore-trans x y (z ∷ zs) h k = (o.transitive x y z h k.0, IsBefore-trans x y zs h k.1)

  -- An element that is equivalent to the first comes before the others, too.
  IsBefore-same : (x y : A) (zs : List A) → lt x y ≡ false → IsBefore lt x zs → IsBefore lt y zs
  IsBefore-same x y [] h k = tt
  IsBefore-same x y (z ∷ zs) h k = elim (o.between x y z k.0) [
    | inl e ↦ absurd (ground (arith, e))
    | inr e ↦ (e, IsBefore-same x y zs h k.1)
  ]

  asymmetric : (x y : A) → lt x y ≡ true → lt y x ≡ false
  asymmetric x y h = elim (Bool-cases (lt y x)) [
    | inl back ↦ absurd (ground (arith, o.transitive x y x h back, o.irreflexive x))
    | inr no_back ↦ no_back
  ]

  meets-before : (x : A) (ys : List A) → IsBefore lt x ys → meets lt x ys ≡ false
  unfolding meets
  meets-before x [] h = refl
  meets-before x (y ∷ ys) h = ground (arith, meets-before x ys)

  without-skip :
      (y : A) (zs ys : List A) → IsBefore lt y zs → without lt zs (y ∷ ys) ≡ without lt zs ys
  unfolding without
  without-skip y [] ys h = refl
  without-skip y (z ∷ zs) ys h = ground (arith, without-skip y zs ys, asymmetric y z)

  without-nil : (xs : List A) → without lt xs [] ≡ xs
  unfolding without
  without-nil [] = refl
  without-nil (x ∷ xs) = ap (λ t. x ∷ t) (without-nil xs)

  -- `set_difference` of two ascending lists keeps the elements with no equivalent.
  pub set_difference-without :
      (xs ys : List A)
      → IsAscending lt xs
      → IsAscending lt ys
      → set_difference lt xs ys ≡ without lt xs ys
  unfolding set_difference without meets
  set_difference-without [] ys hx hy = refl
  set_difference-without (x ∷ xs) [] hx hy = ap (λ t. x ∷ t) (sym (without-nil xs))
  set_difference-without (x ∷ xs) (y ∷ ys) hx hy = elim (Bool-cases (lt x y)) [
    | inl before ↦ ground (
      arith,
      set_difference-without xs (y ∷ ys) hx.1 hy,
      meets-before x ys (IsBefore-trans x y ys before hy.0),
    )
    | inr not_before ↦ elim (Bool-cases (lt y x)) [
      | inl after ↦ ground (
        arith,
        set_difference-without (x ∷ xs) ys hx hy.1,
        without-skip y xs ys (IsBefore-trans y x xs after hx.0),
      )
      | inr both ↦ ground (
        arith,
        set_difference-without xs ys hx.1 hy.1,
        without-skip y xs ys (IsBefore-same x y xs not_before hx.0),
      )
    ]
  ]

  insert_sorted-first :
      (x : A) (xs : List A) → IsOrdered lt (x ∷ xs) → insert_sorted lt x xs ≡ x ∷ xs
  unfolding insert_sorted
  insert_sorted-first x [] h = refl
  insert_sorted-first x (y ∷ ys) h = rw h.0

  pub sort-fixed : (xs : List A) → IsOrdered lt xs → sort lt xs ≡ xs
  unfolding sort
  sort-fixed [] h = refl
  sort-fixed (x ∷ []) h = insert_sorted-first x [] tt
  sort-fixed (x ∷ y ∷ ys) h =
      ap (insert_sorted lt x) (sort-fixed (y ∷ ys) h.1) ∙ insert_sorted-first x (y ∷ ys) h

  insert_sorted-IsOrdered :
      (v : A) (xs : List A) → IsOrdered lt xs → IsOrdered lt (insert_sorted lt v xs)
  unfolding insert_sorted
  insert_sorted-IsOrdered v [] h = tt
  insert_sorted-IsOrdered v (x ∷ []) h = ground (arith, asymmetric x v)
  insert_sorted-IsOrdered v (x ∷ y ∷ ys) h =
      ground (arith, insert_sorted-IsOrdered v (y ∷ ys), asymmetric x v)

  pub sort-IsOrdered : (xs : List A) → IsOrdered lt (sort lt xs)
  unfolding sort
  sort-IsOrdered [] = tt
  sort-IsOrdered (x ∷ xs) = insert_sorted-IsOrdered x (sort lt xs) (sort-IsOrdered xs)

  -- Nothing is left of a list without itself.
  pub set_difference_self : (xs : List A) → set_difference lt xs xs ≡ []
  unfolding set_difference
  set_difference_self [] = refl
  set_difference_self (x ∷ xs) = ground (arith, o.irreflexive x, set_difference_self xs)
