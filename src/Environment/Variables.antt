-- ===== src/Environment/Variables.antt =====
-- src/EnvironmentWatcher.cpp: which variables are in the sorted lists and in their differences.
use rc2compute.Prelude.{
  ◌≡◌, refl, ap, ◌∙◌, Bool, true, false, not, ◌&&◌, ◌||◌, List, [], ◌∷◌, inl, inr, ◌⊎◌, arith,
  Bytes, same, ◌==◌, Bool-cases, same_iff, same_refl,
}
use rc2compute.World.{World}
use rc2compute.Command.{JsonLib}
use rc2compute.Rcpp.{Rcpp}
use rc2compute.Environment.{Variable, by_name, by_pair}
use rc2compute.Environment.Order.{
  lt_text, lt_text-total, lt_text-IsOrder, IsOrder, insert_sorted, sort,
}
use rc2compute.Environment.Sorted.{IsBefore, IsBefore-trans, IsAscending, meets, without}

module _ {ℓ} {A : Type ℓ} where
  abbrev pub any : (A → Bool) → List A → Bool
  any p [] = false
  any p (x ∷ xs) = p x || any p xs

  any-insert_sorted :
      (lt : A → A → Bool) (p : A → Bool) (v : A) (xs : List A)
      → any p (insert_sorted lt v xs) ≡ p v || any p xs
  unfolding insert_sorted
  any-insert_sorted lt p v [] = refl
  any-insert_sorted lt p v (x ∷ xs) = ground (arith, any-insert_sorted lt p v xs)

  pub any-sort : (lt : A → A → Bool) (p : A → Bool) (xs : List A) → any p (sort lt xs) ≡ any p xs
  unfolding sort
  any-sort lt p [] = refl
  any-sort lt p (x ∷ xs) =
      any-insert_sorted lt p x (sort lt xs) ∙ ap (λ b. p x || b) (any-sort lt p xs)

  -- What has the property is kept where nothing with the property is in the other list.
  pub any-without :
      (lt : A → A → Bool) (p : A → Bool) (xs ys : List A)
      → ((x : A) → p x ≡ true → meets lt x ys ≡ any p ys)
      → any p (without lt xs ys) ≡ any p xs && not (any p ys)
  unfolding without
  any-without lt p [] ys h = refl
  any-without lt p (x ∷ xs) ys h = elim (Bool-cases (p x)) [
    | inl here ↦ ground (arith, any-without lt p xs ys h, h x here)
    | inr not_here ↦ ground (arith, any-without lt p xs ys h)
  ]

same-sym : (a b : Bytes) → same a b ≡ same b a
unfolding same
same-sym [] [] = refl
same-sym [] (y ∷ b) = refl
same-sym (x ∷ a) [] = refl
same-sym (x ∷ a) (y ∷ b) = ground (arith, same-sym a b)

-- Two texts are equivalent in their order exactly if they are the same.
equivalent_texts : (a b : Bytes) → not (lt_text a b) && not (lt_text b a) ≡ same b a
equivalent_texts a b = elim (Bool-cases (same b a)) [
  | inl e ↦ rw ((same_iff b a).0 e, lt_text-IsOrder.irreflexive a, same_refl a)
  | inr e ↦ ground (arith, e, lt_text-total a b, same-sym a b)
]

module _ {w : World} {js : JsonLib} (r : Rcpp w js) where
  open r use {address}

  abbrev pub has_name : Bytes → List (Variable r) → Bool
  has_name name = any (λ v. same v.0 name)

  -- A variable with the same name and the same handle.
  abbrev pub same_variable : Variable r → Variable r → Bool
  same_variable v u = same u.0 v.0 && address u.1 == address v.1

  abbrev pub has_variable : Variable r → List (Variable r) → Bool
  has_variable v = any (same_variable v)

  -- No name stands twice.
  abbrev pub IsDistinct : List (Variable r) → Type 0
  IsDistinct [] = Unit {0}
  IsDistinct (v ∷ vs) = (has_name v.0 vs ≡ false) × IsDistinct vs

  pub by_name-IsOrder : IsOrder (by_name r)
  by_name-IsOrder = record {
    irreflexive = λ a. lt_text-IsOrder.irreflexive a.0;
    transitive = λ a b c. lt_text-IsOrder.transitive a.0 b.0 c.0;
    between = λ a b c. lt_text-IsOrder.between a.0 b.0 c.0;
  }

  by_pair_trans :
      (a b c : Variable r) → by_pair r a b ≡ true → by_pair r b c ≡ true → by_pair r a c ≡ true
  by_pair_trans a b c h k = ground (
    arith,
    lt_text-IsOrder.transitive a.0 b.0 c.0,
    lt_text-IsOrder.between a.0 c.0 b.0,
    lt_text-IsOrder.between b.0 a.0 c.0,
    lt_text-IsOrder.between c.0 b.0 a.0,
  )

  by_pair-between :
      (a b c : Variable r) → by_pair r a c ≡ true → (by_pair r a b ≡ true) ⊎ (by_pair r b c ≡ true)
  by_pair-between a b c h = elim (Bool-cases (by_pair r a b)) [
    | inl before ↦ inl before
    | inr here ↦ inr (
        ground (
          arith,
          here,
          lt_text-IsOrder.between a.0 b.0 c.0,
          lt_text-IsOrder.between b.0 c.0 a.0,
          lt_text-IsOrder.between c.0 a.0 b.0,
        ))
  ]

  pub by_pair-IsOrder : IsOrder (by_pair r)
  by_pair-IsOrder = record {
    irreflexive = λ a. ground (arith, lt_text-IsOrder.irreflexive a.0);
    transitive = by_pair_trans;
    between = by_pair-between;
  }

  pub meets-name :
      (name : Bytes) (x : Variable r) (ys : List (Variable r))
      → same x.0 name ≡ true
      → meets (by_name r) x ys ≡ has_name name ys
  unfolding meets
  meets-name name x [] h = refl
  meets-name name x (y ∷ ys) h =
      ground (arith, equivalent_texts x.0 y.0, (same_iff x.0 name).0 h, meets-name name x ys h)

  pub meets-variable :
      (v x : Variable r) (ys : List (Variable r))
      → same_variable v x ≡ true
      → meets (by_pair r) x ys ≡ has_variable v ys
  unfolding meets
  meets-variable v x [] h = refl
  meets-variable v x (y ∷ ys) h =
      ground (arith, equivalent_texts x.0 y.0, (same_iff x.0 v.0).0, meets-variable v x ys h)

  insert_sorted-IsBefore :
      (x v : Variable r) (xs : List (Variable r))
      → by_name r x v ≡ true
      → IsBefore (by_name r) x xs
      → IsBefore (by_name r) x (insert_sorted (by_name r) v xs)
  unfolding insert_sorted
  insert_sorted-IsBefore x v [] h k = (h, tt)
  insert_sorted-IsBefore x v (y ∷ ys) h k = ground (arith, insert_sorted-IsBefore x v ys h)

  insert_sorted-IsAscending :
      (v : Variable r) (xs : List (Variable r))
      → IsAscending (by_name r) xs
      → has_name v.0 xs ≡ false
      → IsAscending (by_name r) (insert_sorted (by_name r) v xs)
  unfolding insert_sorted
  insert_sorted-IsAscending v [] h k = (tt, tt)
  insert_sorted-IsAscending v (x ∷ xs) h k = elim (Bool-cases (by_name r x v)) [
    | inl after ↦ rw after (
      insert_sorted-IsBefore x v xs after h.0,
      insert_sorted-IsAscending v xs h.1 (ground (arith, k)),
    )
    | inr not_after ↦
        let before : by_name r v x ≡ true = ground (arith, k, not_after, lt_text-total x.0 v.0) in
        rw not_after ((before, IsBefore-trans by_name-IsOrder v x xs before h.0), h)
  ]

  pub sort-IsAscending :
      (vs : List (Variable r)) → IsDistinct vs → IsAscending (by_name r) (sort (by_name r) vs)
  unfolding sort
  sort-IsAscending [] h = tt
  sort-IsAscending (v ∷ vs) h =
      insert_sorted-IsAscending v (sort (by_name r) vs) (sort-IsAscending vs h.1)
        (any-sort (by_name r) (λ u. same u.0 v.0) vs ∙ h.0)

  IsBefore-pairs :
      (v : Variable r) (vs : List (Variable r))
      → IsBefore (by_name r) v vs
      → IsBefore (by_pair r) v vs
  IsBefore-pairs v [] h = tt
  IsBefore-pairs v (u ∷ vs) h = (ground (arith, h.0), IsBefore-pairs v vs h.1)

  pub IsAscending-pairs :
      (vs : List (Variable r)) → IsAscending (by_name r) vs → IsAscending (by_pair r) vs
  IsAscending-pairs [] h = tt
  IsAscending-pairs (v ∷ vs) h = (IsBefore-pairs v vs h.0, IsAscending-pairs vs h.1)

  has_name-before :
      (v : Variable r) (vs : List (Variable r))
      → IsBefore (by_name r) v vs
      → has_name v.0 vs ≡ false
  has_name-before v [] h = refl
  has_name-before v (u ∷ vs) h =
      ground (arith, has_name-before v vs, same_iff u.0 v.0, lt_text-IsOrder.irreflexive v.0, h.0)

  ascending-IsDistinct : (vs : List (Variable r)) → IsAscending (by_name r) vs → IsDistinct vs
  ascending-IsDistinct [] h = tt
  ascending-IsDistinct (v ∷ vs) h = (has_name-before v vs h.0, ascending-IsDistinct vs h.1)

  pub sort-IsDistinct : (vs : List (Variable r)) → IsDistinct vs → IsDistinct (sort (by_name r) vs)
  sort-IsDistinct vs h = ascending-IsDistinct _ (sort-IsAscending vs h)
