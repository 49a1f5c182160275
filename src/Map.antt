-- ===== src/Map.antt =====
-- `std::map` with integer keys, as the list of its entries in the order of iteration.
use rc2compute.Prelude.{
  ◌≡◌, refl, Bool, true, false, Option, Option-cases, inl, inr, none, some, List, [], ◌∷◌, arith,
  if◌then◌else◌,
}
use rc2compute.Numbers.{ℤ, eq_ℤ, lt_ℤ, eq_ℤ_iff}

abbrev pub Map {ℓ} : Type ℓ → Type ℓ
Map V = List (ℤ × V)

module _ {ℓ} {V : Type ℓ} where
  unfoldable pub find : ℤ → Map V → Option V
  find k [] = none
  find k ((j, v) ∷ m) = if eq_ℤ j k then some v else find k m

  -- `m[k] = v`
  unfoldable pub assign : ℤ → V → Map V → Map V
  assign k v [] = (k, v) ∷ []
  assign k v ((j, w) ∷ m) =
      if eq_ℤ j k
      then (k, v) ∷ m
      else if lt_ℤ k j
      then (k, v) ∷ (j, w) ∷ m
      else (j, w) ∷ assign k v m

  unfoldable pub erase : ℤ → Map V → Map V
  erase k [] = []
  erase k ((j, v) ∷ m) = let rest = erase k m in if eq_ℤ j k then rest else (j, v) ∷ rest

  -- `m.insert({k, v})` keeps an entry that is there.
  unfoldable pub insert : ℤ → V → Map V → Map V
  insert k v m = elim (find k m) [ some w ↦ m | none ↦ assign k v m ]

  -- `m.count(k) > 0`
  unfoldable pub has : ℤ → Map V → Bool
  has k m = elim (find k m) [ some v ↦ true | none ↦ false ]

module _ {ℓ} {V : Type ℓ} where
  pub find-assign :
      (j k : ℤ) (v : V) (m : Map V)
      → find j (assign k v m) ≡ (if eq_ℤ k j then some v else find j m)
  unfolding find assign
  find-assign j k v [] = refl
  find-assign j k v ((i, w) ∷ m) =
      ground (arith, find-assign j k v m, eq_ℤ_iff i k, eq_ℤ_iff k j, eq_ℤ_iff i j)

  pub find-erase :
      (j k : ℤ) (m : Map V) → find j (erase k m) ≡ (if eq_ℤ k j then none else find j m)
  unfolding find erase
  find-erase j k [] = ground arith
  find-erase j k ((i, w) ∷ m) =
      ground (arith, find-erase j k m, eq_ℤ_iff i k, eq_ℤ_iff k j, eq_ℤ_iff i j)

  -- An entry that is there wins over the new one.
  pub find-insert_kept :
      (j k : ℤ) (v : V) (m : Map V)
      → find j (insert k v m)
        ≡ (if has k m then find j m else if eq_ℤ k j then some v else find j m)
  unfolding insert has
  find-insert_kept j k v m = elim (Option-cases (find k m)) [
    | inl h ↦ rw (h, has, insert) (find-assign j k v m)
    | inr (u, h) ↦ rw (h, has, insert) refl
  ]

  pub find-insert :
      (j k : ℤ) (v : V) (m : Map V)
      → find k m ≡ none
      → find j (insert k v m) ≡ (if eq_ℤ k j then some v else find j m)
  unfolding insert
  find-insert j k v m h = ground (arith, find-assign j k v m)

pub eq_ℤ_refl : (k : ℤ) → eq_ℤ k k ≡ true
eq_ℤ_refl k = (eq_ℤ_iff k k).1 refl

pub ruleset map_laws = (find-assign, find-erase, eq_ℤ_refl)
