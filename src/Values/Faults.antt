-- ===== src/Values/Faults.antt =====
-- src/EnvironmentWatcher.cpp: values of which `valueToJson` makes a wrong document, or none.
use rc2compute.Prelude.{
  ℕ, zero, suc, ◌+◌, ◌≤◌, ◌<◌, ◌≡◌, refl, fun_ext, Bool, true, false, inl, inr, Bool-cases, List,
  [], ◌∷◌, arith, Bytes, lit, ltb,
}
use rc2compute.Effects.{Exec, Result, ok, raised, undefined, crash, continue, ◌>>=◌}
use rc2compute.Effects.Hoare.{Post, Triple, by_bind, any_outcome}
use rc2compute.World.{World}
use rc2compute.Command.{JsonLib}
use rc2compute.Rcpp.{Rcpp, envsxp, strsxp}
use rc2compute.Values.{indices_from, at_index, Members, put}
use rc2compute.Values.Frames.{frame_cell, frame_row}
use rc2compute.Values.Primitives.{dim_names, set_dim_names, set_primitive_data}
use rc2compute.Values.Documents.{
  Call, environment_children, set_environment_data, switch, value_body, value_to_json,
}

continue_ext :
    {S A B : Type 0} (x : Result A) (f g : A → Exec S B) (s : S)
    → ((a : A) → x ≡ ok a → f a ≡ g a)
    → continue x f s ≡ continue x g s
continue_ext (ok a) f g s h = rw (h a refl) refl
continue_ext (raised e) f g s h = refl
continue_ext undefined f g s h = refl

module _ {w : World} {js : JsonLib} (r : Rcpp w js) where
  open js use {string}
  open r use {Obj, sexp_type, is_object, is_array, has_attribute, attr, size, ls, get}

  -- The end of the stack: the process crashes.
  abbrev pub stack_end : Call r
  stack_end name o include m = crash

  -- An environment without a class, so that R does not count it as an object, whose first variable is in every
  -- state of R the environment itself: `valueToJson` takes all room on the stack, however much there is, and
  -- never returns.
  pub value_to_json-endless :
      (o : Obj) (first : Bytes) (others : World.W w → List Bytes)
      → is_object o ≡ false
      → sexp_type o ≡ envsxp
      → ((d : World.W w) → ls d o ≡ first ∷ others d)
      → ((d : World.W w) → get d o first ≡ o)
      → (n : ℕ) (name : Bytes) (include : Bool) (m : Members r) (d : World.W w)
      → (value_to_json r stack_end n name o include m d).0 ≡ undefined
  unfolding value_to_json crash value_body switch set_environment_data environment_children ◌>>=◌
  value_to_json-endless o first others plain is_env has_first is_self zero name include m d = refl
  value_to_json-endless o first others plain is_env has_first is_self (suc n) name include m d =
      let deeper = value_to_json-endless o first others plain is_env has_first is_self n in
      rw
        (
          plain,
          is_env,
          has_first d,
          is_self d,
          deeper first true (put r (lit "name") (string first) []) d,
        )
        refl

  -- Every column has strings.
  abbrev pub AllStrings : List Obj → Type 0
  AllStrings [] = Unit {0}
  AllStrings (o ∷ os) = (sexp_type o ≡ strsxp) × AllStrings os

  at_index-strings :
      (columns : List Obj) (col : ℕ) (o : Obj)
      → AllStrings columns
      → at_index columns col ≡ ok o
      → sexp_type o ≡ strsxp
  at_index-strings [] col o h e = cc
  at_index-strings (c ∷ cs) zero o h e = cc h.0
  at_index-strings (c ∷ cs) (suc col) o h e = at_index-strings cs col o h.1 e

  frame_cell-strings :
      (o : Obj) (row row' : ℕ) → sexp_type o ≡ strsxp → frame_cell r row o ≡ frame_cell r row' o
  unfolding frame_cell
  frame_cell-strings o row row' h = rw (h, frame_cell) refl

  -- In a data frame with strings in every column, all rows have the same cells.
  pub frame_row-strings :
      (columns : List Obj) (cols : List ℕ) (row row' : ℕ)
      → AllStrings columns
      → frame_row r columns row cols ≡ frame_row r columns row' cols
  unfolding frame_row ◌>>=◌
  frame_row-strings columns [] row row' h = refl
  frame_row-strings columns (col ∷ cols) row row' h = fun_ext λ d.
      continue_ext (at_index columns col) _ _ d λ o e.
        rw
          (
            frame_cell-strings o row row' (at_index-strings columns col o h e),
            frame_row-strings columns cols row row' h,
          )
          refl

  -- A loop over the names of dimensions that runs past their end never returns.
  dim_names-overrun :
      (names : Obj) (i n : ℕ)
      → i ≤ size names
      → size names < i + n
      → Triple
          (λ (d : World.W w). Unit {0})
          (dim_names r names (indices_from i n))
          (λ _ _. ⊥)
          (λ _. Unit {0})
  unfolding dim_names
  dim_names-overrun names i zero h k = absurd (omega arith)
  dim_names-overrun names i (suc n) h k = elim (Bool-cases (ltb i (size names))) [
    | inl inside ↦ by_bind _ _ (any_outcome _) λ cl. by_bind _ _ (any_outcome _) λ j.
        by_bind _ _ (dim_names-overrun names (i + 1) n (ground (arith, inside)) (omega arith))
          λ js'. record { at = λ d f. absurd f }
    | inr outside ↦ rw outside (
        by_bind {Q = λ _ _. ⊥} _ _ (record { at = λ d f. tt })
          (λ cl. record { at = λ d f. absurd f }))
  ]

  set_dim_names-overrun :
      (o : Obj) (m : Members r)
      → has_attribute o (lit "dimnames") ≡ true
      → size (attr o (lit "dimnames")) < size o
      → Triple (λ (d : World.W w). Unit {0}) (set_dim_names r o m) (λ _ _. ⊥) (λ _. Unit {0})
  unfolding set_dim_names
  set_dim_names-overrun o m named short = by_bind _ _ (any_outcome _) λ dims.
      by_bind _ _ (any_outcome _) λ rows. by_bind _ _ (any_outcome _) λ cols.
        by_bind _ _ (any_outcome _) λ more. rw named (
          by_bind _ _
            (dim_names-overrun (attr o (lit "dimnames")) 0 (size o) (omega arith) (omega arith))
            λ names. record { at = λ d f. absurd f })

  -- A matrix or an array that has names for its dimensions and more elements than dimensions: the loop
  -- over those names ends at the number of elements, so no document is returned for the value.
  pub set_primitive_data-overrun :
      (o : Obj) (m : Members r) (d : World.W w)
      → is_array o ≡ true
      → has_attribute o (lit "dimnames") ≡ true
      → size (attr o (lit "dimnames")) < size o
      → Post (λ _ _. ⊥) (λ _. Unit {0}) (set_primitive_data r o m d)
  unfolding set_primitive_data
  set_primitive_data-overrun o m d is_array' named short =
      (by_bind _ _ (any_outcome _) (λ (typed, not_vector). rw is_array' (
          by_bind _ _ (set_dim_names-overrun o _ named short)
            λ names. record { at = λ d f. absurd f }))).at
        d tt
