-- ===== src/Values/Primitives.antt =====
-- src/EnvironmentWatcher.cpp: vectors, matrices and arrays.
use rc2compute.Prelude.{
  ℕ, Bool, true, false, List, [], ◌∷◌, map, Bytes, lit, length, ltb, if◌then◌else◌,
}
use rc2compute.Effects.{ok, undefined, Exec, pure, ◌>>=◌}
use rc2compute.Numbers.{pos, eq_ℤ}
use rc2compute.World.{World}
use rc2compute.Command.{JsonLib}
use rc2compute.Rcpp.{Rcpp, nilsxp, lglsxp, intsxp, realsxp, cplxsxp, strsxp, rawsxp}
use rc2compute.Values.{
  indices_from, at_index, Members, put, pushed, texts, lift, rvector_to_json, or_null,
}

module _ {w : World} {js : JsonLib} (r : Rcpp w js) where
  open js use {J, string, number, boolean, array}
  open r use {
    Obj, Real, eq_real, r_nan, r_pos_inf, r_neg_inf, real, sexp_type, is_array, is_matrix, size,
    elt, attr, has_attribute, strings, integers, logicals, reals,
  }

  -- `setDimNames`: the loop over the names of the dimensions ends at the length of the object.
  unfoldable pub dim_names : Obj → List ℕ → Exec (World.W w) (List J)
  dim_names names [] = pure []
  dim_names names (i ∷ is) = do
    cl ← lift r (if ltb i (size names) then ok (elt names i) else undefined)
    j ← rvector_to_json r cl
    js' ← dim_names names is
    pure (or_null r j ∷ js')

  unfoldable pub set_dim_names : Obj → Members r → Exec (World.W w) (Members r)
  unfolding dim_names put
  set_dim_names o m = do
    dims ← lift r (integers (attr o (lit "dim")))
    rows ← lift r (at_index dims 0)
    cols ← lift r (at_index dims 1)
    let sized = put r (lit "ncol") (number cols) (put r (lit "nrow") (number rows) m)
    more ←
        (if ltb 2 (length dims)
          then (do all ← rvector_to_json r o; pure (put r (lit "dims") (or_null r all) sized))
          else pure sized)
    if has_attribute o (lit "dimnames")
        then (do
          names ← dim_names (attr o (lit "dimnames")) (indices_from 0 (size o))
          pure (put r (lit "dimnames") (pushed r names) more))
        else pure more

  -- A number of the vector: what is not finite is a string, if its test succeeds.
  unfoldable pub real_json : Real → J
  real_json d =
      if eq_real d r_nan
      then string (lit "NaN")
      else if eq_real d r_pos_inf
      then string (lit "Inf")
      else if eq_real d r_neg_inf
      then string (lit "-Inf")
      else real d

  -- The class, the letter of the type and the value of a vector.
  abbrev vector_members : Bytes → Bytes → J → Members r → Members r
  vector_members klass letter v m =
      put r (lit "value") v
        (put r (lit "type") (string letter) (put r (lit "class") (string klass) m))

  -- The switch of `setPrimitiveData`, with the value of `notVector`.
  unfoldable pub primitive_members : Obj → Members r → Exec (World.W w) (Members r × Bool)
  unfolding put real_json
  primitive_members o m = elim (sexp_type o) [
    | nilsxp ↦
        pure (
          put r (lit "type") (string (lit "n")) (put r (lit "class") (string (lit "NULL")) m),
          true,
        )
    | lglsxp ↦ (do
      xs ← lift r (logicals o)
      pure (
        vector_members (lit "logical") (lit "b")
            (array (map (λ x. boolean (if eq_ℤ x (pos 0) then false else true)) xs)) m,
        false,
      ))
    | intsxp ↦ (do
      xs ← lift r (integers o)
      pure (vector_members (lit "integer vector") (lit "i") (array (map number xs)) m, false))
    | realsxp ↦ (do
      xs ← lift r (reals o)
      pure (vector_members (lit "numeric vector") (lit "d") (pushed r (map real_json xs)) m, false))
    | strsxp ↦ (do
      xs ← lift r (strings o)
      pure (vector_members (lit "string") (lit "s") (texts r xs) m, false))
    | cplxsxp ↦ (do
      xs ← lift r (strings o)
      pure (vector_members (lit "complex") (lit "c") (texts r xs) m, false))
    | rawsxp ↦
        pure (
          put r (lit "type") (string (lit "r")) (put r (lit "class") (string (lit "raw")) m),
          false,
        )
    | _ ↦ pure (
      put r (lit "primitive") (boolean false)
          (put r (lit "class") (string (lit "unsupported type")) m),
      true,
    )
  ]

  unfoldable pub set_primitive_data : Obj → Members r → Exec (World.W w) (Members r)
  unfolding put primitive_members set_dim_names
  set_primitive_data o m = do
    (typed, not_vector) ← primitive_members o (put r (lit "primitive") (boolean true) m)
    let sized =
        if not_vector
        then put r (lit "notAVector") (boolean true) typed
        else put r (lit "length") (number (pos (size o))) typed
    if is_array o
        then (do
          named ← set_dim_names o (put r (lit "primitive") (boolean false) sized)
          pure (
              put r (lit "class") (string (if is_matrix o then lit "matrix" else lit "array"))
                named))
        else pure sized
