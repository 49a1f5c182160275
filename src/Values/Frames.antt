-- ===== src/Values/Frames.antt =====
-- src/EnvironmentWatcher.cpp: data frames.
use rc2compute.Prelude.{ℕ, List, [], ◌∷◌, map, Bytes, lit, length, ltb, if◌then◌else◌}
use rc2compute.Effects.{Exec, pure, ◌>>=◌}
use rc2compute.Numbers.{pos}
use rc2compute.World.{World}
use rc2compute.Command.{JsonLib}
use rc2compute.Rcpp.{Rcpp, lglsxp, intsxp, realsxp, cplxsxp, strsxp}
use rc2compute.Values.{
  max_len, indices_from, min_of, at_index, is_ordered_factor, Members, put, pushed, texts, lift,
}

module _ {w : World} {js : JsonLib} (r : Rcpp w js) where
  open js use {J, null, string, number}
  open r use {
    Obj, real, sexp_type, is_factor, size, elt, attr, strings, int_data, real_data, coerce_strings,
  }

  -- `columnType`
  unfoldable pub column_type : Obj → Exec (World.W w) Bytes
  unfolding is_ordered_factor
  column_type o =
      if is_factor o
      then (do
        classes ← lift r (strings (attr o (lit "class")))
        pure (if is_ordered_factor classes then lit "of" else lit "f"))
      else pure (elim (sexp_type o) [
        | lglsxp ↦ lit "b"
        | intsxp ↦ lit "i"
        | realsxp ↦ lit "d"
        | strsxp ↦ lit "s"
        | _ ↦ lit "-"
      ])

  -- The columns, complex ones coerced to strings, and their types.
  unfoldable pub frame_column : Obj → ℕ → Obj
  frame_column o i = let e = elt o i in elim (sexp_type e) [ cplxsxp ↦ coerce_strings e | _ ↦ e ]

  unfoldable pub frame_types : List Obj → Exec (World.W w) (List J)
  unfolding column_type
  frame_types [] = pure []
  frame_types (o ∷ os) = do t ← column_type o; ts ← frame_types os; pure (string t ∷ ts)

  -- One cell. A column of strings gives its first string in every row.
  unfoldable pub frame_cell : ℕ → Obj → Exec (World.W w) J
  frame_cell row o = elim (sexp_type o) [
    | lglsxp ↦ (do xs ← lift r (int_data o); x ← lift r (at_index xs row); pure (number x))
    | intsxp ↦ (do xs ← lift r (int_data o); x ← lift r (at_index xs row); pure (number x))
    | realsxp ↦ (do xs ← lift r (real_data o); x ← lift r (at_index xs row); pure (real x))
    | strsxp ↦ (do xs ← lift r (strings o); x ← lift r (at_index xs 0); pure (string x))
    | _ ↦ pure null
  ]

  unfoldable pub frame_row : List Obj → ℕ → List ℕ → Exec (World.W w) (List J)
  unfolding frame_cell
  frame_row columns row [] = pure []
  frame_row columns row (col ∷ cols) = do
    o ← lift r (at_index columns col)
    cell ← frame_cell row o
    cells ← frame_row columns row cols
    pure (cell ∷ cells)

  unfoldable pub frame_rows : List Obj → List ℕ → List ℕ → Exec (World.W w) (List J)
  unfolding frame_row
  frame_rows columns cols [] = pure []
  frame_rows columns cols (row ∷ rows) = do
    cells ← frame_row columns row cols
    rest ← frame_rows columns cols rows
    pure (pushed r cells ∷ rest)

  unfoldable pub set_data_frame_data : Obj → Members r → Exec (World.W w) (Members r)
  unfolding put frame_column frame_types frame_rows
  set_data_frame_data o m = do
    names ← lift r (strings (attr o (lit "names")))
    let named = put r (lit "ncol") (number (pos (size o))) (put r (lit "cols") (texts r names) m)
    let row_list = attr o (lit "row.names")
    labelled ←
        (if ltb 0 (size row_list)
          then (do
            labels ← lift r (strings row_list)
            pure (put r (lit "row.names") (texts r labels) named))
          else pure named)
    let columns = map (frame_column o) (indices_from 0 (size o))
    types ← frame_types columns
    first ← lift r (at_index columns 0)
    rows ←
        frame_rows columns (indices_from 0 (length names))
          (indices_from 0 (min_of (size first) max_len))
    pure (
        put r (lit "rows") (pushed r rows) (
          put r (lit "nrow") (number (pos (size first)))
            (put r (lit "types") (pushed r types) labelled)))
