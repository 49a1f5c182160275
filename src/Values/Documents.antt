-- ===== src/Values/Documents.antt =====
-- src/EnvironmentWatcher.cpp: `valueToJson` and the values that hold others.
use rc2compute.Prelude.{
  ℕ, zero, suc, Bool, true, false, Option, List, [], ◌∷◌, ◌++◌, map, Bytes, lit, same, length,
  if◌then◌else◌, take,
}
use rc2compute.Effects.{try_catch, any_exception, Exec, pure, ◌>>=◌}
use rc2compute.Numbers.{pos}
use rc2compute.World.{World}
use rc2compute.Command.{JsonLib}
use rc2compute.Rcpp.{Rcpp, SexpType, closxp, envsxp, specialsxp, builtinsxp, vecsxp}
use rc2compute.Values.Frames.{set_data_frame_data}
use rc2compute.Values.Primitives.{set_primitive_data}
use rc2compute.Values.{
  max_len, indices_from, min_of, at_index, date_text, is_ordered_factor, Members, put, document,
  pushed, texts, lift, now, rvector_to_json, or_null, name_at, add_summary,
}

module _ {w : World} {js : JsonLib} (r : Rcpp w js) where
  open js use {J, string, number, boolean, array}
  open r use {
    Obj, real, sexp_type, is_object, is_s4, is_factor, size, elt, attr, attribute_names, strings,
    integers, real_data, date, timestamp, ls, get, define_function,
  }

  -- Every line with a line end.
  unfoldable pub body_text : List Bytes → Bytes
  body_text [] = []
  body_text (l ∷ ls') = l ++ 10 ∷ body_text ls'

  -- `setFunctionData`: what is thrown is only logged.
  unfoldable pub set_function_data : Obj → Members r → Exec (World.W w) (Members r)
  unfolding put body_text
  set_function_data o m =
      let started = put r (lit "primitive") (boolean false) (
        put r (lit "notAVector") (boolean true)
          (put r (lit "class") (string (lit "function")) m)) in
      try_catch
        (do
          val ← (λ d. define_function d o)
          lines ← lift r (strings val)
          pure (put r (lit "body") (string (body_text lines)) started))
        any_exception (λ e. pure started)

  unfoldable pub set_factor_data : Obj → Members r → Exec (World.W w) (Members r)
  unfolding put
  set_factor_data o m = do
    levels ← lift r (strings (attr o (lit "levels")))
    codes ← lift r (integers o)
    pure (
        put r (lit "value") (array (map number codes))
          (put r (lit "levels") (texts r levels) (put r (lit "type") (string (lit "f")) m)))

  -- `valueToJson`, as its callers use it: the name, the object, whether to include the elements of a list,
  -- and the members that the document has.
  abbrev pub Call : Type 0
  Call = Bytes → Obj → Bool → Members r → Exec (World.W w) (Members r)

  unfoldable pub list_children : Call → Obj → Option (List J) → List ℕ → Exec (World.W w) (List J)
  unfolding put
  list_children call o names [] = pure []
  list_children call o names (i ∷ is) = do
    child ← call [] (elt o i) false []
    rest ← list_children call o names is
    pure (document r (put r (lit "name") (name_at r names i) child) ∷ rest)

  unfoldable pub set_list_data : Call → Obj → Bool → Members r → Exec (World.W w) (Members r)
  unfolding put list_children
  set_list_data call o include m = do
    names ← rvector_to_json r (attr o (lit "names"))
    let listed =
        put r (lit "length") (number (pos (size o)))
          (put r (lit "names") (or_null r names) (put r (lit "class") (string (lit "list")) m))
    if include
        then (do
          children ← list_children call o names (indices_from 0 (min_of (size o) max_len))
          pure (put r (lit "value") (pushed r children) listed))
        else pure listed

  -- The attributes but the class, their names and their values.
  unfoldable pub attribute_values : Call → Obj → List Bytes → Exec (World.W w) (List J × List J)
  unfolding put
  attribute_values call o [] = pure ([], [])
  attribute_values call o (a ∷ as') =
      if same a (lit "class") then attribute_values call o as' else (do
        v ← call a (attr o a) true []
        (names, values) ← attribute_values call o as'
        pure (string a ∷ names, document r (put r (lit "name") (string a) v) ∷ values))

  unfoldable pub set_generic_object_data : Call → Obj → Members r → Exec (World.W w) (Members r)
  unfolding put attribute_values
  set_generic_object_data call o m = do
    (names, values) ← attribute_values call o (attribute_names o)
    pure (
        put r (lit "length") (number (pos (length values))) (
          put r (lit "value") (pushed r values)
            (put r (lit "names") (pushed r names) (put r (lit "generic") (boolean true) m))))

  unfoldable pub environment_children : Call → Obj → List Bytes → Exec (World.W w) (List J)
  unfolding put
  environment_children call o [] = pure []
  environment_children call o (name ∷ names) = do
    v ← now r (λ d. get d o name)
    child ← call name v true (put r (lit "name") (string name) [])
    rest ← environment_children call o names
    pure (document r child ∷ rest)

  unfoldable pub set_environment_data : Call → Obj → Members r → Exec (World.W w) (Members r)
  unfolding put environment_children
  set_environment_data call o m = do
    names ← now r (λ d. ls d o)
    children ← environment_children call o (take max_len names)
    pure (put r (lit "value") (pushed r children) m)

  unfoldable pub class_data : Call → Bytes → Obj → Members r → Exec (World.W w) (Members r)
  unfolding put set_factor_data set_data_frame_data set_generic_object_data date_text
  class_data call klass o m =
      if is_factor o
      then set_factor_data o m
      else if same klass (lit "Date")
      then (do
        d ← lift r (date o)
        pure (
            put r (lit "type") (string (lit "date"))
              (put r (lit "value") (string (date_text d)) m)))
      else if same klass (lit "POSIXct")
      then (do
        xs ← lift r (real_data o)
        x ← lift r (at_index xs 0)
        pure (put r (lit "type") (string (lit "date")) (put r (lit "value") (real x) m)))
      else if same klass (lit "POSIXlt")
      then (do
        x ← lift r (timestamp o)
        pure (put r (lit "type") (string (lit "date")) (put r (lit "value") (real x) m)))
      else if same klass (lit "data.frame")
      then set_data_frame_data r o m
      else set_generic_object_data call o m

  unfoldable pub set_object_data : Call → Obj → Members r → Exec (World.W w) (Members r)
  unfolding put class_data is_ordered_factor
  set_object_data call o m = do
    classes ← lift r (strings (attr o (lit "class")))
    klass ←
        (if is_ordered_factor classes
          then pure (lit "ordered factor")
          else lift r (at_index classes 0))
    let classed = put r (lit "class") (string klass) m
    class_data call klass o (if is_s4 o then put r (lit "S4") (boolean true) classed else classed)

  -- The switch of `valueToJson` over the type.
  unfoldable pub switch :
      Call → SexpType → Bytes → Obj → Bool → Members r → Exec (World.W w) (Members r)
  unfolding set_list_data set_environment_data set_function_data
  switch call vecsxp name o include m = do
    listed ← set_list_data call o include m
    add_summary r name listed
  switch call envsxp name o include m = set_environment_data call o m
  switch call closxp name o include m = set_function_data o m
  switch call specialsxp name o include m = set_function_data o m
  switch call builtinsxp name o include m = set_function_data o m
  switch call _ name o include m = set_primitive_data r o m

  -- The body of `valueToJson`, with its nested calls as an argument.
  unfoldable pub value_body : Call → Call
  unfolding put set_object_data switch
  value_body call name o include m =
      let named = put r (lit "name") (string name) m in
      if is_object o
      then (do classed ← set_object_data call o named; add_summary r name classed)
      else switch call (sexp_type o) name o include named

  -- `valueToJson` with room for `n` nested calls.
  unfoldable pub value_to_json : Call → ℕ → Call
  unfolding value_body
  value_to_json overflow zero = overflow
  value_to_json overflow (suc n) = value_body (value_to_json overflow n)
