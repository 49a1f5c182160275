-- ===== src/Values.antt =====
-- src/EnvironmentWatcher.cpp: the JSON document of an R value.
--
-- A document that is built by `jobj[key] = v` is its list of members: it is null as long as there is
-- none. A document that is built by `push_back` is null, too, until the first. The nested calls of
-- `valueToJson` take a bound on their depth, the room on the stack; `overflow` is what happens when
-- there is no room left.
pub mod Frames
pub mod Primitives
pub mod Documents
pub mod Termination
pub mod Faults
pub mod Sizes
use rc2compute.Prelude.{
  ℕ, zero, suc, ◌+◌, ◌-◌, Bool, true, false, ◌&&◌, Option, none, some, List, [], ◌∷◌, ◌++◌, map,
  Bytes, lit, same, length, ltb, if◌then◌else◌, take,
}
use rc2compute.Effects.{Exn, Result, ok, raised, undefined, Exec, pure, ◌>>=◌, ◌>>◌}
use rc2compute.Numbers.{ℤ, pos, eq_ℤ, show}
use rc2compute.Utils.{strip_quotes}
use rc2compute.World.{World}
use rc2compute.Command.{JsonLib}
use rc2compute.Rcpp.{
  Rcpp, SexpType, nilsxp, closxp, envsxp, specialsxp, builtinsxp, lglsxp, intsxp, realsxp, cplxsxp,
  strsxp, vecsxp, rawsxp, other_sxp,
}

-- `kMaxLen`
abbrev pub max_len : ℕ
max_len = 100

-- The first `n` indices.
abbrev pub indices_from : ℕ → ℕ → List ℕ
indices_from i zero = []
indices_from i (suc n) = i ∷ indices_from (i + 1) n

abbrev pub min_of : ℕ → ℕ → ℕ
min_of a b = if ltb a b then a else b

module _ {ℓ} {A : Type ℓ} where
  -- `v[i]` without a check.
  abbrev pub at_index : List A → ℕ → Result A
  at_index [] i = undefined
  at_index (x ∷ xs) zero = ok x
  at_index (x ∷ xs) (suc i) = at_index xs i

-- The text of `capture.output` in one string: a line end stands before a line if text is there.
unfoldable pub summary_text : Bytes → List Bytes → Bytes
summary_text acc [] = acc
summary_text acc (s ∷ ss) =
    summary_text ((if ltb 0 (length acc) then acc ++ 10 ∷ [] else acc) ++ s) ss

-- `%4d` and `%02d`
unfoldable pub pad : ℕ → ℕ → Bytes → Bytes
pad zero fill text = text
pad (suc n) fill text = if ltb n (length text) then text else fill ∷ pad n fill text

-- `snprintf` into 16 bytes.
unfoldable pub date_text : ℤ × ℤ × ℤ → Bytes
unfolding pad
date_text (y, m, d) =
    take 15 (pad 4 b' ' (show y) ++ b'-' ∷ pad 2 b'0' (show m) ++ b'-' ∷ pad 2 b'0' (show d))

-- `isOrderedFactor`
unfoldable pub is_ordered_factor : List Bytes → Bool
is_ordered_factor (a ∷ b ∷ rest) = same a (lit "ordered") && same b (lit "factor")
is_ordered_factor _ = false

module _ {w : World} {js : JsonLib} (r : Rcpp w js) where
  open js use {J, null, string, number, array, object}
  open r use {Obj, real, sexp_type, strings, integers, logicals, reals, run}

  abbrev pub Members : Type 0
  Members = List (Bytes × J)

  -- `jobj[key] = v`
  unfoldable pub put : Bytes → J → Members → Members
  put key v [] = (key, v) ∷ []
  put key v ((k, x) ∷ m) = if same k key then (k, v) ∷ m else (k, x) ∷ put key v m

  abbrev pub document : Members → J
  document [] = null
  document (m ∷ ms) = object (m ∷ ms)

  -- An array that is made by `push_back`.
  abbrev pub pushed : List J → J
  pushed [] = null
  pushed (j ∷ j's) = array (j ∷ j's)

  abbrev pub texts : List Bytes → J
  texts ts = array (map string ts)

  abbrev pub lift : {A : Type 0} → Result A → Exec (World.W w) A
  lift x d = (x, d)

  -- A state that the environment is in now.
  abbrev pub now : {A : Type 0} → (World.W w → A) → Exec (World.W w) A
  now f d = (ok (f d), d)

  -- `rvectorToJsonArray`; `none` is null.
  unfoldable pub rvector_to_json : Obj → Exec (World.W w) (Option (List J))
  rvector_to_json o = elim (sexp_type o) [
    | lglsxp ↦ (do xs ← lift (logicals o); pure (some (map number xs)))
    | intsxp ↦ (do xs ← lift (integers o); pure (some (map number xs)))
    | realsxp ↦ (do xs ← lift (reals o); pure (some (map real xs)))
    | strsxp ↦ (do xs ← lift (strings o); pure (some (map string xs)))
    | _ ↦ pure none
  ]

  abbrev pub or_null : Option (List J) → J
  or_null none = null
  or_null (some js') = array js'

  -- `names[i]`, which makes an array of null and fills it with null up to the index.
  abbrev pub name_at : Option (List J) → ℕ → J
  name_at none i = null
  name_at (some js') i = elim (at_index js' i) [ ok j ↦ j | raised e ↦ null | undefined ↦ null ]

  -- `addSummary`; whatever the conversion throws is only logged.
  unfoldable pub add_summary : Bytes → Members → Exec (World.W w) Members
  unfolding strip_quotes summary_text
  add_summary name m = do
    result ← (λ d.
        let (x, d') = run d (lit "capture.output(str(" ++ strip_quotes name ++ lit "))") in
        (ok x, d'))
    lift (elim (strings result) [
      | ok ts ↦ ok (put (lit "summary") (string (summary_text [] ts)) m)
      | raised e ↦ ok m
      | undefined ↦ undefined
    ])
