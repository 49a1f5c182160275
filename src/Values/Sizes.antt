-- ===== src/Values/Sizes.antt =====
-- src/EnvironmentWatcher.cpp: `kMaxLen` bounds the arrays of elements, variables and rows.
use rc2compute.Prelude.{
  ℕ, zero, suc, ◌+◌, ◌≤◌, ◌≡◌, refl, true, Option, List, [], ◌∷◌, arith, Bytes, lit, length,
  length-take,
}
use rc2compute.Effects.Hoare.{Post, Triple, by_bind, by_pure, any_outcome}
use rc2compute.World.{World}
use rc2compute.Command.{JsonLib}
use rc2compute.Rcpp.{Rcpp}
use rc2compute.Values.{max_len, indices_from, min_of, Members, put, pushed}
use rc2compute.Values.Frames.{frame_rows, set_data_frame_data}
use rc2compute.Values.Documents.{
  Call, list_children, set_list_data, environment_children, set_environment_data,
}

length-indices_from : (i n : ℕ) → length (indices_from i n) ≡ n
length-indices_from i zero = refl
length-indices_from i (suc n) = omega (arith, length-indices_from (i + 1) n)

module _ {w : World} {js : JsonLib} (r : Rcpp w js) where
  open js use {J}
  open r use {Obj, size}

  abbrev pub Any : World.W w → Type 0
  Any d = Unit {0}

  list_children-length :
      (call : Call r) (o : Obj) (names : Option (List J)) (is : List ℕ)
      → Triple Any (list_children r call o names is) (λ js' _. length js' ≡ length is) Any
  unfolding list_children
  list_children-length call o names [] = by_pure [] (λ d h. refl)
  list_children-length call o names (i ∷ is) = by_bind _ _ (any_outcome _) λ child.
      by_bind _ _ (list_children-length call o names is) λ rest. by_pure _ (λ d h. omega arith)

  environment_children-length :
      (call : Call r) (o : Obj) (names : List Bytes)
      → Triple Any (environment_children r call o names) (λ js' _. length js' ≡ length names) Any
  unfolding environment_children
  environment_children-length call o [] = by_pure [] (λ d h. refl)
  environment_children-length call o (name ∷ names) = by_bind _ _ (any_outcome _) λ v.
      by_bind _ _ (any_outcome _) λ child.
        by_bind _ _ (environment_children-length call o names)
          λ rest. by_pure _ (λ d h. omega arith)

  frame_rows-length :
      (columns : List Obj) (cols rows : List ℕ)
      → Triple Any (frame_rows r columns cols rows) (λ js' _. length js' ≡ length rows) Any
  unfolding frame_rows
  frame_rows-length columns cols [] = by_pure [] (λ d h. refl)
  frame_rows-length columns cols (row ∷ rows) = by_bind _ _ (any_outcome _) λ cells.
      by_bind _ _ (frame_rows-length columns cols rows) λ rest. by_pure _ (λ d h. omega arith)

  -- The member was assigned last, an array of at most `kMaxLen` documents.
  abbrev pub HasAtMost : Bytes → ℕ → Members r → Type 0
  HasAtMost key n m =
      (js' : List J) × (m' : Members r) × (m ≡ put r key (pushed r js') m') × (length js' ≤ n)

  set_list_data-HasAtMost :
      (call : Call r) (o : Obj) (m : Members r)
      → Triple Any
          (set_list_data r call o true m)
          (λ t _. HasAtMost (lit "value") (min_of (size o) max_len) t)
          Any
  unfolding set_list_data
  set_list_data-HasAtMost call o m = by_bind _ _ (any_outcome _) λ names.
      by_bind _ _ (list_children-length call o names _) λ children.
        by_pure _ (λ d h.
          (children, _, refl, omega (arith, length-indices_from 0 (min_of (size o) max_len))))

  set_environment_data-HasAtMost :
      (call : Call r) (o : Obj) (m : Members r)
      → Triple Any (set_environment_data r call o m) (λ t _. HasAtMost (lit "value") max_len t) Any
  unfolding set_environment_data
  set_environment_data-HasAtMost call o m = by_bind _ _ (any_outcome _) λ names.
      by_bind _ _ (environment_children-length call o _)
        λ children. by_pure _ (λ d h. (children, m, refl, omega (arith, length-take max_len names)))

  set_data_frame_data-HasAtMost :
      (o : Obj) (m : Members r)
      → Triple Any (set_data_frame_data r o m) (λ t _. HasAtMost (lit "rows") max_len t) Any
  unfolding set_data_frame_data
  set_data_frame_data-HasAtMost o m = by_bind _ _ (any_outcome _) λ names.
      by_bind _ _ (any_outcome _) λ labelled. by_bind _ _ (any_outcome _) λ types.
        by_bind _ _ (any_outcome _) λ first. by_bind _ _ (frame_rows-length _ _ _) λ rows.
          by_pure _ (λ d h.
            (rows, _, refl, ground (arith, h, length-indices_from 0 (min_of (size first) max_len))))

  -- What stands in a document of a list, an environment or a data frame is at most `kMaxLen` elements,
  -- variables or rows, however large the object is; of a list, it is no more than its length either.
  pub documents-HasAtMost :
      (call : Call r) (o : Obj) (m : Members r) (d : World.W w)
      → Post
          (λ t _. HasAtMost (lit "value") (min_of (size o) max_len) t)
          Any
          (set_list_data r call o true m d)
        × Post (λ t _. HasAtMost (lit "value") max_len t) Any (set_environment_data r call o m d)
        × Post (λ t _. HasAtMost (lit "rows") max_len t) Any (set_data_frame_data r o m d)
  documents-HasAtMost call o m d = (
    (set_list_data-HasAtMost call o m).at d tt,
    (set_environment_data-HasAtMost call o m).at d tt,
    (set_data_frame_data-HasAtMost o m).at d tt,
  )
