-- ===== src/Environment/Delta.antt =====
-- src/EnvironmentWatcher.cpp: what `jsonDelta` reports.
use rc2compute.Prelude.{◌≡◌, refl, ap, ◌∙◌, not, ◌&&◌, [], ◌∷◌, Bytes, lit}
use rc2compute.Effects.{ok, pure, ◌>>=◌}
use rc2compute.World.{World}
use rc2compute.Command.{JsonLib}
use rc2compute.Rcpp.{Rcpp}
use rc2compute.Values.Documents.{Call}
use rc2compute.Environment.{
  Variable, Watched, variables, by_name, by_pair, old_vars, removed_vars, added_vars,
  capture_environment, added_to_json, json_delta,
}
use rc2compute.Environment.Order.{sort}
use rc2compute.Environment.Sorted.{
  set_difference-without, set_difference_self, sort-IsOrdered, sort-fixed,
}
use rc2compute.Environment.Variables.{
  any-sort, any-without, has_name, has_variable, IsDistinct, by_name-IsOrder, by_pair-IsOrder,
  meets-name, meets-variable, sort-IsAscending, sort-IsDistinct, IsAscending-pairs,
}

module _ {w : World} {js : JsonLib} (r : Rcpp w js) where
  open js use {array, object, null}

  module _ (d : World.W w) (e : Watched r) (before : IsDistinct r e.last_vars)
      (after : IsDistinct r (variables r d e.env)) where
    removed_vars-name :
        (name : Bytes)
        → has_name r name (removed_vars r d e)
          ≡ has_name r name e.last_vars && not (has_name r name (variables r d e.env))
    unfolding removed_vars old_vars
    removed_vars-name name =
        ap (has_name r name) (
          set_difference-without (by_name-IsOrder r) _ _ (sort-IsAscending r e.last_vars before)
            (sort-IsAscending r (variables r d e.env) after))
        ∙ (any-without (by_name r) _ (sort (by_name r) e.last_vars) _ (λ x. meets-name r name x _)
            ∙ simp (any-sort (by_name r)))

    added_vars-variable :
        (v : Variable r)
        → has_variable r v (added_vars r d e)
          ≡ has_variable r v (variables r d e.env) && not (has_variable r v e.last_vars)
    unfolding added_vars old_vars
    added_vars-variable v =
        ap (has_variable r v) (
          set_difference-without (by_pair-IsOrder r) _ _
            (IsAscending-pairs r _ (sort-IsAscending r (variables r d e.env) after))
            (IsAscending-pairs r _ (sort-IsAscending r e.last_vars before)))
        ∙ (any-without (by_pair r) _ (sort (by_name r) (variables r d e.env)) _
              (λ x. meets-variable r v x _)
            ∙ simp (any-sort (by_name r)))

  -- The environment was captured in one state and the delta is asked for in another, and in both no name
  -- stands twice. What is removed are exactly the names of then that are gone, and what is added are
  -- exactly the variables of now that did not stand there then with that name and that handle.
  pub added_vars-captured :
      (d d' : World.W w) (e : Watched r)
      → IsDistinct r (variables r d e.env)
      → IsDistinct r (variables r d' e.env)
      → ((name : Bytes)
          → has_name r name (removed_vars r d' (capture_environment r d e))
            ≡ has_name r name (variables r d e.env) && not (has_name r name (variables r d' e.env)))
        × ((v : Variable r)
            → has_variable r v (added_vars r d' (capture_environment r d e))
              ≡ has_variable r v (variables r d' e.env)
                && not (has_variable r v (variables r d e.env)))
  unfolding capture_environment
  added_vars-captured d d' e then_distinct now_distinct =
      let before = sort-IsDistinct r (variables r d e.env) then_distinct in
      let c = capture_environment r d e in
      (
        λ name. removed_vars-name d' c before now_distinct name ∙ simp (any-sort (by_name r)),
        λ v. added_vars-variable d' c before now_distinct v ∙ simp (any-sort (by_name r)),
      )

  -- Right after the environment was captured the delta has no removed name and nothing assigned, and
  -- changes nothing, whatever the variables are.
  pub json_delta-captured :
      (value : Call r) (d : World.W w) (e : Watched r)
      → json_delta r value d (capture_environment r d e) ≡ (
        (
          ok (object ((lit "removed", array []) ∷ (lit "assigned", null) ∷ [])),
          capture_environment r d e,
        ),
        d,
      )
  unfolding json_delta capture_environment removed_vars added_vars old_vars added_to_json ◌>>=◌ pure
  json_delta-captured value d e =
      let vars = variables r d e.env in
      rw
        (
          sort-fixed (by_name-IsOrder r) (sort (by_name r) vars)
              (sort-IsOrdered (by_name-IsOrder r) vars),
          set_difference_self (by_name-IsOrder r) (sort (by_name r) vars),
          set_difference_self (by_pair-IsOrder r) (sort (by_name r) vars),
        )
        refl
