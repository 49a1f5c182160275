-- ===== src/Environment/Documents.antt =====
-- src/EnvironmentWatcher.cpp: the document that `jsonDelta` makes of the variables.
use rc2compute.Prelude.{◌≡◌, refl, Bool, false, List, [], ◌∷◌, map, lit, Bool-cases, inl, inr}
use rc2compute.Effects.{ok, pure, ◌>>=◌}
use rc2compute.World.{World}
use rc2compute.Command.{JsonLib}
use rc2compute.Rcpp.{Rcpp}
use rc2compute.Values.{Members, put, document, texts}
use rc2compute.Values.Documents.{Call}
use rc2compute.Environment.{
  Variable, Watched, variables, by_name, by_pair, removed_vars, added_vars, old_vars,
  capture_environment, added_to_json, json_delta,
}
use rc2compute.Environment.Order.{sort, insert_sorted, set_difference}
use rc2compute.Environment.Sorted.{sort-fixed, sort-IsOrdered}
use rc2compute.Environment.Variables.{by_name-IsOrder}

module _ {w : World} {js : JsonLib} (r : Rcpp w js) (value : Call r)
    (doc : Variable r → Members r) where
  open js use {J, object}

  -- In the state `d` the documents of the variables are made, and the state is left as it is.
  abbrev pub Answers : World.W w → List (Variable r) → Type 0
  Answers d [] = Unit {0}
  Answers d (v ∷ vs) = (value v.0 v.1 false [] d ≡ (ok (doc v), d)) × Answers d vs

  Answers-insert_sorted :
      (d : World.W w) (v : Variable r) (vs : List (Variable r))
      → Answers d (v ∷ vs)
      → Answers d (insert_sorted (by_name r) v vs)
  unfolding insert_sorted
  Answers-insert_sorted d v [] h = h
  Answers-insert_sorted d v (x ∷ vs) h = elim (Bool-cases (by_name r x v)) [
    | inl e ↦ rw e (h.1.0, Answers-insert_sorted d v vs (h.0, h.1.1))
    | inr e ↦ rw e h
  ]

  Answers-sort :
      (d : World.W w) (vs : List (Variable r)) → Answers d vs → Answers d (sort (by_name r) vs)
  unfolding sort
  Answers-sort d [] h = tt
  Answers-sort d (v ∷ vs) h =
      Answers-insert_sorted d v (sort (by_name r) vs) (h.0, Answers-sort d vs h.1)

  Answers-set_difference :
      (lt : Variable r → Variable r → Bool) (d : World.W w) (vs us : List (Variable r))
      → Answers d vs
      → Answers d (set_difference lt vs us)
  unfolding set_difference
  Answers-set_difference lt d [] us h = tt
  Answers-set_difference lt d (v ∷ vs) [] h = h
  Answers-set_difference lt d (v ∷ vs) (u ∷ us) h = elim (Bool-cases (lt v u)) [
    | inl e ↦ rw (e, set_difference) (h.0, Answers-set_difference lt d vs (u ∷ us) h.1)
    | inr e ↦ elim (Bool-cases (lt u v)) [
      | inl k ↦ rw (e, k, set_difference) (Answers-set_difference lt d (v ∷ vs) us h)
      | inr k ↦ rw (e, k, set_difference) (Answers-set_difference lt d vs us h.1)
    ]
  ]

  -- The member of each variable, in their order.
  abbrev pub assigned : List (Variable r) → Members r → Members r
  assigned [] m = m
  assigned (v ∷ vs) m = assigned vs (put r v.0 (document r (doc v)) m)

  added_to_json-assigned :
      (d : World.W w) (vs : List (Variable r)) (m : Members r)
      → Answers d vs
      → added_to_json r value vs m d ≡ (ok (assigned vs m), d)
  unfolding added_to_json ◌>>=◌ pure
  added_to_json-assigned d [] m h = refl
  added_to_json-assigned d ((name, o) ∷ vs) m h =
      rw (h.0, added_to_json) (added_to_json-assigned d vs _ h.1)

  -- The document of the names that are gone and the variables that are added.
  abbrev pub delta_document : List (Variable r) → List (Variable r) → J
  delta_document gone added = object (
      (lit "removed", texts r (map (λ v. v.0) gone))
      ∷ (lit "assigned", document r (assigned added []))
      ∷ [])

  pub json_delta-document :
      (d0 d : World.W w) (e : Watched r)
      → Answers d (variables r d e.env)
      → let c = capture_environment r d0 e in
        json_delta r value d c
        ≡ ((ok (delta_document (removed_vars r d c) (added_vars r d c)), c), d)
  unfolding json_delta capture_environment old_vars added_vars ◌>>=◌ pure
  json_delta-document d0 d e h =
      let vars = variables r d0 e.env in
      let c = capture_environment r d0 e in
      rw
        (
          added_to_json-assigned d (added_vars r d c) []
              (Answers-set_difference (by_pair r) d _ _ (Answers-sort d _ h)),
          sort-fixed (by_name-IsOrder r) (sort (by_name r) vars)
              (sort-IsOrdered (by_name-IsOrder r) vars),
        )
        refl
