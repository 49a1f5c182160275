-- ===== src/Values/Termination.antt =====
-- src/EnvironmentWatcher.cpp: the depth of the nested calls of `valueToJson`.
use rc2compute.Prelude.{
  All, ℕ, zero, suc, ◌≡◌, refl, ap, fun_ext, Bool, true, false, inl, inr, Bool-cases, Option, List,
  [], ◌∷◌, Bytes, lit, take,
}
use rc2compute.Effects.{Exec, ◌>>=◌}
use rc2compute.World.{World}
use rc2compute.Command.{JsonLib}
use rc2compute.Rcpp.{
  Rcpp, SexpType, nilsxp, closxp, envsxp, specialsxp, builtinsxp, lglsxp, intsxp, realsxp, cplxsxp,
  strsxp, vecsxp, rawsxp, other_sxp,
}
use rc2compute.Values.{max_len, indices_from, min_of, Members, put}
use rc2compute.Values.Documents.{
  Call, list_children, set_list_data, attribute_values, set_generic_object_data,
  environment_children, set_environment_data, class_data, set_object_data, switch, value_body,
  value_to_json,
}

All-map :
    {A : Type 0} (P Q : A → Type 0) (xs : List A) → ((x : A) → P x → Q x) → All P xs → All Q xs
All-map P Q [] f h = tt
All-map P Q (x ∷ xs) f h = (f x h.0, All-map P Q xs f h.1)

bind_ext :
    {S A B : Type 0} (m : Exec S A) (f g : A → Exec S B)
    → ((a : A) → f a ≡ g a)
    → (m >>= f) ≡ (m >>= g)
bind_ext m f g h = ap (λ k. m >>= k) (fun_ext h)

module _ {w : World} {js : JsonLib} (r : Rcpp w js) where
  open js use {J, string}
  open r use {Obj, sexp_type, is_object, size, elt, attr, attribute_names, get}

  -- What the object reaches through elements, attributes and variables, in any state, is fewer than
  -- `n` levels deep. Only the elements that `valueToJson` looks at count.
  abbrev pub IsShallow : ℕ → Obj → Type 0
  IsShallow zero o = ⊥
  IsShallow (suc n) o =
      (is_object o ≡ true → All (λ a. IsShallow n (attr o a)) (attribute_names o))
      × (sexp_type o ≡ vecsxp
          → All (λ i. IsShallow n (elt o i)) (indices_from 0 (min_of (size o) max_len)))
      × (sexp_type o ≡ envsxp → (d : World.W w) (name : Bytes) → IsShallow n (get d o name))

  -- Two ways to call agree on an object.
  abbrev Agree : Call r → Call r → Obj → Type 0
  Agree c c' o =
      (name : Bytes) (include : Bool) (m : Members r) → c name o include m ≡ c' name o include m

  module _ (c c' : Call r) (o : Obj) where
    list_children-Agree :
        (names : Option (List J)) (is : List ℕ)
        → All (λ i. Agree c c' (elt o i)) is
        → list_children r c o names is ≡ list_children r c' o names is
    unfolding list_children
    list_children-Agree names [] h = refl
    list_children-Agree names (i ∷ is) h =
        rw (h.0 [] false [], list_children-Agree names is h.1) refl

    attribute_values-Agree :
        (as' : List Bytes)
        → All (λ a. Agree c c' (attr o a)) as'
        → attribute_values r c o as' ≡ attribute_values r c' o as'
    unfolding attribute_values
    attribute_values-Agree [] h = refl
    attribute_values-Agree (a ∷ as') h = rw (h.0 a true [], attribute_values-Agree as' h.1) refl

    environment_children-Agree :
        (names : List Bytes)
        → ((d : World.W w) (name : Bytes) → Agree c c' (get d o name))
        → environment_children r c o names ≡ environment_children r c' o names
    unfolding environment_children ◌>>=◌
    environment_children-Agree [] h = refl
    environment_children-Agree (name ∷ names) h =
        fun_ext λ d. rw (h d name name true _, environment_children-Agree names h) refl

    set_object_data-Agree :
        (m : Members r)
        → All (λ a. Agree c c' (attr o a)) (attribute_names o)
        → set_object_data r c o m ≡ set_object_data r c' o m
    unfolding set_object_data class_data set_generic_object_data
    set_object_data-Agree m h = rw (attribute_values-Agree (attribute_names o) h) refl

    set_list_data-Agree :
        (include : Bool) (m : Members r)
        → All (λ i. Agree c c' (elt o i)) (indices_from 0 (min_of (size o) max_len))
        → set_list_data r c o include m ≡ set_list_data r c' o include m
    unfolding set_list_data
    set_list_data-Agree true m h = bind_ext _ _ _ λ names. rw (list_children-Agree names _ h) refl
    set_list_data-Agree false m h = refl

    set_environment_data-Agree :
        (m : Members r)
        → ((d : World.W w) (name : Bytes) → Agree c c' (get d o name))
        → set_environment_data r c o m ≡ set_environment_data r c' o m
    unfolding set_environment_data
    set_environment_data-Agree m h =
        bind_ext _ _ _ λ names. rw (environment_children-Agree (take max_len names) h) refl

    switch-Agree :
        (t : SexpType) (name : Bytes) (include : Bool) (m : Members r)
        → (t ≡ vecsxp → All (λ i. Agree c c' (elt o i)) (indices_from 0 (min_of (size o) max_len)))
        → (t ≡ envsxp → (d : World.W w) (name : Bytes) → Agree c c' (get d o name))
        → switch r c t name o include m ≡ switch r c' t name o include m
    unfolding switch
    switch-Agree vecsxp name include m h k = rw (set_list_data-Agree include m (h refl)) refl
    switch-Agree envsxp name include m h k = set_environment_data-Agree m (k refl)
    switch-Agree closxp name include m h k = refl
    switch-Agree specialsxp name include m h k = refl
    switch-Agree builtinsxp name include m h k = refl
    switch-Agree nilsxp name include m h k = refl
    switch-Agree lglsxp name include m h k = refl
    switch-Agree intsxp name include m h k = refl
    switch-Agree realsxp name include m h k = refl
    switch-Agree cplxsxp name include m h k = refl
    switch-Agree strsxp name include m h k = refl
    switch-Agree rawsxp name include m h k = refl
    switch-Agree other_sxp name include m h k = refl

  -- With room for `n` nested calls, `valueToJson` of an object that is shallower never runs out of it: the
  -- result is the same whatever it is that happens then.
  pub value_to_json-terminates :
      (overflow overflow' : Call r) (n : ℕ) (o : Obj)
      → IsShallow n o
      → (name : Bytes) (include : Bool) (m : Members r)
      → value_to_json r overflow n name o include m ≡ value_to_json r overflow' n name o include m
  unfolding value_to_json value_body
  value_to_json-terminates f f' zero o h name include m = absurd h
  value_to_json-terminates f f' (suc n) o h name include m =
      let deeper = value_to_json-terminates f f' n in
      let c = value_to_json r f n in
      let c' = value_to_json r f' n in
      elim (Bool-cases (is_object o)) [
        | inl e ↦
            rw
              (
                e,
                set_object_data-Agree c c' o (put r (lit "name") (string name) m) (
                    All-map (λ a. IsShallow n (attr o a)) (λ a. Agree c c' (attr o a)) _
                      (λ a. deeper (attr o a)) (h.0 e)),
              )
              refl
        | inr e ↦ rw e (
            switch-Agree c c' o (sexp_type o) name include (put r (lit "name") (string name) m)
              (λ t.
                All-map (λ i. IsShallow n (elt o i)) (λ i. Agree c c' (elt o i)) _
                  (λ i. deeper (elt o i)) (h.1 t))
              (λ t d x. deeper (get d o x) (h.2 t d x)))
      ]
