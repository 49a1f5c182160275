-- ===== src/Environment.antt =====
-- src/EnvironmentWatcher.cpp: the variables of an environment, and how they changed.
pub mod Order
pub mod Sorted
pub mod Variables
pub mod Delta
pub mod Documents
use rc2compute.Prelude.{Bool, true, false, not, ◌&&◌, ◌||◌, List, [], ◌∷◌, map, Bytes, lit, ltb}
use rc2compute.Effects.{Result, Exec, pure, ◌>>=◌, ◌>>◌}
use rc2compute.World.{World}
use rc2compute.Command.{JsonLib}
use rc2compute.Rcpp.{Rcpp}
use rc2compute.Values.{Members, put, document, texts}
use rc2compute.Values.Documents.{Call, value_to_json}
use rc2compute.Session.{Watcher}
use Order.{lt_text, sort, set_difference}

module _ {w : World} {js : JsonLib} (r : Rcpp w js) where
  open js use {J, object}
  open r use {Obj, address, ls, get}

  -- A name and a handle.
  abbrev pub Variable : Type 0
  Variable = Bytes × Obj

  pub record Watched : Type 0 where
    pub env : Obj
    pub last_vars : List Variable

  -- `compareVariablesByName`
  abbrev pub by_name : Variable → Variable → Bool
  by_name v1 v2 = lt_text v1.0 v2.0

  -- `operator<` of two pairs; two handles compare by their pointers.
  abbrev pub by_pair : Variable → Variable → Bool
  by_pair v1 v2 =
      lt_text v1.0 v2.0 || (not (lt_text v2.0 v1.0) && ltb (address v1.1) (address v2.1))

  -- The variables that an environment has now.
  abbrev pub variables : World.W w → Obj → List Variable
  variables d env = map (λ name. (name, get d env name)) (ls d env)

  -- `captureEnvironment`
  unfoldable pub capture_environment : World.W w → Watched → Watched
  capture_environment d e = record e { last_vars = sort by_name (variables d e.env) }

  -- The sorts and the differences of `jsonDelta`: the variables before, those removed, and those added.
  unfoldable pub old_vars : Watched → List Variable
  old_vars e = sort by_name e.last_vars

  unfoldable pub removed_vars : World.W w → Watched → List Variable
  unfolding old_vars
  removed_vars d e = set_difference by_name (old_vars e) (sort by_name (variables d e.env))

  unfoldable pub added_vars : World.W w → Watched → List Variable
  unfolding old_vars
  added_vars d e = set_difference by_pair (sort by_name (variables d e.env)) (old_vars e)

  -- What follows takes `valueToJson` with some room on the stack.
  module _ (value : Call r) where
    -- `toJson(varName)`
    unfoldable pub to_json_named : Watched → Bytes → Exec (World.W w) J
    to_json_named e name = do
      robj ← (λ d. (Result.ok (get d e.env name), d))
      results ← value name robj true []
      pure (document r results)

    unfoldable pub all_to_json : Watched → List Bytes → Members r → Exec (World.W w) (Members r)
    unfolding put to_json_named
    all_to_json e [] results = pure results
    all_to_json e (name ∷ names) results = do
      j ← to_json_named e name
      all_to_json e names (put r name j results)

    -- `toJson()`
    unfoldable pub to_json : Watched → Exec (World.W w) J
    unfolding all_to_json
    to_json e = do
      names ← (λ d. (Result.ok (ls d e.env), d))
      results ← all_to_json e names []
      pure (document r results)

    unfoldable pub added_to_json : List Variable → Members r → Exec (World.W w) (Members r)
    unfolding put
    added_to_json [] results = pure results
    added_to_json ((name, robj) ∷ vars) results = do
      var_value ← value name robj false []
      added_to_json vars (put r name (document r var_value) results)

    -- `jsonDelta`. The variables before are sorted in place.
    unfoldable pub json_delta : World.W w → Watched → (Result J × Watched) × World.W w
    unfolding old_vars removed_vars added_vars added_to_json
    json_delta d e =
        let (result, d') =
          (do
            added ← added_to_json (added_vars d e) []
            pure (
                object (
                  (lit "removed", texts r (map (λ v. v.0) (removed_vars d e)))
                  ∷ (lit "assigned", document r added)
                  ∷ [])))
            d in
        ((result, record e { last_vars = old_vars e }), d')

    -- What a session uses of the environment watcher.
    abbrev pub environment_watcher : Watcher w js
    environment_watcher = record {
      Env = Watched;
      capture_environment = capture_environment;
      to_json = λ d e. to_json e d;
      to_json_named = λ d e name. to_json_named e name d;
      json_delta = json_delta;
    }
