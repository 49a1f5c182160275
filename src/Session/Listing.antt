-- ===== src/Session/Listing.antt =====
-- src/RSession.cpp with src/EnvironmentWatcher.cpp: what the client is told of the variables after a
-- script.
use rc2compute.Prelude.{◌≡◌, refl, sym, ap, subst, true, not, ◌&&◌, List, [], ◌∷◌, ◌++◌, Bytes, lit}
use rc2compute.Effects.{ok, modify, ◌>>=◌}
use rc2compute.Effects.Hoare.{Post, by_weaken}
use rc2compute.InputBuffer.{Evbuffer}
use rc2compute.World.{World}
use rc2compute.Command.{JsonLib, JsonCommand, argument}
use rc2compute.Rcpp.{Rcpp}
use rc2compute.Values.{Members}
use rc2compute.Values.Documents.{Call}
use rc2compute.Environment.{
  Variable, Watched, variables, removed_vars, added_vars, capture_environment, json_delta,
  environment_watcher,
}
use rc2compute.Environment.Variables.{has_name, has_variable, IsDistinct}
use rc2compute.Environment.Delta.{added_vars-captured}
use rc2compute.Environment.Documents.{Answers, delta_document, json_delta-document}
use rc2compute.Session.{Platform, Session, Watcher, send_json, send, world_of, with_world}
use rc2compute.Session.Execute.{handle_execute_script}
use rc2compute.Session.Dispatch.{client_members, handle_list_variables}
use rc2compute.Session.Captured.{handle_execute_script-captures}

module _ (pf : Platform) where
  open pf use {js, watcher}
  open js use {J, object, string, boolean, dump}

  update_document : J → JsonCommand js → J
  update_document delta request = object (
      ((lit "variables", delta)
        ∷ (lit "msg", string (lit "variableupdate"))
        ∷ (lit "delta", boolean true)
        ∷ [])
      ++ client_members pf request)

  -- The message `variableupdate` with this delta.
  unfoldable pub update : J → JsonCommand js → Bytes
  unfolding update_document
  update delta request = dump (update_document delta request)

  list_changes :
      (d : J) (request : JsonCommand js) (t : Session pf)
      → Watcher.json_delta watcher (world_of pf t) t.env ≡ ((ok d, t.env), world_of pf t)
      → handle_list_variables pf true request t ≡ (ok tt, send_json pf (update d request) t)
  unfolding handle_list_variables update update_document ◌>>=◌ modify
  list_changes d request t h =
      ap
        (λ x.
          ((λ s. (x.0.0, with_world pf x.1 (record s { env = x.0.1 })))
              >>= (λ vars. send pf (update_document vars request)))
            t)
        h

module _ (ev : Evbuffer) {w : World} {js : JsonLib} (r : Rcpp w js) (value : Call r) where
  -- Sessions with this environment watcher.
  abbrev pub watching_platform : Platform
  watching_platform = record { ev = ev; world = w; js = js; watcher = environment_watcher r value }

  -- A request of the changes is answered in the session `t` by one message, and changes nothing else: it
  -- names the variables of the state `before` that are gone, and has the document of each variable that
  -- did not stand there before with that name and that handle.
  pub record Answered (doc : World.W w → Variable r → Members r) (before : World.W w)
      (env : Watched r) (request : JsonCommand js) (t : Session watching_platform) : Type 0 where
    pub gone : List (Variable r)
    pub added : List (Variable r)
    pub gone_are :
        (name : Bytes)
        → has_name r name gone
          ≡ has_name r name (variables r before env.env)
            && not (has_name r name (variables r (world_of watching_platform t) env.env))
    pub added_are :
        (v : Variable r)
        → has_variable r v added
          ≡ has_variable r v (variables r (world_of watching_platform t) env.env)
            && not (has_variable r v (variables r before env.env))
    pub answer : handle_list_variables watching_platform true request t ≡ (
      ok tt,
      send_json watching_platform
          (update watching_platform
            (delta_document r value (doc (world_of watching_platform t)) gone added)
            request)
          t,
    )

  module _ (doc : World.W w → Variable r → Members r) (before : World.W w) (env : Watched r)
      (distinct : (d : World.W w) → IsDistinct r (variables r d env.env))
      (made : (d : World.W w) → Answers r value (doc d) d (variables r d env.env)) where
    captured-Answered :
        (request : JsonCommand js) (u : Unit {0}) (t : Session watching_platform)
        → t.env ≡ capture_environment r before env
        → Answered doc before env request t
    captured-Answered request u t captured =
        let now = world_of watching_platform t in
        let c = capture_environment r before env in
        let changes = added_vars-captured r before now env (distinct before) (distinct now) in
        let gone = removed_vars r now c in
        let added = added_vars r now c in
        record {
          gone = gone;
          added = added;
          gone_are = changes.0;
          added_are = changes.1;
          answer =
              list_changes watching_platform (delta_document r value (doc now) gone added) request t
                (subst
                  (λ x.
                    json_delta r value now x
                    ≡ ((ok (delta_document r value (doc now) gone added), x), now))
                  (sym captured) (json_delta-document r value (doc now) before now env (made now)));
        }

-- A script that runs while the variables are watched, and then the request of the changes that it has
-- scheduled: whatever R did, the client is told the names that are gone since the script began and the
-- documents of exactly the variables that were not there before with that name and that handle. No name
-- stands twice in the environment, and the documents of its variables can be made.
pub handle_execute_script-lists :
    (ev : Evbuffer) {w : World} {js : JsonLib} (r : Rcpp w js) (value : Call r)
    (doc : World.W w → Variable r → Members r) (command request : JsonCommand js) (code : Bytes)
    (s : Session (watching_platform ev r value))
    → argument js command ≡ ok code
    → s.watch_variables ≡ true
    → ((d : World.W w) → IsDistinct r (variables r d s.env.env))
    → ((d : World.W w) → Answers r value (doc d) d (variables r d s.env.env))
    → Post
        (λ _. Answered ev r value doc (world_of (watching_platform ev r value) s) s.env request)
        (λ _. ⊥)
        (handle_execute_script (watching_platform ev r value) command s)
handle_execute_script-lists ev r value doc command request code s takes watching distinct made =
    let pf = watching_platform ev r value in
    (by_weaken {P = λ t. t ≡ s} (handle_execute_script pf command)
        (captured-Answered ev r value doc (world_of pf s) s.env distinct made request) (λ t h. h)
        (record {
          at = λ t h. rw h (handle_execute_script-captures pf command code s takes watching);
        })).at
      s refl
