-- ===== src/Tests/Variables.antt =====
-- R values: numbers, a list of two of them, a matrix with names, a data frame's column, and environments.
use rc2compute.Prelude.{
  ℕ, ◌≡◌, refl, Bool, true, false, not, ◌&&◌, List, [], ◌∷◌, arith, Bytes, lit, ◌==◌, same,
  if◌then◌else◌,
}
use rc2compute.Effects.{ok, undefined, ◌>>=◌, pure}
use rc2compute.Effects.Hoare.{Post}
use rc2compute.Numbers.{pos, show, show_ℕ, digits}
use rc2compute.World.{World, pe_success}
use rc2compute.Rcpp.{Rcpp, SexpType, nilsxp, envsxp, intsxp, strsxp, vecsxp}
use rc2compute.Environment.Order.{sort, set_difference, lt_text}
use rc2compute.Values.{date_text, max_len, Members}
use rc2compute.Values.Frames.{frame_row, set_data_frame_data}
use rc2compute.Values.Primitives.{set_primitive_data}
use rc2compute.Values.Documents.{
  Call, value_body, switch, value_to_json, set_list_data, set_environment_data,
}
use rc2compute.Values.Termination.{IsShallow, value_to_json-terminates}
use rc2compute.Values.Faults.{
  stack_end, value_to_json-endless, frame_row-strings, set_primitive_data-overrun,
}
use rc2compute.Values.Sizes.{HasAtMost, Any, documents-HasAtMost}
use rc2compute.Environment.{
  Variable, environment_watcher, Watched, variables, removed_vars, added_vars, capture_environment,
}
use rc2compute.Environment.Variables.{IsDistinct, has_name, has_variable}
use rc2compute.Environment.Delta.{added_vars-captured}
use rc2compute.Tests.{world_over, own_text, byte_list, session_over}
use rc2compute.Command.{exec_script, list_variables, argument}
use rc2compute.Session.{Session}
use rc2compute.Session.Execute.{handle_execute_script}
use rc2compute.Session.Listing.{watching_platform, Answered, handle_execute_script-lists}
use rc2compute.Environment.Documents.{Answers}

data Thing : Type 0 where
  nothing numbers pair words grid grid_names itself global : Thing

abbrev kind : Thing → SexpType
kind nothing = nilsxp
kind numbers = intsxp
kind pair = vecsxp
kind words = strsxp
kind grid = intsxp
kind grid_names = vecsxp
kind itself = envsxp
kind global = envsxp

abbrev place : Thing → ℕ
place nothing = 0
place numbers = 1
place pair = 2
place words = 3
place grid = 4
place grid_names = 5
place itself = 6
place global = 7

abbrev length_of : Thing → ℕ
length_of numbers = 1
length_of pair = 2
length_of words = 1
length_of grid = 4
length_of grid_names = 2
length_of _ = 0

-- Two states of the world, before a script and after it.
abbrev two_states : World
two_states = record (world_over Bool) { eval = λ d code. ((pe_success, []), true) }

abbrev names_in : Bool → Thing → List Bytes
names_in d itself = lit "me" ∷ []
names_in false global = lit "a" ∷ lit "b" ∷ lit "c" ∷ []
names_in true global = lit "c" ∷ lit "a" ∷ lit "d" ∷ []
names_in d _ = []

abbrev value_in : Bool → Thing → Bytes → Thing
value_in d itself name = itself
value_in false global name = numbers
value_in true global name = if same name (lit "a") then words else numbers
value_in d _ name = nothing

abbrev things : Rcpp two_states own_text
things = record {
  Obj = Thing;
  Real = ℕ;
  eq_real = ◌==◌;
  r_nan = 0;
  r_pos_inf = 1;
  r_neg_inf = 2;
  real = λ x. [];
  address = place;
  sexp_type = kind;
  is_object = λ o. false;
  is_s4 = λ o. false;
  is_factor = λ o. false;
  is_array = λ o. place o == 4;
  is_matrix = λ o. place o == 4;
  size = length_of;
  elt = λ o i. numbers;
  attr = λ o name. if place o == 4 then grid_names else nothing;
  has_attribute = λ o name. place o == 4;
  attribute_names = λ o. [];
  strings = λ o. ok (lit "s" ∷ []);
  integers = λ o. ok (pos 2 ∷ pos 2 ∷ []);
  logicals = λ o. ok [];
  reals = λ o. ok [];
  int_data = λ o. ok (pos 7 ∷ []);
  real_data = λ o. ok [];
  coerce_strings = λ o. words;
  date = λ o. ok (pos 2016, pos 3, pos 9);
  timestamp = λ o. ok 0;
  ls = names_in;
  get = value_in;
  run = λ d code. (words, d);
  define_function = λ d o. (ok words, d);
}

abbrev watched : Watched things
watched = record { env = global; last_vars = [] }

numbers-IsShallow : IsShallow things 1 numbers
numbers-IsShallow = (λ e. absurd (cc e), λ e. absurd (cc e), λ e. absurd (cc e))

pair-IsShallow : IsShallow things 2 pair
pair-IsShallow =
    (λ e. absurd (cc e), λ e. (numbers-IsShallow, (numbers-IsShallow, tt)), λ e. absurd (cc e))

value_to_json-terminates_example :
    value_to_json things (stack_end things) 2 (lit "x") pair true []
    ≡ value_to_json things (λ name o include m d. (ok [], d)) 2 (lit "x") pair true []
value_to_json-terminates_example =
    value_to_json-terminates things (stack_end things) (λ name o include m d. (ok [], d)) 2 pair
      pair-IsShallow (lit "x") true []

value_to_json-endless_example :
    (value_to_json things (stack_end things) 1000 (lit "me") itself true [] false).0 ≡ undefined
value_to_json-endless_example =
    value_to_json-endless things itself (lit "me") (λ d. []) refl refl (λ d. refl) (λ d. refl) 1000
      (lit "me") true [] false

frame_row-strings_example :
    frame_row things (words ∷ words ∷ []) 0 (0 ∷ 1 ∷ [])
    ≡ frame_row things (words ∷ words ∷ []) 5 (0 ∷ 1 ∷ [])
frame_row-strings_example =
    frame_row-strings things (words ∷ words ∷ []) (0 ∷ 1 ∷ []) 0 5 (refl, (refl, tt))

set_primitive_data-overrun_example :
    Post (λ _ _. ⊥) (λ _. Unit {0}) (set_primitive_data things grid [] false)
set_primitive_data-overrun_example =
    set_primitive_data-overrun things grid [] false refl refl (omega arith)

documents-HasAtMost_example :
    Post
      (λ t _. HasAtMost things (lit "value") 2 t)
      (Any things)
      (set_list_data things (stack_end things) pair true [] true)
    × Post
        (λ t _. HasAtMost things (lit "value") max_len t)
        (Any things)
        (set_environment_data things (stack_end things) pair [] true)
    × Post
        (λ t _. HasAtMost things (lit "rows") max_len t)
        (Any things)
        (set_data_frame_data things pair [] true)
documents-HasAtMost_example = documents-HasAtMost things (stack_end things) pair [] true

added_vars-captured_example :
    ((name : Bytes)
      → has_name things name (removed_vars things true (capture_environment things false watched))
        ≡ has_name things name (variables things false global)
          && not (has_name things name (variables things true global)))
    × ((v : Bytes × Thing)
        → has_variable things v (added_vars things true (capture_environment things false watched))
          ≡ has_variable things v (variables things true global)
            && not (has_variable things v (variables things false global)))
unfolding lit same
added_vars-captured_example =
    added_vars-captured things false true watched (refl, (refl, (refl, tt)))
      (refl, (refl, (refl, tt)))

-- `b` is gone, `a` has a new value and `d` is new; `c` has its old handle.
removed_names :
    removed_vars things true (capture_environment things false watched) ≡ (lit "b", numbers) ∷ []
unfolding removed_vars capture_environment sort set_difference lt_text lit same
removed_names = refl

added_names :
    added_vars things true (capture_environment things false watched)
    ≡ (lit "a", words) ∷ (lit "d", numbers) ∷ []
unfolding added_vars capture_environment sort set_difference lt_text lit same
added_names = refl

short_date : date_text (pos 2016, pos 3, pos 9) ≡ lit "2016-03-09"
unfolding date_text lit show show_ℕ digits
short_date = refl

-- `valueToJson` with room for two calls, in a session.
abbrev value : Call things
value = value_to_json things (stack_end things) 2

abbrev made_document : Bool → Variable things → Members things
made_document d v = elim (value v.0 v.1 false [] d).0 [ ok m ↦ m | _ ↦ [] ]

abbrev watching : Session (watching_platform byte_list things value)
watching = record (session_over (environment_watcher things value) watched false) {
  watch_variables = true;
}

variables-Answers :
    (d : Bool) → Answers things value (made_document d) d (variables things d global)
unfolding value_to_json value_body switch set_primitive_data lit same ◌>>=◌ pure
variables-Answers false = (refl, (refl, (refl, tt)))
variables-Answers true = (refl, (refl, (refl, tt)))

variables-IsDistinct : (d : Bool) → IsDistinct things (variables things d global)
unfolding lit same
variables-IsDistinct false = (refl, (refl, (refl, tt)))
variables-IsDistinct true = (refl, (refl, (refl, tt)))

handle_execute_script-lists_example :
    Post
      (λ _.
        Answered byte_list things value made_document false watched
          (record { cmd = lit "x"; type = list_variables }))
      (λ _. ⊥)
      (handle_execute_script
        (watching_platform byte_list things value)
        (record { cmd = lit "x"; type = exec_script })
        watching)
unfolding argument
handle_execute_script-lists_example =
    handle_execute_script-lists byte_list things value made_document
      (record { cmd = lit "x"; type = exec_script })
      (record { cmd = lit "x"; type = list_variables }) (lit "x") watching refl refl
      variables-IsDistinct variables-Answers
