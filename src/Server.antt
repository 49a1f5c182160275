-- ===== src/Server.antt =====
-- src/RServer.cpp: the process that accepts clients and starts a session for each. What the kernel answers
-- to a call is an argument of the function that makes the call.
pub mod Processes
use rc2compute.Prelude.{
  ℕ, Bool, true, false, not, Option, none, some, List, [], ◌∷◌, ◌++◌, Bytes, lit, ◌==◌,
  if◌then◌else◌, ◌%◌, ◌^◌,
}
use rc2compute.Effects.{Result, ok, undefined}
use rc2compute.Numbers.{ℤ, pos, eq_ℤ, lt_ℤ, minus_one, show}
use rc2compute.Utils.{path_for_executable, before_slash}

-- An rsession: the socket that it was started for, the program and its arguments, and the descriptors that
-- it has from the server.
pub record Running : Type 0 where
  pub socket : ℤ
  pub path : Bytes
  pub args : List Bytes
  pub descriptors : List ℤ

-- `open` holds the open descriptors of the server process.
pub record Server : Type 0 where
  pub port : ℕ
  pub verbose : Bool
  pub loop_ended : Bool
  pub descriptors : List ℤ
  pub sessions : List Running

-- What TCLAP makes of the command line: the port and the switch, or an ArgException, which is printed.
unfoldable pub parse_args : Option (ℕ × Bool) → Server → Server
parse_args none s = s
parse_args (some (port, verbose)) s = record s { port = port; verbose = verbose }

-- The answers to `socket`, `bind`, `listen` and `event_new` in `startRunLoop`.
pub record Setup : Type 0 where
  pub listener : ℤ
  pub bind_result : ℤ
  pub listen_result : ℤ
  pub has_event : Bool

-- `startRunLoop` up to the dispatch; `none` is `exit(-1)`. The result of `socket` is not tested.
unfoldable pub start_run_loop : Setup → Server → Option Server
start_run_loop setup s =
    if lt_ℤ setup.bind_result (pos 0)
    then none
    else if lt_ℤ setup.listen_result (pos 0)
    then none
    else if not setup.has_event
    then none
    else some (record s { descriptors = s.descriptors ++ setup.listener ∷ [] })

-- `close`
unfoldable pub close_descriptor : ℤ → List ℤ → List ℤ
close_descriptor fd [] = []
close_descriptor fd (x ∷ xs) =
    let rest = close_descriptor fd xs in if eq_ℤ x fd then rest else x ∷ rest

-- The answer to `fork`: a child that runs the program or in which `execve` fails, or -1.
pub data Fork : Type 0 where
  child_runs child_exits no_child : Fork

unfoldable pub session_args : Bool → ℤ → List Bytes
session_args verbose fd =
    lit "rsession" ∷ lit "-s" ∷ show fd ∷ (if verbose then lit "-v" ∷ [] else [])

-- `handleEvent` from the answer to `accept` on. After a fork the server keeps the socket.
unfoldable pub accepted : Bytes → ℤ → Fork → Server → Server
unfolding session_args close_descriptor
accepted path fd fork s =
    if eq_ℤ fd minus_one
    then s
    else let held = s.descriptors ++ fd ∷ [] in
      elim fork [
        | child_runs ↦ record s {
          descriptors = held;
          sessions =
              s.sessions
              ++ record {
                socket = fd;
                path = path;
                args = session_args s.verbose fd;
                descriptors = held;
              }
                ∷ [];
        }
        | child_exits ↦ record s { descriptors = held }
        | no_child ↦ record s { descriptors = close_descriptor fd held }
      ]

-- `handleEvent`; the program stands in the directory of the server's own.
unfoldable pub handle_event : Option Bytes → ℤ → Fork → Server → Result Server
unfolding accepted
handle_event link fd fork s = elim (path_for_executable link) [
  | ok installed ↦ ok (accepted (before_slash installed ++ lit "/rsession") fd fork s)
  | Result.raised e ↦ Result.raised e
  | undefined ↦ undefined
]

-- `terminate`
unfoldable pub terminate : Server → Server
terminate s = record s { loop_ended = true }
