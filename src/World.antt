-- ===== src/World.antt =====
-- What the program calls and does not implement: libpq and the server behind it, the file system,
-- inotify, the memory that C++ leaves uninitialised. All of it is one abstract state, and each
-- call is a function of that state; nothing is assumed of the answers.
use rc2compute.Prelude.{ℕ, ◌≡◌, Bool, true, Option, List, Bytes}
use rc2compute.Effects.{Exn, Result, raised, is_runtime_error}
use rc2compute.Numbers.{ℤ}

-- A command text and its binary parameters.
pub record Statement : Type 0 where
  pub text : Bytes
  pub params : List Bytes

-- The values of `PQresultStatus` that the program tells apart.
pub data ExecStatus : Type 0 where
  command_ok tuples_ok failed : ExecStatus

-- A `PGresult`: `cells` holds the values by row and column.
pub record DbResult : Type 0 where
  pub status : ExecStatus
  pub cells : List (List Bytes)
  pub affected : Bytes
  pub error_message : Bytes

-- The outcomes of `mkdir` that the program tells apart.
pub data MkDir : Type 0 where
  made there_already refused : MkDir

-- The outcomes of evaluating R code, and one call of the console callback while it runs: the text,
-- whether it is an error, and the value of `R_Visible` at that moment.
pub data EvalResult : Type 0 where
  pe_success pe_incomplete pe_error : EvalResult

pub record Console : Type 0 where
  pub text : Bytes
  pub is_error : Bool
  pub visible : Bool

pub record World : Type 1 where
  pub W : Type 0
  -- libpq
  pub query : W → Statement → DbResult × W
  pub escape_literal : W → Bytes → Bytes
  pub consume_input : W → Bool × W
  pub notifies : W → Option (Bytes × Bytes) × W
  pub connect_db : W → Bytes → Option Bytes × W
  -- the file system; `stat` gives the time of the last change
  pub stat : W → Bytes → Option ℕ
  pub read_file : W → Bytes → Option Bytes
  pub write_file : W → Bytes → Bytes → W
  pub utime : W → Bytes → ℕ → W
  pub exists : W → Bytes → Bool
  pub is_directory : W → Bytes → Bool
  pub file_size : W → Bytes → Option ℕ
  -- `none` is a thrown filesystem_error
  pub remove_file : W → Bytes → Option W
  pub remove_all : W → Bytes → Option W
  pub mkdir : W → Bytes → ℕ → MkDir × W
  pub copy_file : W → Bytes → Bytes → Option W
  pub create_directories : W → Bytes → W
  pub append_path : Bytes → Bytes → Bytes
  pub stem : Bytes → Bytes
  pub extension : Bytes → Bytes
  pub parent_path : Bytes → Bytes
  pub uuid : W → Bytes × W
  -- a child process that runs `texi2pdf -b` on the path, and the wait for it
  pub texi2pdf : W → Bytes → W
  -- R: the outcome and the console output of a piece of code, and the paths that `help` returns: Rcpp takes
  -- them out of its answer, which throws if that is no list of two character vectors
  pub eval : W → Bytes → (EvalResult × List Console) × W
  pub help_paths : W → Result (List Bytes)
  -- inotify; a descriptor of -1 is a failure
  pub inotify_init : W → ℤ × W
  pub add_watch : W → ℤ → Bytes → ℕ → ℤ × W
  pub rm_watch : W → ℤ → ℤ → W
  pub inotify_enabled : W → Bool
  pub disable_inotify : W → W
  -- boost: the match of `rc2img(\\d+).png`, with its digits, and `split` at the character `/`
  pub image_number : Bytes → Option Bytes
  -- boost: the replacement of `\n\$value\n.*$` by a line end
  pub cut_value : Bytes → Bytes
  pub split_slash : Bytes → List Bytes
  -- what a new object's uninitialised `int` holds
  pub garbage : W → ℤ

-- The answer to `help` has the form that the rc2 package gives it, so that none of Rcpp's own exceptions, which
-- are no runtime_errors, is thrown where the paths are taken out of it.
pub record AnswersHelp (w : World) : Type 0 where
  pub converts :
      (d : World.W w) (e : Exn) → World.help_paths w d ≡ raised e → is_runtime_error e ≡ true
