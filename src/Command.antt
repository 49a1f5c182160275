-- ===== src/Command.antt =====
-- src/JsonCommand.hpp: the commands of the client. The JSON library (vendor/json.hpp) is a
-- parameter: documents of an abstract type, the accessors that may throw, the constructors of
-- documents, the parser and the printer.
pub mod Kinds
use rc2compute.Prelude.{
  Bool, true, false, Option, none, some, List, [], Bytes, lit, same, if◌then◌else◌,
}
use rc2compute.Effects.{Exn, logic_error, out_of_range, Result, ok, raised, undefined}
use rc2compute.Numbers.{ℤ}

-- `istr >> doc`: a document, a thrown `std::invalid_argument`, or another exception, after which
-- the document is what it was.
pub data Parsed {ℓ} (A : Type ℓ) : Type ℓ where
  parsed : A → Parsed A
  invalid_argument other_exception : Parsed A

pub record JsonLib : Type 1 where
  pub J : Type 0
  pub null : J
  pub parse : Bytes → Parsed J
  pub dump : J → Bytes
  pub is_null : J → Bool
  -- `doc[key]` converted to a string
  pub string_at : J → Bytes → Result Bytes
  pub int_at : J → Bytes → Result ℤ
  pub member : J → Bytes → Option J
  -- `doc.value(key, default)`
  pub value_string : J → Bytes → Bytes → Result Bytes
  pub value_bool : J → Bytes → Bool → Result Bool
  pub value_int : J → Bytes → ℤ → Result ℤ
  pub string : Bytes → J
  pub number : ℤ → J
  pub boolean : Bool → J
  pub array : List J → J
  pub object : List (Bytes × J) → J

-- `open` is a word of the language, so `CommandType::Open` is `open_session`.
pub data CommandType : Type 0 where
  unknown open_session close clear_file_changes exec_script exec_file : CommandType
  help list_variables get_variable toggle_watch save_data : CommandType

-- The chain of tests of the constructor; `memory` is what the member holds before, and stays if no
-- test holds, since there is no initialiser.
unfoldable pub command_type : CommandType → Bytes → CommandType
command_type memory msg =
    if same msg (lit "open")
    then open_session
    else if same msg (lit "close")
    then close
    else if same msg (lit "saveEnv")
    then save_data
    else if same msg (lit "clearFileChanges")
    then clear_file_changes
    else if same msg (lit "execScript")
    then exec_script
    else if same msg (lit "execFile")
    then exec_file
    else if same msg (lit "help")
    then help
    else if same msg (lit "listVariables")
    then list_variables
    else if same msg (lit "getVariable")
    then get_variable
    else if same msg (lit "toggleVariableWatch")
    then toggle_watch
    else memory

module _ (js : JsonLib) where
  open js use {J, string_at, value_string, value_bool, member, object, is_null}

  pub record JsonCommand : Type 0 where
    pub cmd : J
    pub type : CommandType

  unfoldable pub make_command : CommandType → J → Result JsonCommand
  make_command memory doc = elim (string_at doc (lit "msg")) [
    | ok msg ↦ ok (record { cmd = doc; type = command_type memory msg })
    | raised e ↦ raised e
    | undefined ↦ undefined
  ]

  unfoldable pub argument : JsonCommand → Result Bytes
  argument c = value_string c.cmd (lit "argument") []

  unfoldable pub start_time_str : JsonCommand → Result Bytes
  start_time_str c = value_string c.cmd (lit "startTime") []

  unfoldable pub watch_variables : JsonCommand → Result Bool
  watch_variables c = value_bool c.cmd (lit "watchVariables") false

  -- A missing member is the document `{}`.
  unfoldable pub client_data : JsonCommand → J
  client_data c = elim (member c.cmd (lit "clientData")) [ none ↦ object [] | some j ↦ j ]

  -- A null member, which `doc[key]` makes of a missing one, is the empty text, and so is a conversion that
  -- throws `std::out_of_range`.
  unfoldable pub value_for_key : JsonCommand → Bytes → Result Bytes
  value_for_key c key = elim (member c.cmd key) [
    | none ↦ ok []
    | some j ↦
        if is_null j
        then ok []
        else elim (string_at c.cmd key) [ raised out_of_range ↦ ok [] | r ↦ r ]
  ]
