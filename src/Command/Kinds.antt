-- ===== src/Command/Kinds.antt =====
-- src/JsonCommand.hpp: which kind of command a message is.
use rc2compute.Prelude.{[], ◌≡◌, refl, Bytes, lit, same}
use rc2compute.Command.{
  CommandType, unknown, open_session, close, clear_file_changes, exec_script, exec_file, help,
  list_variables, get_variable, toggle_watch, save_data, command_type,
}

-- The word of the protocol for each kind, and none for `unknown`.
unfoldable pub word : CommandType → Bytes
word unknown = []
word open_session = lit "open"
word close = lit "close"
word save_data = lit "saveEnv"
word clear_file_changes = lit "clearFileChanges"
word exec_script = lit "execScript"
word exec_file = lit "execFile"
word help = lit "help"
word list_variables = lit "listVariables"
word get_variable = lit "getVariable"
word toggle_watch = lit "toggleVariableWatch"

-- The word of a kind gives that kind, whatever the member held before; so no two kinds share a word. The empty
-- word leaves the member as it was, which is uninitialised memory.
pub command_type-word :
    (memory type : CommandType)
    → command_type memory (word type) ≡ (elim type [ unknown ↦ memory | t ↦ t ])
unfolding command_type word same lit
command_type-word memory unknown = refl
command_type-word memory open_session = refl
command_type-word memory close = refl
command_type-word memory save_data = refl
command_type-word memory clear_file_changes = refl
command_type-word memory exec_script = refl
command_type-word memory exec_file = refl
command_type-word memory help = refl
command_type-word memory list_variables = refl
command_type-word memory get_variable = refl
command_type-word memory toggle_watch = refl
