-- ===== src/Lib.antt =====
-- rsession is the process that runs R for one client of the Rc2 server. The server process
-- accepts a connection and starts an rsession with the socket. The client sends framed JSON commands; the
-- session runs code in an embedded R, sends back framed JSON messages, and keeps the files of the client's
-- workspace the same on disk and in a PostgreSQL database.
--
-- The parts, and the files that model them:
--   InputBuffer, Frame, Word: src/InputBufferManager.cpp, and the frame that RSession::sendJsonToClientSource
--     writes. A message is a header of two 32-bit words in network order and the text. `append_data` is
--     InputBufferManager::appendData, with the 32-bit sum written out; `none` is a read past the end.
--   Command: src/JsonCommand.hpp. `command_type` takes what the uninitialised member holds as an argument.
--   Database: common/PGDBConnection.cpp and common/PostgresUtils.hpp. `Db` is a connection: the world behind
--     it, what was sent with the status of each answer, and the flag of the DBTransaction in scope.
--     `close_transaction` is its destructor.
--   FileSource (Load, Store): src/DBFileSource.cpp. A DBFileInfoPtr is an address in `objects`, so the file
--     manager's map by watch descriptor and the source's map by id share objects.
--   FileManager (Images, Watches, Notifications, Interface): src/FileManager.cpp. `handle_inotify_event` takes
--     the events of one read, and `handle_db_notifications` the payloads that are waiting. FileManager.Steps has
--     the events of a manager in any order; FileManager.Window has an
--     invariant of the flag, the files and the images that all of them keep, and initFileManager as well
--     (FileManager.Beginning). A call of initFileManager makes a new source.
--   Session (Execute, Opening, Dispatch): src/RSession.cpp. `handle_read` is handleJsonStatic, from which every
--     command comes; `dispatch` is the switch of handleCommand; `run_task` is a scheduled event.
--     Session.Reads calls `handle_read` once for each read, Session.Steps has the events of a session in any
--     order, and Session.Starting what main does before them (src/RSession-main.cpp). `execute_callback` of
--     Session.Callback is the function of getExecuteCallback. Session.Stable, with a child of that name in
--     Execute, Opening and Dispatch, has the predicates of what is written, scheduled and waiting that every
--     command keeps; Session.Stream, Session.Order, Session.Lifecycle and Session.Opening.Answers
--     fill them.
--   Events: common/Event.cpp and common/EventBase.cpp, which no target of the build compiles. Events.EventLib
--     stands for libevent.
--   Values (Frames, Primitives, Documents): src/EnvironmentWatcher.cpp, the JSON document of an R value.
--     `value_body` is the body of valueToJson with its nested calls as an argument, and `value_to_json` ties the
--     knot with a bound on their depth, the room on the stack. A document under construction is its list of
--     members.
--   Environment (Order): the rest of src/EnvironmentWatcher.cpp. `environment_watcher` fills the interface
--     Session.Watcher. std::sort and std::set_difference are written out.
--   Server: src/RServer.cpp. `accepted` is handleEvent after the answer of accept, with that of fork.
--   Utils: common/RC2Utils.cpp and `escape_quotes` of src/RSession.cpp.
--   Effects, Numbers, Map: C++ exceptions over a state, `long` values and their decimal text, std::map.
--   World: what the program calls and does not implement, one record of functions of an abstract state, of
--     which nothing is assumed: libpq and the server, the file system, inotify, R, boost's regular expressions.
--     The laws that a theorem needs are its hypotheses: those of libevent's buffer in InputBuffer.Evbuffer, splitting
--     at a slash in FileManager.Messages.IsSplit, and the form of the answer to help in World.AnswersHelp. Command.JsonLib stands for nlohmann::json, and
--     Rcpp for R and Rcpp: objects behind handles, and R's environments.
--
-- A C++ function is a function from the state to a result and the next state (Effects.Exec). The result is a
-- value, an exception, or undefined behaviour, such as a null pointer that is read through; what was written
-- before a throw stays written. Effects.Hoare has the rules by which pre- and postconditions are proved, one
-- postcondition for a return and one for a throw; after undefined behaviour nothing is claimed. Effects.Keeps
-- has the rules for a predicate that an action keeps, as a ruleset with which `search` proves whole do blocks.
--
-- Bounds: the 32-bit arithmetic of the framing and the conversions to uint32_t are written out. The next
-- version of a file is an `int`, as in updateDBFile, and written out too (Numbers.to_s32). A `long` is otherwise
-- unbounded; the numbers of files, workspaces, sessions and queries stay far below 2 ^ 63. A file is
-- shorter than 2 ^ 31 bytes, whose size libpq takes as an `int`. `digits`, the decimal printer, has a fuel of
-- one more than the number; Numbers.Decimal proves that this is enough. The fuel of `value_to_json` is the room on
-- the stack: what happens at its end is a parameter, and Values.Termination and Values.Faults say for which values
-- it is reached. All other loops are structural.
--
-- Not modelled: logging, environment variables, the parsing of command lines and the running of the
-- libevent loop, of which only the outcome is an argument, signal handlers, the R callbacks, and
-- common/ScopeGuard.hpp, which nothing uses. The interleaving of events is an explicit sequence of steps
-- (Session.Steps, FileManager.Steps, Server.Processes).
mod Prelude
pub mod Word
pub mod Frame
pub mod Effects
pub mod Numbers
pub mod Map
pub mod World
pub mod Database
pub mod Utils
pub mod Command
pub mod Rcpp
pub mod Values
pub mod Environment
pub mod Events
pub mod Server
pub mod FileSource
pub mod FileManager
pub mod Session
mod Tests
pub mod InputBuffer
