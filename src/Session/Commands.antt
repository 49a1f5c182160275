-- ===== src/Session/Commands.antt =====
-- src/RSession.cpp: which commands a session obeys before and after it is opened.
use rc2compute.Prelude.{
  ◌<◌, ◌≡◌, ◌≢◌, refl, Bool, true, false, arith, Bytes, length, ltb, if◌then◌else◌,
}
use rc2compute.Effects.{ok, Exec, pure, gets, modify, try_catch, ◌>>=◌, ◌>>◌}
use rc2compute.Numbers.{pos}
use rc2compute.Command.{JsonLib, JsonCommand, CommandType, open_session, parsed, make_command}
use rc2compute.Session.{Platform, Session}
use rc2compute.Session.Opening.{handle_open}
use rc2compute.Session.Dispatch.{handle_command, run_document, handle_json_command}

not_empty : (json : Bytes) → 0 < length json → ltb (length json) 1 ≡ false
not_empty json full = ground arith

-- Whether the command is `open`.
abbrev pub opens : CommandType → Bool
opens open_session = true
opens _ = false

opens-open : (t : CommandType) → opens t ≡ true → t ≡ open_session
opens-open open_session h = refl
opens-open _ h = absurd (cc h)

opens-other : (t : CommandType) → opens t ≡ false → t ≢ open_session
opens-other open_session h = absurd (cc h)
opens-other _ h = λ e. absurd (cc e)

module _ (pf : Platform) where
  open pf use {js}

  ignored_command :
      (s : Session pf) (command : JsonCommand js)
      → s.opened ≡ false
      → handle_command pf command s ≡ (ok tt, s)
  unfolding handle_command ◌>>=◌ gets pure
  ignored_command s command closed = rw closed refl

  runs_nothing :
      (s : Session pf) (command : JsonCommand js) (type : CommandType)
      → type ≢ open_session
      → s.opened ≡ false
      → (elim type as (λ t. Exec (Session pf) Bool) [
        | open_session ↦ if s.opened then pure false else (do handle_open pf command; pure true)
        | _ ↦ (do handle_command pf command; pure true)
      ])
          s
        ≡ (ok true, s)
  unfolding ◌>>=◌ pure
  runs_nothing s command open_session other closed = absurd (other refl)
  runs_nothing s command _ other closed = rw (ignored_command s command closed) refl

  run_before_open :
      (memory : CommandType) (doc : JsonLib.J js) (command : JsonCommand js) (s : Session pf)
      → make_command js memory doc ≡ ok command
      → command.type ≢ open_session
      → s.opened ≡ false
      → run_document pf memory doc s ≡ (ok true, s)
  unfolding run_document ◌>>=◌ gets pure
  run_before_open memory doc command s made other closed =
      rw (made, run_document) (runs_nothing s command command.type other closed)

  run_open_again :
      (memory : CommandType) (doc : JsonLib.J js) (command : JsonCommand js) (s : Session pf)
      → make_command js memory doc ≡ ok command
      → command.type ≡ open_session
      → s.opened ≡ true
      → run_document pf memory doc s ≡ (ok false, s)
  unfolding run_document ◌>>=◌ gets pure
  run_open_again memory doc command s made again already =
      rw (made, run_document, again, already) refl

  -- What follows the try block.
  after_run :
      (memory : CommandType) (json : Bytes) (doc : JsonLib.J js) (done : Bool) (s : Session pf)
      → 0 < length json
      → JsonLib.parse js json ≡ parsed doc
      → run_document pf memory doc s ≡ (ok done, s)
      → handle_json_command pf memory json s
        ≡ (ok tt, if done then record s { current_query_id = pos 0 } else s)
  unfolding handle_json_command ◌>>=◌ pure try_catch modify
  after_run memory json doc true s full read ran =
      rw (read, handle_json_command, not_empty json full, ran) refl
  after_run memory json doc false s full read ran =
      rw (read, handle_json_command, not_empty json full, ran) refl

  refused :
      (memory : CommandType) (json : Bytes) (doc : JsonLib.J js) (command : JsonCommand js)
      (s : Session pf) (open_now : Bool)
      → 0 < length json
      → JsonLib.parse js json ≡ parsed doc
      → make_command js memory doc ≡ ok command
      → opens command.type ≡ open_now
      → s.opened ≡ open_now
      → handle_json_command pf memory json s
        ≡ (ok tt, if open_now then s else record s { current_query_id = pos 0 })
  refused memory json doc command s true full read made again already =
      after_run memory json doc false s full read
        (run_open_again memory doc command s made (opens-open command.type again) already)
  refused memory json doc command s false full read made other closed =
      after_run memory json doc true s full read
        (run_before_open memory doc command s made (opens-other command.type other) closed)

  -- A command that does not fit does nothing: no code is run and nothing is sent. Before the session is
  -- open these are all commands but `open`, and the id of the current query is 0 as after every
  -- command; once it is open it is `open`, and then not even that id changes.
  pub handle_json_command-refused :
      (memory : CommandType) (json : Bytes) (doc : JsonLib.J js) (command : JsonCommand js)
      (s : Session pf)
      → 0 < length json
      → JsonLib.parse js json ≡ parsed doc
      → make_command js memory doc ≡ ok command
      → opens command.type ≡ s.opened
      → handle_json_command pf memory json s
        ≡ (ok tt, if s.opened then s else record s { current_query_id = pos 0 })
  handle_json_command-refused memory json doc command s full read made unfit =
      refused memory json doc command s s.opened full read made unfit refl
