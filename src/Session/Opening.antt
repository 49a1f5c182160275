-- ===== src/Session/Opening.antt =====
-- src/RSession.cpp: opening and closing a session.
pub mod Flags
pub mod Stable
pub mod Answers
use rc2compute.Prelude.{
  Bool, true, false, not, [], ◌∷◌, ◌++◌, Bytes, length, lit, ltb, if◌then◌else◌,
}
use rc2compute.Effects.{
  Exn, runtime_error, is_runtime_error, what, ok, Exec, pure, raise, crash, gets, modify, try_catch,
  ◌>>=◌, ◌>>◌,
}
use rc2compute.Numbers.{pos, eq_ℤ}
use rc2compute.Utils.{escape_quotes, make_directory_path, directory_at}
use rc2compute.World.{World}
use rc2compute.Database
use rc2compute.Command.{JsonCommand, value_for_key}
use rc2compute.FileManager
use rc2compute.FileManager.Interface.{init_file_manager, load_r_data, save_r_data}
use rc2compute.Session.{Platform, Session, in_manager, in_world, lift, send, eval}

module _ (pf : Platform) where
  open pf use {world, js, ev, watcher}
  open js use {
    J, null, parse, dump, is_null, int_at, value_bool, value_int, string, number, boolean, array,
    object,
  }

  unfoldable pub handle_save_env : Exec (Session pf) (Unit {0})
  handle_save_env = do eval pf (lit "save.image()"); in_manager pf (save_r_data world)

  unfoldable pub handle_close : Exec (Session pf) (Unit {0})
  handle_close = do
    closed ← gets (λ s. s.properly_closed)
    if closed then pure tt else do
      modify (λ s. record s { properly_closed = true })
      handle_save_env
      modify (λ s. record s { loop_broken = true })

  connect_text : Bytes → Bytes → Bytes → Bytes → Bytes
  connect_text user host name password =
      (lit "postgresql://"
        ++ (user
            ++ (lit "@"
                ++ (host
                    ++ (lit "/" ++ (name ++ lit "?application_name=rsession&sslmode=disable"))))))
      ++ (if ltb 0 (length password) then lit "&password=" ++ password else [])

  -- The working directory of a session that is being opened.
  pub work_dir : Exec (Session pf) Bytes
  work_dir = do
    name ← in_world pf (λ d. let (n, e) = World.uuid world d in (ok n, e))
    let dir = lit "/tmp/" ++ name
    code ← in_world pf (λ d. let (c, e) = make_directory_path world dir 0x1ed d in (ok c, e))
    if not (eq_ℤ code (pos 0))
        then raise (runtime_error (lit "failed to create working directory"))
        else pure tt
    made ← in_world pf (directory_at world dir)
    modify (λ s. record s { tmp_dir = made })
    pure dir

  pub prepare_r : Bytes → Bool → Exec (Session pf) (Unit {0})
  prepare_r dir have_rdata = do
    eval pf (lit "setwd(\"" ++ (escape_quotes dir ++ lit "\")"))
    modify (λ s. record s { ignore_output = true })
    eval pf (lit "library(rc2)")
    eval pf (lit "library(rmarkdown)")
    eval pf (lit "library(tools)")
    eval pf (lit "rm(argv)")
    eval pf (lit "options(device = \"rc2.pngdev\", bitmapType = \"cairo\")")
    if have_rdata then (do eval pf (lit "load(\".RData\")"); pure tt) else pure tt
    modify (λ s. record s { ignore_output = false })

  -- The try block of `handleOpenCommand`.
  open_body : JsonCommand js → Exec (Session pf) (Unit {0})
  open_body command = do
    rec_id ← lift pf (int_at command.cmd (lit "sessionRecId"))
    modify (λ s. record s { session_rec_id = rec_id })
    host ← lift pf (value_for_key js command (lit "dbhost"))
    user ← lift pf (value_for_key js command (lit "dbuser"))
    name ← lift pf (value_for_key js command (lit "dbname"))
    password ← lift pf (value_for_key js command (lit "dbpass"))
    ready ← gets (λ s. s.base_ready)
    if not ready then crash else pure tt
    dir ← work_dir
    in_manager pf
        (FileManager.in_db world (Database.connect world (connect_text user host name password)))
    wspace ← gets (λ s. s.wspace_id)
    in_manager pf (init_file_manager world dir wspace rec_id)
    have_rdata ← in_manager pf (load_r_data world)
    prepare_r dir have_rdata
    send pf (object ((lit "msg", string (lit "openresponse")) ∷ (lit "success", boolean true) ∷ []))
    modify (λ s. record s { opened = true })

  abbrev open_failed : Exn → J
  open_failed e = object (
      (lit "msg", string (lit "openresponse"))
      ∷ (lit "success", boolean false)
      ∷ (lit "errorMessage", string (what e))
      ∷ [])

  unfoldable pub handle_open : JsonCommand js → Exec (Session pf) (Unit {0})
  unfolding open_body work_dir prepare_r connect_text
  handle_open command = do
    already ← gets (λ s. s.opened)
    if already then pure tt else do
      wspace ← lift pf (int_at command.cmd (lit "wspaceId"))
      modify (λ s. record s { wspace_id = wspace })
      try_catch (open_body command) is_runtime_error (λ e. send pf (open_failed e))
