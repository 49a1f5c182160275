-- ===== src/FileSource.antt =====
-- src/DBFileSource.cpp and its header, the state and what its operations share: the files of a workspace, on disk and in the database.
-- A `DBFileInfoPtr` is an address in `objects`, shared with the file manager; `none` is null.

pub mod Load
pub mod Transacting
pub mod Atomic
pub mod Saving
pub mod Updates
pub mod Rows
pub mod Steady
pub mod Stable
pub mod Consistent
pub mod Operations
pub mod Store
use rc2compute.Prelude.{
  ℕ, suc, ◌+◌, ◌≡◌, Bool, true, false, not, Option, none, some, List, [], ◌∷◌, ◌++◌, Bytes, length,
  lit, ltb, ◌==◌, if◌then◌else◌,
}
use rc2compute.Effects.{
  Exn, runtime_error, formatted, bad_alloc, Result, ok, raised, Exec, pure, raise, crash, gets,
  modify, finally, ◌>>=◌, ◌>>◌,
}
use rc2compute.Numbers.{ℤ, pos, to_u32, show, show_ℕ, succ, lt_ℤ}
use rc2compute.Map.{Map, find, assign, insert, erase}
use rc2compute.World.{Statement, DbResult, World}
use rc2compute.Database
use rc2compute.Database.{
  Db, plain, execute, long_from_query, start_transaction, commit, close_transaction, rows_returned,
  rows_affected, is_command_ok, data_returned, get_value,
}

-- `sb` is the part of the `stat` buffer that is read, `none` before the first `stat`.
pub record DbFileInfo : Type 0 where
  pub id : ℤ
  pub version : ℤ
  pub name : Bytes
  pub path : Bytes
  pub watch_descriptor : ℤ
  pub sb : Option ℕ

abbrev pub Ptr : Type 0
Ptr = ℕ

abbrev pub update {ℓ} : {A : Type ℓ} → (ℕ → A) → ℕ → A → ℕ → A
update f p v q = if p == q then v else f q

module _ (w : World) where
  open w use {
    W, escape_literal, stat, read_file, write_file, exists, remove_file, append_path, garbage,
  }

  pub record Source : Type 0 where
    pub db : Db w
    pub wspace_id : ℤ
    pub working_dir : Bytes
    pub objects : Ptr → DbFileInfo
    pub next_ptr : Ptr
    pub files_by_id : Map (Option Ptr)

  abbrev pub in_db : {A : Type 0} → Exec (Db w) A → Exec Source A
  in_db m s = let (r, d) = m s.db in (r, record s { db = d })

  abbrev pub on_disk : (W → W) → Source → Source
  on_disk f s = record s { db = record s.db { world = f s.db.world } }

  -- `new DBFileInfo(id, version, name)`: both numbers pass through `uint32_t`.
  unfoldable pub new_file : ℤ → ℤ → Bytes → Exec Source Ptr
  new_file id version name s = (
    ok s.next_ptr,
    record s {
      next_ptr = suc s.next_ptr;
      objects = update s.objects s.next_ptr (record {
        id = pos (to_u32 id);
        version = pos (to_u32 version);
        name = name;
        path = name;
        watch_descriptor = garbage s.db.world;
        sb = none;
      });
    },
  )

  abbrev pub set_object : Ptr → DbFileInfo → Exec Source (Unit {0})
  set_object p f = modify (λ s. record s { objects = update s.objects p f })

  abbrev pub deref : Option Ptr → Exec Source Ptr
  deref none = crash
  deref (some p) = pure p

  -- `filesById_[id]`, which puts a null pointer under a missing key
  unfoldable pub file_at : ℤ → Exec Source (Option Ptr)
  file_at id s = elim (find id s.files_by_id) [
    | some p ↦ (ok p, s)
    | none ↦ (ok none, record s { files_by_id = assign id none s.files_by_id })
  ]

  -- `ReadFileBlob` of common/RC2Utils.cpp: a file that cannot be opened has the size -1, and the
  -- allocation fails.
  unfoldable pub read_file_blob : Bytes → Exec Source Bytes
  read_file_blob path s = elim (read_file s.db.world path) [
    | none ↦ (raised bad_alloc, s)
    | some content ↦ (ok content, s)
  ]

  -- A scope that begins with `DBTransaction trans = dbcon_->startTransaction();`
  abbrev pub transaction : {A : Type 0} → Exec Source A → Exec Source A
  transaction body =
      in_db (start_transaction w) >> finally body (λ s. record s { db = close_transaction w s.db })

  abbrev pub filesystem_error : Exn
  filesystem_error = runtime_error (lit "boost::filesystem")

  -- `fs::remove`
  unfoldable pub remove_from_disk : Bytes → Exec Source (Unit {0})
  remove_from_disk path s = elim (remove_file s.db.world path) [
    | none ↦ (raised filesystem_error, s)
    | some next ↦ (ok tt, on_disk (λ d. next) s)
  ]

  abbrev pub in_dir : Bytes → Source → Bytes
  in_dir name s = s.working_dir ++ (lit "/" ++ name)

  -- `new DBFileSource()`: it knows no file, and the id of its workspace is not set. The connection, and the
  -- objects that exist, are the model's.
  unfoldable pub new_source : Source → Source
  new_source s = record s { wspace_id = garbage s.db.world; working_dir = []; files_by_id = [] }

  unfoldable pub set_working_dir : Bytes → Source → Source
  set_working_dir dir s = record s { working_dir = dir }

  unfoldable pub initialize_source : ℤ → Exec Source (Unit {0})
  initialize_source wsid = do
    modify (λ s. record s { wspace_id = wsid })
    r ← in_db (execute w (plain (lit "select id,name from rcworkspace where id = " ++ show wsid)))
    n ← in_db (rows_returned w r)
    if ltb n 1 then raise (runtime_error (lit "invalid workspace id: " ++ show wsid)) else pure tt
