-- ===== src/FileSource/Stable.antt =====
-- src/DBFileSource.cpp: what every operation of a source keeps, as the file manager needs it.
use rc2compute.Prelude.{◌≡◌, Bytes}
use rc2compute.Effects.Hoare.{Triple, any_outcome}
use rc2compute.Numbers.{ℤ}
use rc2compute.Map.{erase}
use rc2compute.World.{World}
use rc2compute.Database.{Db}
use rc2compute.FileSource.{Source, DbFileInfo, Ptr, update, file_at}
use rc2compute.FileSource.Load.{load_files}
use rc2compute.FileSource.Store.{insert_db_file, update_db_file, remove_db_file}

-- A property that a change of the connection, of an object but for its id, and the loss of an entry keep, and
-- every operation on every way out.
pub record IsStable (w : World) (S : Source w → Type 0) : Type 0 where
  pub db : (s : Source w) (d : Db w) → S s → S (record s { db = d })
  pub changed :
      (p : Ptr) (f : DbFileInfo) (s : Source w)
      → f.id ≡ (s.objects p).id
      → S s
      → S (record s { objects = update s.objects p f })
  pub erased : (id : ℤ) (s : Source w) → S s → S (record s { files_by_id = erase id s.files_by_id })
  pub finds : (id : ℤ) → Triple S (file_at w id) (λ _. S) S
  pub loads : (clause : Bytes) → Triple S (load_files w clause) (λ _. S) S
  pub inserts : (name : Bytes) → Triple S (insert_db_file w name) (λ _. S) S
  pub updates : (p : Ptr) → Triple S (update_db_file w p) (λ _. S) S
  pub removes : (p : Ptr) → Triple S (remove_db_file w p) (λ _. S) S

pub anything-IsStable : (w : World) → IsStable w (λ s. Unit {0})
anything-IsStable w = record {
  db = λ s d h. tt;
  changed = λ p f s e h. tt;
  erased = λ id s h. tt;
  finds = λ id. any_outcome _;
  loads = λ clause. any_outcome _;
  inserts = λ name. any_outcome _;
  updates = λ p. any_outcome _;
  removes = λ p. any_outcome _;
}
