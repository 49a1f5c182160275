-- ===== src/Tests/Files.antt =====
-- The workspace's files on a concrete disk and server.
use rc2compute.Prelude.{◌≡◌, refl, true, false, some, arith, lit}
use rc2compute.Effects.{ok}
use rc2compute.Effects.Hoare.{Post}
use rc2compute.Numbers.{ℤ, pos, succ, to_s32}
use rc2compute.Map.{find}
use rc2compute.Database.Transactions.{Flag, Ended, in_transaction}
use rc2compute.FileSource.Load.{record_row}
use rc2compute.FileSource.Store.{insert_db_file, update_db_file, save_rdata}
use rc2compute.FileSource.Transacting.{With}
use rc2compute.FileSource.Atomic.{Stored, Same, insert_db_file-atomic}
use rc2compute.FileSource.Updates.{VersionIs, update_db_file-version}
use rc2compute.FileSource.Saving.{save_rdata-closes}
use rc2compute.FileSource.Rows.{record_row-object}
use rc2compute.Tests.{test_world, one_file}

insert_db_file-atomic_example :
    Post
      (λ id. With test_world (Ended true) (Stored test_world one_file.files_by_id 9 (lit "b.R") id))
      (With test_world (Ended false) (Same test_world one_file.files_by_id 9 (lit "b.R")))
      (insert_db_file test_world (lit "b.R") one_file)
unfolding in_transaction
insert_db_file-atomic_example =
    insert_db_file-atomic test_world (lit "b.R") one_file (record { agree = refl })

update_db_file-version_example :
    Post
      (λ _. With test_world (Ended true) (VersionIs test_world 8 (to_s32 (succ (pos 2)))))
      (With test_world (Flag false) (VersionIs test_world 8 (pos 2)))
      (update_db_file test_world 8 one_file)
unfolding in_transaction
update_db_file-version_example =
    update_db_file-version test_world 8 one_file (record { server = refl; object = refl })

save_rdata-closes_example :
    Post
      (λ _ t. Flag {w = test_world} false t.db)
      (λ t. Flag {w = test_world} false t.db)
      (save_rdata test_world one_file)
unfolding in_transaction
save_rdata-closes_example =
    save_rdata-closes test_world one_file (record { server = refl; object = refl })

record_row-object_example :
    let (r, t) = record_row test_world 5 3 (lit "renamed.R") one_file in
    (r ≡ ok tt)
    × (find (pos 5) t.files_by_id ≡ some (some 8))
    × ((t.objects 8).version ≡ pos 3)
    × ((t.objects 8).name ≡ lit "renamed.R")
    × ((t.objects 8).path ≡ lit "a.R")
unfolding find rc2compute.Numbers.eq_ℤ
record_row-object_example =
    record_row-object test_world 5 3 (lit "renamed.R") one_file (some 8) (omega arith) refl
