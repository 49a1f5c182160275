-- ===== src/FileSource/Rows.antt =====
-- src/DBFileSource.cpp: what the loop of `loadFiles` records of one row.
use rc2compute.Prelude.{ℕ, ◌^◌, ◌<◌, ◌≡◌, Option, none, some, arith, Bytes}
use rc2compute.Effects.{ok, pure, gets, modify, ◌>>=◌}
use rc2compute.Numbers.{pos, to_u32}
use rc2compute.Map.{find, find-insert, eq_ℤ_refl}
use rc2compute.World.{World}
use rc2compute.FileSource.{Source, Ptr, new_file}
use rc2compute.FileSource.Load.{record_row}

-- What the map has for an id: nothing, or an object.
abbrev pub entry : Option Ptr → Option (Option Ptr)
entry none = none
entry (some p) = some (some p)

module _ (w : World) where
  record_row-new :
      (id version : ℕ) (name : Bytes) (s : Source w)
      → version < 2 ^ 32
      → find (pos id) s.files_by_id ≡ none
      → let (r, t) = record_row w id version name s in
        (r ≡ ok tt)
        × (find (pos id) t.files_by_id ≡ some (some s.next_ptr))
        × ((t.objects s.next_ptr).version ≡ pos version)
        × ((t.objects s.next_ptr).name ≡ name)
        × ((t.objects s.next_ptr).path ≡ name)
  unfolding record_row new_file to_u32 ◌>>=◌ modify
  record_row-new id version name s small fresh =
      rw (fresh, record_row)
        (ground (
          arith,
          find-insert (pos id) (pos id) (some s.next_ptr) s.files_by_id fresh,
          eq_ℤ_refl (pos id),
        ))

  record_row-known :
      (id version : ℕ) (name : Bytes) (s : Source w) (p : Ptr)
      → find (pos id) s.files_by_id ≡ some (some p)
      → let (r, t) = record_row w id version name s in
        (r ≡ ok tt)
        × (find (pos id) t.files_by_id ≡ some (some p))
        × ((t.objects p).version ≡ pos version)
        × ((t.objects p).name ≡ name)
        × ((t.objects p).path ≡ (s.objects p).path)
  unfolding record_row ◌>>=◌ gets pure modify
  record_row-known id version name s p known = rw (known, record_row) (ground (arith, known))

  -- A row of the table leaves the id with one object, that of before or else a new one, which has the row's version
  -- and name. A new object has the name as its path; an object of before keeps its path, also when the
  -- name is another one, so after a rename the two differ. The id was not mapped to a null pointer.
  pub record_row-object :
      (id version : ℕ) (name : Bytes) (s : Source w) (found : Option Ptr)
      → version < 2 ^ 32
      → find (pos id) s.files_by_id ≡ entry found
      → let p = elim found as (λ _. Ptr) [ none ↦ s.next_ptr | some q ↦ q ] in
        let (r, t) = record_row w id version name s in
        (r ≡ ok tt)
        × (find (pos id) t.files_by_id ≡ some (some p))
        × ((t.objects p).version ≡ pos version)
        × ((t.objects p).name ≡ name)
        × ((t.objects p).path
            ≡ elim found as (λ _. Bytes) [ none ↦ name | some q ↦ (s.objects q).path ])
  record_row-object id version name s none small there =
      record_row-new id version name s small there
  record_row-object id version name s (some p) small there =
      record_row-known id version name s p there
