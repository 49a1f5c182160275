-- ===== src/FileManager/Consistency.antt =====
-- src/FileManager.cpp: from `initFileManager` on, the map of files by id stays consistent with its objects.
use rc2compute.Prelude.{[], Bytes}
use rc2compute.Effects.{modify, ◌>>=◌}
use rc2compute.Effects.Hoare.{Post, by_weaken}
use rc2compute.Numbers.{ℤ}
use rc2compute.World.{World}
use rc2compute.FileSource.{new_source, set_working_dir}
use rc2compute.FileSource.Consistent.{IsConsistent, AllOwn}
use rc2compute.FileSource.Operations.{IsConsistent-IsStable, initialize_source-Steady}
use rc2compute.FileManager.{Manager}
use rc2compute.FileManager.Beginning.{IsInitial, init_file_manager-Keeps}
use rc2compute.FileManager.Interface.{init_file_manager}
use rc2compute.FileManager.Window.{Invariant, AnyImages, AnyImages-IsCollected, Holds}
use rc2compute.FileManager.Steps.{Reaches, Reaches-Holds}

module _ (w : World) where
  -- Nothing is said of the flag and the timers.
  abbrev consistent : Invariant w
  consistent = record {
    Flags = λ flag timers. Unit {0};
    Files = IsConsistent w;
    Images = AnyImages;
    stable = IsConsistent-IsStable w;
    collected = AnyImages-IsCollected;
  }

  consistent-IsInitial : IsInitial w consistent
  unfolding set_working_dir new_source
  consistent-IsInitial = record {
    makes = λ dir s h. record { at = tt };
    initializes = initialize_source-Steady w;
    first_batch = λ batch ids h. tt;
  }

  -- After `initFileManager`, in whatever state, and after any file events, notifications, commands and timers,
  -- every object in the map of files has been made, and its id is the key of its entry
  -- as far as 32 bits hold it. This is so, too, if `initFileManager` throws.
  pub Reaches-consistent :
      (dir : Bytes) (wspace_id rec : ℤ) (s : Manager w)
      → Post
          (λ _ t.
            (u : Manager w)
            → Reaches w t u
            → AllOwn u.source.objects u.source.next_ptr u.source.files_by_id)
          (λ t.
            (u : Manager w)
            → Reaches w t u
            → AllOwn u.source.objects u.source.next_ptr u.source.files_by_id)
          (init_file_manager w dir wspace_id rec s)
  unfolding init_file_manager modify ◌>>=◌ new_source
  Reaches-consistent dir wspace_id rec s =
      (by_weaken (init_file_manager w dir wspace_id rec) (λ _. later) later
          (init_file_manager-Keeps w consistent consistent-IsInitial dir wspace_id rec)).at
        (record s { source = record s.source { files_by_id = [] } })
        (record { at = tt; files = record { at = tt }; images = tt })
    where
      later :
          (t : Manager w)
          → Holds w consistent t
          → (u : Manager w) → Reaches w t u
          → AllOwn u.source.objects u.source.next_ptr u.source.files_by_id
      later t h u r =
          (Reaches-Holds w consistent (record { starts = λ n k. tt }) (λ batch ids k. tt)
            (λ flag n p k. tt) t u h r).files.at
