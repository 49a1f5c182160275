-- ===== src/FileManager/Window.antt =====
-- src/FileManager.cpp: the window during which file system events are ignored, its timer, and what else the
-- handlers of events keep.
use rc2compute.Prelude.{
  refl, ap, sym, ◌∙◌, arith, ℕ, suc, ◌≡◌, Bool, true, false, Option, none, some, List, [], ◌∷◌,
  ◌++◌, Bytes, lit,
}
use rc2compute.Effects.{
  Result, ok, raised, undefined, Exn, stat_exception, formatted, Exec, pure, raise, modify,
}
use rc2compute.Effects.Hoare.{
  Triple, by_bind, by_if, by_option, by_pure, by_raise, by_gets, by_crash, by_modify, by_state,
  by_reads, by_weaken, Post,
}
use rc2compute.Numbers.{ℤ, pos, minus_one, eq_ℤ, lt_ℤ}
use rc2compute.World.{World}
use rc2compute.Database.{Db}
use rc2compute.FileSource.{Source, DbFileInfo, Ptr, set_object, read_file_blob, remove_from_disk}
use rc2compute.FileSource.Transacting.{IsFrame}
use rc2compute.FileSource.Stable.{IsStable, anything-IsStable}
use rc2compute.FileSource.Steady.{read_file_blob-Steady, remove_from_disk-Steady}
use rc2compute.FileManager.{
  Manager, in_source, in_db, world_of, object, deref, in_dir, rm_watch, add_watch, lookup_name,
}
use rc2compute.FileManager.Watches.{watch_file, file_mask}

-- A property of the flag and the number of timers that a first call of `ignoreFSNotifications` keeps.
pub record IsKept (P : Bool → ℕ → Type 0) : Type 0 where
  pub starts : (n : ℕ) → P false n → P true (suc n)

-- A property of the batch number and the ids of the images that is kept when a batch is chosen, where none
-- was, and when an image is stored.
pub record IsCollected (Q : ℤ → List ℤ → Type 0) : Type 0 where
  pub chooses :
      (batch next : ℤ) (ids : List ℤ) → lt_ℤ (pos 0) batch ≡ false → Q batch ids → Q next ids
  pub stores : (batch id : ℤ) (ids : List ℤ) → Q batch ids → Q batch (ids ++ id ∷ [])

-- A property of the flag and the timers, one of the files, and one of the images.
pub record Invariant (w : World) : Type 1 where
  pub Flags : Bool → ℕ → Type 0
  pub Files : Source w → Type 0
  pub Images : ℤ → List ℤ → Type 0
  pub stable : IsStable w Files
  pub collected : IsCollected Images

abbrev pub AnyImages : ℤ → List ℤ → Type 0
AnyImages batch ids = Unit {0}

pub AnyImages-IsCollected : IsCollected AnyImages
AnyImages-IsCollected = record {
  chooses = λ batch next ids off h. tt;
  stores = λ batch id ids h. tt;
}

abbrev pub flags_only : (w : World) → (Bool → ℕ → Type 0) → Invariant w
flags_only w P = record {
  Flags = P;
  Files = λ s. Unit {0};
  Images = AnyImages;
  stable = anything-IsStable w;
  collected = AnyImages-IsCollected;
}

module _ (w : World) (i : Invariant w) where
  pub record Holds (s : Manager w) : Type 0 where
    pub at : i.Flags s.ignore_fs s.timers
    pub files : i.Files s.source
    pub images : i.Images s.session_image_batch s.image_ids

  abbrev pub Keeps : {A : Type 0} → Exec (Manager w) A → Type 0
  Keeps m = Triple Holds m (λ _. Holds) Holds

  source-Post :
      {A : Type 0} (r : Result A) (t : Source w) (s : Manager w)
      → Holds s
      → Post (λ _. i.Files) i.Files (r, t)
      → Post (λ _. Holds) Holds (r, record s { source = t })
  source-Post (ok a) t s h k = record { at = h.at; files = k; images = h.images }
  source-Post (raised e) t s h k = record { at = h.at; files = k; images = h.images }
  source-Post undefined t s h k = tt

  pub source-Keeps :
      {A : Type 0} (m : Exec (Source w) A)
      → Triple i.Files m (λ _. i.Files) i.Files
      → Keeps (in_source w m)
  source-Keeps m k = record {
    at = λ s h. let (r, t) = m s.source in source-Post r t s h (k.at s.source h.files);
  }

  pub db-Keeps : {A : Type 0} (m : Exec (Db w) A) → Keeps (in_db w m)
  db-Keeps m = record {
    at = λ s h.
        let (r, d) = m s.source.db in
        by_state Holds r (record s { source = record s.source { db = d } })
          (record { at = h.at; files = i.stable.db s.source d h.files; images = h.images });
  }

  Files-IsFrame : IsFrame w i.Files
  Files-IsFrame = record { keeps = i.stable.db }

  pub read_file_blob-Keeps : (path : Bytes) → Keeps (in_source w (read_file_blob w path))
  read_file_blob-Keeps path = source-Keeps _ (read_file_blob-Steady w i.Files Files-IsFrame path)

  pub remove_from_disk-Keeps : (path : Bytes) → Keeps (in_source w (remove_from_disk w path))
  remove_from_disk-Keeps path =
      source-Keeps _ (remove_from_disk-Steady w i.Files Files-IsFrame path)

  pub object-Keeps : (p : Ptr) → Keeps (object w p)
  object-Keeps p = by_gets (λ s. s.source.objects p)

  pub deref-Keeps : (q : Option Ptr) → Keeps (deref w q)
  deref-Keeps none = by_crash
  deref-Keeps (some p) = by_pure p (λ s h. h)

  pub rm_watch-Keeps : (wd : ℤ) → Keeps (rm_watch w wd)
  unfolding modify
  rm_watch-Keeps wd = record {
    at = λ s h. record { at = h.at; files = i.stable.db s.source _ h.files; images = h.images };
  }

  pub lookup_name-Keeps : (name : Bytes) → Keeps (lookup_name w name)
  unfolding lookup_name
  lookup_name-Keeps name = record { at = λ s h. by_state Holds _ s h }

  pub raise-Keeps : {A : Type 0} (e : Exn) → Keeps (raise {A = A} e)
  raise-Keeps e = by_raise e (λ s h. h)

  pub pure-Keeps : {A : Type 0} (a : A) → Keeps (pure a)
  pure-Keeps a = by_pure a (λ s h. h)

  -- No batch is chosen.
  pub record Unchosen (s : Manager w) : Type 0 where
    pub holds : Holds s
    pub off : lt_ℤ (pos 0) s.session_image_batch ≡ false

  stays-Unchosen :
      {A : Type 0} (m : Exec (Db w) A) → Triple Unchosen (in_db w m) (λ _. Unchosen) Unchosen
  stays-Unchosen m = record {
    at = λ s h.
        let (r, d) = m s.source.db in
        by_state Unchosen r (record s { source = record s.source { db = d } })
          (record {
            holds = record {
              at = h.holds.at;
              files = i.stable.db s.source d h.holds.files;
              images = h.holds.images;
            };
            off = h.off;
          });
  }

  pub db-Unchosen :
      {A : Type 0} (m : Exec (Db w) A) → Triple Unchosen (in_db w m) (λ _. Unchosen) Holds
  db-Unchosen m = by_weaken (in_db w m) (λ a s h. h) (λ s h. h.holds) (stays-Unchosen m)

  -- The object at `p` has the id of `f`.
  record Known (p : Ptr) (f : DbFileInfo) (s : Manager w) : Type 0 where
    holds : Holds s
    same_id : f.id ≡ (s.source.objects p).id

  add_watch-Known :
      (p : Ptr) (f : DbFileInfo) (path : Bytes) (mask : ℕ)
      → Triple (Known p f) (add_watch w path mask) (λ _. Known p f) Holds
  unfolding add_watch
  add_watch-Known p f path mask = record {
    at = λ s h. record {
      holds = record {
        at = h.holds.at;
        files = i.stable.db s.source _ h.holds.files;
        images = h.holds.images;
      };
      same_id = h.same_id;
    };
  }

  pub add_watch-Keeps : (path : Bytes) (mask : ℕ) → Keeps (add_watch w path mask)
  unfolding add_watch
  add_watch-Keeps path mask = record {
    at = λ s h. record { at = h.at; files = i.stable.db s.source _ h.files; images = h.images };
  }

  set_object-Known :
      (p : Ptr) (f g : DbFileInfo)
      → g.id ≡ f.id
      → Triple (Known p f) (in_source w (set_object w p g)) (λ _. Known p f) Holds
  unfolding modify
  set_object-Known p f g e = record {
    at = λ s h. record {
      holds = record {
        at = h.holds.at;
        files = i.stable.changed p g s.source (e ∙ h.same_id) h.holds.files;
        images = h.holds.images;
      };
      same_id = ground (arith, e);
    };
  }

  pub watch_file-Keeps : (p : Ptr) → Keeps (watch_file w p)
  unfolding watch_file
  watch_file-Keeps p =
      by_bind _ _
        (by_weaken {Q = λ f s. Holds s × (s.source.objects p ≡ f)} _
          (λ f s h. record { holds = h.0; same_id = ap (λ (g : DbFileInfo). g.id) (sym h.1) })
          (λ s h. h) (by_reads (λ (s : Manager w). s.source.objects p)))
        λ f. by_bind {Q = λ _. Known p f} _ _ (by_gets (in_dir w f.path)) λ path.
          by_bind {Q = λ _. Known p f} _ _ (by_gets (λ s. World.stat w (world_of w s) path))
            λ found.
              by_option found _ _
                (by_raise (stat_exception (lit "stat failed for watch " ++ path)) (λ s h. h.holds))
                λ t. by_bind _ _ (set_object-Known p f (record f { sb = some t }) refl) λ _.
                  by_bind _ _ (add_watch-Known p f path file_mask) λ wd.
                    by_bind _ _
                      (set_object-Known p f (record f { sb = some t; watch_descriptor = wd }) refl)
                      λ _.
                        by_if (eq_ℤ wd minus_one) _ _
                          (λ _.
                            by_raise (formatted (lit "inotify_add_warched failed " ++ f.name))
                              (λ s h. h.holds))
                          (λ _. by_modify _ (λ s h. record {
                            at = h.holds.at;
                            files = h.holds.files;
                            images = h.holds.images;
                          }))

  -- A change of anything but the flag, the timers and what is kept of the files.
  pub change-Keeps :
      (f : Manager w → Manager w)
      → ((s : Manager w)
          → ((f s).ignore_fs ≡ s.ignore_fs)
            × ((f s).timers ≡ s.timers)
            × (i.Files s.source → i.Files (f s).source)
            × (i.Images s.session_image_batch s.image_ids
                → i.Images (f s).session_image_batch (f s).image_ids))
      → Keeps (modify f)
  change-Keeps f h = by_modify f (λ s p. record {
    at = rw ((h s).0, (h s).1) p.at;
    files = (h s).2 p.files;
    images = (h s).3 p.images;
  })
