-- ===== src/FileSource/Consistent.antt =====
-- src/DBFileSource.cpp: the map of files by id, and the objects it points to.
use rc2compute.Prelude.{
  suc, ◌<◌, ◌≡◌, ◌∙◌, Bool-cases, inl, inr, Option, none, some, Option-cases, [], ◌∷◌, arith, Bytes,
}
use rc2compute.Effects.{modify}
use rc2compute.Effects.Hoare.{Triple, by_modify}
use rc2compute.Numbers.{ℤ, pos, to_u32, eq_ℤ, lt_ℤ}
use rc2compute.Map.{Map, find, assign, insert, erase}
use rc2compute.World.{World}
use rc2compute.FileSource.{Source, DbFileInfo, Ptr, update, new_file}
use rc2compute.FileSource.Transacting.{IsFrame}

-- The object of an entry has been made, and has the key for its id, as far as 32 bits hold it. An entry may
-- be null.
abbrev pub IsOwn : (Ptr → DbFileInfo) → Ptr → ℤ → Option Ptr → Type 0
IsOwn objects next id none = Unit {0}
IsOwn objects next id (some p) = (p < next) × ((objects p).id ≡ pos (to_u32 id))

abbrev pub AllOwn : (Ptr → DbFileInfo) → Ptr → Map (Option Ptr) → Type 0
AllOwn objects next [] = Unit {0}
AllOwn objects next ((id, found) ∷ m) = IsOwn objects next id found × AllOwn objects next m

module _ (objects : Ptr → DbFileInfo) (next : Ptr) where
  pub AllOwn-assign :
      (id : ℤ) (found : Option Ptr) (m : Map (Option Ptr))
      → IsOwn objects next id found
      → AllOwn objects next m
      → AllOwn objects next (assign id found m)
  unfolding assign
  AllOwn-assign id found [] own h = (own, tt)
  AllOwn-assign id found ((j, q) ∷ m) own h = elim (Bool-cases (eq_ℤ j id)) [
    | inl here ↦ rw here (own, h.1)
    | inr not_here ↦ elim (Bool-cases (lt_ℤ id j)) [
      | inl before ↦ rw (not_here, before) (own, h)
      | inr after ↦ rw (not_here, after) (h.0, AllOwn-assign id found m own h.1)
    ]
  ]

  AllOwn-insert :
      (id : ℤ) (found : Option Ptr) (m : Map (Option Ptr))
      → IsOwn objects next id found
      → AllOwn objects next m
      → AllOwn objects next (insert id found m)
  unfolding insert
  AllOwn-insert id found m own h = elim (Option-cases (find id m)) [
    | inl new ↦ rw (new, insert) (AllOwn-assign id found m own h)
    | inr (q, old) ↦ rw (old, insert) h
  ]

  AllOwn-erase :
      (id : ℤ) (m : Map (Option Ptr)) → AllOwn objects next m → AllOwn objects next (erase id m)
  unfolding erase
  AllOwn-erase id [] h = tt
  AllOwn-erase id ((j, q) ∷ m) h = elim (Bool-cases (eq_ℤ j id)) [
    | inl here ↦ rw here (AllOwn-erase id m h.1)
    | inr not_here ↦ rw not_here (h.0, AllOwn-erase id m h.1)
  ]

-- Objects that were there keep their ids.
AllOwn-later :
    (objects later : Ptr → DbFileInfo) (next next' : Ptr) (m : Map (Option Ptr))
    → ((p : Ptr) → p < next → (p < next') × ((later p).id ≡ (objects p).id))
    → AllOwn objects next m
    → AllOwn later next' m
AllOwn-later objects later next next' [] keeps h = tt
AllOwn-later objects later next next' ((id, none) ∷ m) keeps h =
    (tt, AllOwn-later objects later next next' m keeps h.1)
AllOwn-later objects later next next' ((id, some p) ∷ m) keeps h =
    let k = keeps p h.0.0 in ((k.0, k.1 ∙ h.0.1), AllOwn-later objects later next next' m keeps h.1)

module _ (w : World) where
  pub record IsConsistent (s : Source w) : Type 0 where
    pub at : AllOwn s.objects s.next_ptr s.files_by_id

  pub IsConsistent-IsFrame : IsFrame w IsConsistent
  IsConsistent-IsFrame = record { keeps = λ s d h. record { at = h.at } }

  -- A change of an object that keeps its id.
  pub update-IsConsistent :
      (p : Ptr) (f : DbFileInfo) (s : Source w)
      → f.id ≡ (s.objects p).id
      → IsConsistent s
      → IsConsistent (record s { objects = update s.objects p f })
  update-IsConsistent p f s e h = record {
    at =
        AllOwn-later s.objects (update s.objects p f) s.next_ptr s.next_ptr s.files_by_id
          (λ q made. (made, ground (arith, e))) h.at;
  }

  pub erase-IsConsistent :
      (id : ℤ) (s : Source w)
      → IsConsistent s
      → IsConsistent (record s { files_by_id = erase id s.files_by_id })
  erase-IsConsistent id s h = record {
    at = AllOwn-erase s.objects s.next_ptr id s.files_by_id h.at;
  }

  -- A new object that is not in the map yet.
  pub record HasMade (p : Ptr) (id : ℤ) (s : Source w) : Type 0 where
    pub at : AllOwn s.objects s.next_ptr s.files_by_id
    pub made : p < s.next_ptr
    pub has_id : (s.objects p).id ≡ pos (to_u32 id)

  pub HasMade-IsFrame : (p : Ptr) (id : ℤ) → IsFrame w (HasMade p id)
  HasMade-IsFrame p id = record {
    keeps = λ s d h. record { at = h.at; made = h.made; has_id = h.has_id };
  }

  pub HasMade-IsConsistent : (p : Ptr) (id : ℤ) (s : Source w) → HasMade p id s → IsConsistent s
  HasMade-IsConsistent p id s h = record { at = h.at }

  abbrev made_file : ℤ → ℤ → Bytes → Source w → DbFileInfo
  made_file id version name s = record {
    id = pos (to_u32 id);
    version = pos (to_u32 version);
    name = name;
    path = name;
    watch_descriptor = World.garbage w s.db.world;
    sb = none;
  }

  pub new_file-HasMade :
      (id version : ℤ) (name : Bytes)
      → Triple IsConsistent (new_file w id version name) (λ p. HasMade p id) IsConsistent
  unfolding new_file
  new_file-HasMade id version name = record {
    at = λ s h. record {
      at =
          AllOwn-later s.objects (update s.objects s.next_ptr (made_file id version name s))
            s.next_ptr (suc s.next_ptr) s.files_by_id (λ q made. (omega arith, ground arith)) h.at;
      made = omega arith;
      has_id = ground arith;
    };
  }

  pub into_map :
      (p : Ptr) (id : ℤ)
      → Triple
          (HasMade p id)
          (modify (λ (s : Source w). record s { files_by_id = insert id (some p) s.files_by_id }))
          (λ _. IsConsistent)
          IsConsistent
  into_map p id = by_modify _ λ s h. record {
    at = AllOwn-insert s.objects s.next_ptr id (some p) s.files_by_id (h.made, h.has_id) h.at;
  }
