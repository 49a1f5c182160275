-- ===== src/FileManager/Messages.antt =====
-- src/FileManager.cpp: the text of a notification, and what `processDBNotification` makes of it.
use rc2compute.Prelude.{
  ℕ, zero, suc, ◌+◌, ◌/◌, ◌%◌, ◌≡◌, ◌∙◌, ◌≢◌, refl, ap, sym, false, Bool-cases, none, some, inl,
  inr, [], ◌∷◌, ◌++◌, arith, Bytes, length, length-append, append-nil, ltb, ◌==◌, if◌then◌else◌,
}
use rc2compute.Effects.{ok, pure, gets, ◌>>=◌}
use rc2compute.Numbers.{ℤ, pos, negsuc, show, show_ℕ, digits, atol, eq_ℤ_iff}
use rc2compute.Numbers.Decimal.{atol-show}
use rc2compute.World.{World}
use rc2compute.FileManager.{Manager}
use rc2compute.FileManager.Notifications.{
  NoteType, inserted, updated, deleted, Note, read_note, from_fields, process_db_notification,
}

abbrev pub NoSlash : Bytes → Type 0
NoSlash [] = Unit {0}
NoSlash (c ∷ cs) = ((c == b'/') ≡ false) × NoSlash cs

-- What `boost::split` does at the character `/`, for a text with two of them.
pub record IsSplit (w : World) : Type 0 where
  pub three_fields :
      (a b c : Bytes)
      → NoSlash a
      → NoSlash b
      → NoSlash c
      → World.split_slash w (a ++ b'/' ∷ (b ++ b'/' ∷ c)) ≡ a ∷ b ∷ c ∷ []

abbrev pub letter : NoteType → ℕ
letter inserted = b'i'
letter updated = b'u'
letter deleted = b'd'

-- The text that the server's triggers send: the kind, and the three numbers.
unfoldable pub print_note : Note → ℤ → Bytes
print_note note version =
    letter note.kind ∷ (show note.file_id ++ b'/' ∷ (show note.wspace_id ++ b'/' ∷ show version))

digits-NoSlash : (fuel n : ℕ) (acc : Bytes) → NoSlash acc → NoSlash (digits fuel n acc)
unfolding digits
digits-NoSlash zero n acc h = h
digits-NoSlash (suc fuel) n acc h = elim (Bool-cases (ltb n 10)) [
  | inl small ↦ rw small ((ground arith, h))
  | inr large ↦ rw large (digits-NoSlash fuel (n / 10) ((b'0' + n % 10) ∷ acc) (ground arith, h))
]

show-NoSlash : (n : ℤ) → NoSlash (show n)
unfolding show show_ℕ
show-NoSlash (pos n) = digits-NoSlash (suc n) n [] tt
show-NoSlash (negsuc n) = (refl, digits-NoSlash (suc (n + 1)) (n + 1) [] tt)

atol-show_all : (n : ℤ) → atol (show n) ≡ n
atol-show_all n = ap atol (sym (append-nil (show n))) ∙ atol-show n [] tt

module _ (w : World) (split : IsSplit w) where
  body_fields :
      (kind : NoteType) (id wspace version : ℤ)
      → let body = show id ++ b'/' ∷ (show wspace ++ b'/' ∷ show version) in
        (if ltb (suc (length body)) 2 then none else from_fields kind (World.split_slash w body))
        ≡ some (record { kind = kind; file_id = id; wspace_id = wspace })
  unfolding from_fields
  body_fields kind id wspace version =
      rw
        (
          split.three_fields (show id) (show wspace) (show version) (show-NoSlash id)
              (show-NoSlash wspace) (show-NoSlash version),
          atol-show_all id,
          atol-show_all wspace,
        )
        (ground (arith, length-append (show id) (b'/' ∷ (show wspace ++ b'/' ∷ show version))))

  read_kind :
      (kind : NoteType) (id wspace version : ℤ)
      → read_note w (letter kind ∷ (show id ++ b'/' ∷ (show wspace ++ b'/' ∷ show version)))
        ≡ some (record { kind = kind; file_id = id; wspace_id = wspace })
  unfolding read_note
  read_kind inserted id wspace version = body_fields inserted id wspace version
  read_kind updated id wspace version = body_fields updated id wspace version
  read_kind deleted id wspace version = body_fields deleted id wspace version

  -- The reader takes the kind, the file's id and the workspace's id back from the printed text of a note,
  -- for numbers of either sign, if splitting at a slash does what it is documented to do.
  pub read_note-print_note :
      (note : Note) (version : ℤ) → read_note w (print_note note version) ≡ some note
  unfolding print_note
  read_note-print_note note version = read_kind note.kind note.file_id note.wspace_id version

  -- A note about a file of another workspace changes nothing, whatever its kind.
  pub process_db_notification-elsewhere :
      (note : Note) (version : ℤ) (s : Manager w)
      → s.wspace_id ≢ note.wspace_id
      → process_db_notification w (print_note note version) s ≡ (ok tt, s)
  unfolding process_db_notification ◌>>=◌ gets pure
  process_db_notification-elsewhere note version s other =
      rw (read_note-print_note note version, process_db_notification)
        (ground (arith, eq_ℤ_iff s.wspace_id note.wspace_id))
