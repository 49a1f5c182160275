-- ===== src/Utils/Directories.antt =====
-- common/RC2Utils.cpp: what `MakeDirectoryPath` makes and returns.
use rc2compute.Prelude.{
  ℕ, ◌≡◌, ◌∙◌, refl, ap, sym, Bool-cases, inl, inr, true, false, ◌&&◌, [], ◌∷◌, ◌++◌, append_assoc,
  arith, Bytes, ◌==◌,
}
use rc2compute.Numbers.{ℤ, pos}
use rc2compute.World.{World}
use rc2compute.Utils.{ends_in_slash, make_one, make_from, make_directory_path}

module _ (w : World) where
  -- A directory that is there; the empty text before a leading slash counts as one.
  abbrev pub IsThere : World.W w → Bytes → Type 0
  IsThere s [] = Unit {0}
  IsThere s (c ∷ cs) = (World.exists w s (c ∷ cs) && World.is_directory w s (c ∷ cs)) ≡ true

  make_one-IsThere :
      (dir : Bytes) (mode : ℕ) (ret : ℤ) (s : World.W w)
      → IsThere s dir
      → make_one w dir mode ret s ≡ ((ret, false), s)
  unfolding make_one
  make_one-IsThere [] mode ret s h = refl
  make_one-IsThere (c ∷ cs) mode ret s h = rw h refl

  make_from-IsThere :
      (dir path : Bytes) (mode : ℕ) (ret : ℤ) (s : World.W w)
      → ((before after : Bytes) → before ++ b'/' ∷ after ≡ dir ++ path → IsThere s before)
      → make_from w dir path mode ret s ≡ (ret, s)
  unfolding make_from
  make_from-IsThere dir [] mode ret s h = refl
  make_from-IsThere dir (c ∷ cs) mode ret s h =
      let rest =
        make_from-IsThere (dir ++ c ∷ []) cs mode ret s
          (λ b a e. h b a (e ∙ append_assoc dir (c ∷ []) cs)) in
      elim (Bool-cases (c == b'/')) [
        | inl slash ↦
            rw
              (
                slash,
                make_from,
                make_one-IsThere dir mode ret s (h dir cs (ap (λ d. dir ++ d ∷ cs) (ground arith))),
              )
              rest
        | inr plain ↦ rw (plain, make_from) rest
      ]

  with_slash :
      (path before after : Bytes)
      → before ++ b'/' ∷ after ≡ path
      → before ++ b'/' ∷ (after ++ b'/' ∷ []) ≡ path ++ b'/' ∷ []
  with_slash path before after e =
      sym (append_assoc before (b'/' ∷ after) (b'/' ∷ [])) ∙ ap (λ t. t ++ b'/' ∷ []) e

  -- If whatever stands before a slash of the path, and the path itself, is a directory that is there,
  -- `MakeDirectoryPath` returns 0 and makes nothing, with or without a slash at the path's end.
  pub make_directory_path-IsThere :
      (path : Bytes) (mode : ℕ) (s : World.W w)
      → ((before after : Bytes) → before ++ b'/' ∷ after ≡ path ++ b'/' ∷ [] → IsThere s before)
      → make_directory_path w path mode s ≡ (pos 0, s)
  unfolding make_directory_path
  make_directory_path-IsThere path mode s h = elim (Bool-cases (ends_in_slash path)) [
    | inl ends ↦
        rw (ends, make_directory_path)
          (make_from-IsThere [] path mode (pos 0) s
            (λ b a e. h b (a ++ b'/' ∷ []) (with_slash path b a e)))
    | inr open_end ↦
        rw (open_end, make_directory_path)
          (make_from-IsThere [] (path ++ b'/' ∷ []) mode (pos 0) s h)
  ]
