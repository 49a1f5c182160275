-- ===== src/Utils.antt =====
-- common/RC2Utils.{hpp,cpp}, and `escape_quotes` of src/RSession.cpp.
pub mod Quoting
pub mod Directories
use rc2compute.Prelude.{
  ℕ, Bool, true, false, not, ◌&&◌, ◌||◌, Option, none, some, take, [], ◌∷◌, ◌++◌, Bytes, lit,
  length, ltb, ◌==◌, if◌then◌else◌,
}
use rc2compute.Effects.{Result, ok, raised, undefined, Exec, runtime_error, errno_value}
use rc2compute.Numbers.{ℤ, pos, minus_one, eq_ℤ}
use rc2compute.World.{World, MkDir, made, there_already, refused}

-- The characters that `escape_quotes` puts a backslash before.
abbrev pub needs_escape : ℕ → Bool
needs_escape c = c == b'"' || c == b'\\'

unfoldable pub escape_quotes : Bytes → Bytes
escape_quotes [] = []
escape_quotes (c ∷ cs) =
    let rest = escape_quotes cs in if needs_escape c then b'\\' ∷ c ∷ rest else c ∷ rest

-- `StripQuotes`
unfoldable pub strip_quotes : Bytes → Bytes
strip_quotes [] = []
strip_quotes (c ∷ cs) = let rest = strip_quotes cs in if c == b'"' then rest else c ∷ rest

abbrev pub ends_in_slash : Bytes → Bool
ends_in_slash [] = false
ends_in_slash (c ∷ []) = c == b'/'
ends_in_slash (c ∷ d ∷ cs) = ends_in_slash (d ∷ cs)

-- `GetPathForExecutable` on Linux, from what the link /proc/self/exe holds: at most 1023 bytes. The length
-- is unsigned, so that the test for a failure never holds, and -1 is an index far outside the buffer.
unfoldable pub path_for_executable : Option Bytes → Result Bytes
path_for_executable none = undefined
path_for_executable (some target) = ok (take 1023 target)

unfoldable pub has_slash : Bytes → Bool
has_slash [] = false
has_slash (c ∷ cs) = c == b'/' || has_slash cs

-- `path.substr(0, path.rfind('/'))`: all of it, if there is no slash.
unfoldable pub before_slash : Bytes → Bytes
unfolding has_slash
before_slash [] = []
before_slash (c ∷ cs) =
    let rest = before_slash cs in if c == b'/' && not (has_slash cs) then [] else c ∷ rest

module _ (w : World) where
  open w use {W, exists, is_directory, mkdir, uuid, parent_path, append_path, read_file, remove_all}

  -- One round of the loop of `MakeDirectoryPath` for the directory `dir`: the value of `mdretval`,
  -- and whether the function returns it at once.
  unfoldable pub make_one : Bytes → ℕ → ℤ → W → (ℤ × Bool) × W
  make_one [] mode ret s = ((ret, false), s)
  make_one (c ∷ cs) mode ret s =
      if exists s (c ∷ cs) && is_directory s (c ∷ cs)
      then ((ret, false), s)
      else let (outcome, next) = mkdir s (c ∷ cs) mode in
        elim outcome [
          | made ↦ ((pos 0, false), next)
          | there_already ↦ ((minus_one, false), next)
          | refused ↦ ((minus_one, true), next)
        ]

  -- `dir` is what stands before the rest of the path.
  unfoldable pub make_from : Bytes → Bytes → ℕ → ℤ → W → ℤ × W
  unfolding make_one
  make_from dir [] mode ret s = (ret, s)
  make_from dir (c ∷ cs) mode ret s = elim (c == b'/') [
    | false ↦ make_from (dir ++ c ∷ []) cs mode ret s
    | true ↦
        let ((code, stop), next) = make_one dir mode ret s in
        let rest = make_from (dir ++ c ∷ []) cs mode code next in
        if stop then (code, next) else rest
  ]

  -- `MakeDirectoryPath`, for a path that is not empty: it reads the last character.
  unfoldable pub make_directory_path : Bytes → ℕ → W → ℤ × W
  make_directory_path path mode s =
      make_from [] (if ends_in_slash path then path else path ++ b'/' ∷ []) mode (pos 0) s

  -- The directory of `TemporaryDirectory(bool)`, made with `mkdir` alone.
  unfoldable pub temporary_directory : W → Result Bytes × W
  temporary_directory s =
      let (name, named) = uuid s in
      let path = lit "/tmp/" ++ name in
      let (outcome, next) = mkdir named path 0x1c0 in
      elim outcome [
        | made ↦ (ok path, next)
        | _ ↦ (raised (runtime_error (lit "failed to create directory:" ++ path)), next)
      ]

  -- The directory of `TemporaryDirectory(std::string, bool)`.
  unfoldable pub directory_at : Bytes → W → Result Bytes × W
  directory_at path s =
      let (code, next) = make_directory_path path 0x1c0 s in
      if eq_ℤ code (pos 0)
      then (ok path, next)
      else (raised (runtime_error (lit "failed to create directory:" ++ path)), next)

  -- The destructor of a `TemporaryDirectory`: a filesystem_error that it lets out ends the process.
  unfoldable pub erase_directory : Bool → Bytes → W → Option W
  erase_directory erase path s = if erase then remove_all s path else some s

  -- `SlurpFile`, which throws `errno` for a file that it cannot open.
  unfoldable pub slurp_file : Bytes → W → Result Bytes
  slurp_file path s = elim (read_file s path) [ none ↦ raised errno_value | some text ↦ ok text ]

  -- `PrivatePackagePath`, where the packages of R are that the program brings along.
  unfoldable pub private_package_path : Option Bytes → W → Result Bytes
  private_package_path link s = elim (path_for_executable link) [
    | ok installed ↦
        let packages = before_slash installed ++ lit "/pkgs/" in
        let local = append_path (parent_path installed) (lit "R") in
        ok (if not (is_directory s packages) && is_directory s local then local else packages)
    | raised e ↦ raised e
    | undefined ↦ undefined
  ]
