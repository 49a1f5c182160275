-- ===== src/Utils/Quoting.antt =====
-- Text inside the string literals of the R code that the session builds.
use rc2compute.Prelude.{
  ℕ, ◌≡◌, refl, Bool, true, false, Option, none, some, [], ◌∷◌, ◌++◌, arith, Bytes, ◌==◌,
  if◌then◌else◌,
}
use rc2compute.Utils.{escape_quotes}

abbrev prepend : ℕ → Option (Bytes × Bytes) → Option (Bytes × Bytes)
prepend c none = none
prepend c (some (text, rest)) = some (c ∷ text, rest)

-- How R reads a literal behind its opening `quote`: the text, and what follows the closing quote.
-- A backslash takes the next character as it is, which is R's rule for a quote and a backslash.
unfoldable pub read_literal : ℕ → Bool → Bytes → Option (Bytes × Bytes)
read_literal quote escaped [] = none
read_literal quote true (c ∷ cs) = prepend c (read_literal quote false cs)
read_literal quote false (c ∷ cs) =
    let plain = prepend c (read_literal quote false cs) in
    let after_backslash = read_literal quote true cs in
    if c == quote then some ([], cs) else if c == b'\\' then after_backslash else plain

-- Between double quotes R reads back exactly the text that was escaped, and goes on behind it.
pub read-escape_quotes :
    (text rest : Bytes)
    → read_literal b'"' false (escape_quotes text ++ b'"' ∷ rest) ≡ some (text, rest)
unfolding read_literal escape_quotes
read-escape_quotes [] rest = refl
read-escape_quotes (c ∷ cs) rest = ground (arith, read-escape_quotes cs rest)

abbrev pub NoApostrophe : Bytes → Type 0
NoApostrophe [] = Unit {0}
NoApostrophe (c ∷ cs) = ((c == b'\'') ≡ false) × NoApostrophe cs

-- Between single quotes an apostrophe in the text ends the literal: R reads what stands before it,
-- and takes the rest of the text for code.
pub read-escape_quotes_single :
    (before after rest : Bytes)
    → NoApostrophe before
    → read_literal b'\'' false (escape_quotes (before ++ b'\'' ∷ after) ++ b'\'' ∷ rest)
      ≡ some (before, escape_quotes after ++ b'\'' ∷ rest)
unfolding read_literal escape_quotes
read-escape_quotes_single [] after rest h = refl
read-escape_quotes_single (c ∷ cs) after rest h =
    ground (arith, read-escape_quotes_single cs after rest h.1)
