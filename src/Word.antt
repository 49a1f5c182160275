-- ===== src/Word.antt =====
-- 32-bit words in network byte order: `htonl` and `ntohl` on a byte buffer, as used by
-- src/InputBufferManager.cpp, src/RSession.cpp and src/DBFileSource.cpp.
use rc2compute.Prelude.{
  ℕ, ◌+◌, ◌*◌, ◌/◌, ◌%◌, ◌^◌, ◌<◌, ◌≡◌, [], ◌∷◌, ◌++◌, arith, Bytes, IsBytes, length,
}

abbrev pub u32 : ℕ → ℕ
u32 n = n % 2 ^ 32

-- The four bytes of `htonl n`, the highest first.
unfoldable pub put_be32 : ℕ → Bytes
put_be32 n = (n / 16777216 % 256) ∷ (n / 65536 % 256) ∷ (n / 256 % 256) ∷ (n % 256) ∷ []

-- `ntohl` of the first four bytes.
unfoldable pub get_be32 : Bytes → ℕ
get_be32 (a ∷ b ∷ c ∷ d ∷ rest) = a * 16777216 + b * 65536 + c * 256 + d
get_be32 _ = 0

pub get-put : (n : ℕ) (rest : Bytes) → n < 2 ^ 32 → get_be32 (put_be32 n ++ rest) ≡ n
unfolding get_be32 put_be32
get-put n rest h = omega arith

pub length-put_be32 : (n : ℕ) → length (put_be32 n) ≡ 4
unfolding put_be32
length-put_be32 n = omega arith

pub get_be32-lt : (xs : Bytes) → IsBytes xs → get_be32 xs < 2 ^ 32
unfolding get_be32
get_be32-lt (a ∷ b ∷ c ∷ d ∷ rest) h = omega arith
get_be32-lt _ h = omega arith
