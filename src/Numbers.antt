-- ===== src/Numbers.antt =====
-- `long` and `int` values that may be negative, their decimal text as `std::ostream` writes it, and
-- C's `atol`. Overflow of a 64-bit `long` is not modelled.
pub mod Decimal
use rc2compute.Prelude.{
  ℕ, zero, suc, ◌+◌, ◌-◌, ◌*◌, ◌/◌, ◌%◌, ◌^◌, ◌≡◌, ◌↔◌, Bool, true, false, ◌&&◌, ◌||◌, [], ◌∷◌,
  ◌++◌, arith, Bytes, ltb, leb, ◌==◌, if◌then◌else◌,
}

-- `negsuc n` is -(n + 1).
pub data ℤ : Type 0 where
  pos : ℕ → ℤ
  negsuc : ℕ → ℤ

unfoldable pub eq_ℤ : ℤ → ℤ → Bool
eq_ℤ (pos a) (pos b) = a == b
eq_ℤ (negsuc a) (negsuc b) = a == b
eq_ℤ _ _ = false

unfoldable pub lt_ℤ : ℤ → ℤ → Bool
lt_ℤ (pos a) (pos b) = ltb a b
lt_ℤ (pos a) (negsuc b) = false
lt_ℤ (negsuc a) (pos b) = true
lt_ℤ (negsuc a) (negsuc b) = ltb b a

pub eq_ℤ_iff : (a b : ℤ) → (eq_ℤ a b ≡ true) ↔ (a ≡ b)
unfolding eq_ℤ
eq_ℤ_iff a b = ground arith

abbrev pub minus_one : ℤ
minus_one = negsuc 0

-- The conversion to `uint32_t`.
unfoldable pub to_u32 : ℤ → ℕ
to_u32 (pos n) = n % 2 ^ 32
to_u32 (negsuc n) = 2 ^ 32 - 1 - n % 2 ^ 32

-- The conversion to `int`, whose pattern is that of the `uint32_t`.
unfoldable pub to_s32 : ℤ → ℤ
unfolding to_u32
to_s32 z = let n = to_u32 z in if ltb n (2 ^ 31) then pos n else negsuc (2 ^ 32 - 1 - n)

unfoldable pub succ : ℤ → ℤ
succ (pos n) = pos (n + 1)
succ (negsuc zero) = pos 0
succ (negsuc (suc n)) = negsuc n

-- The digits of `n` in front of `acc`; the fuel `n + 1` is enough, since `n / 10` is smaller.
unfoldable pub digits : ℕ → ℕ → Bytes → Bytes
digits zero n acc = acc
digits (suc fuel) n acc =
    let rest = digits fuel (n / 10) ((b'0' + n % 10) ∷ acc) in
    if ltb n 10 then (b'0' + n) ∷ acc else rest

unfoldable pub show_ℕ : ℕ → Bytes
show_ℕ n = digits (suc n) n []

unfoldable pub show : ℤ → Bytes
show (pos n) = show_ℕ n
show (negsuc n) = b'-' ∷ show_ℕ (n + 1)

abbrev pub is_digit : ℕ → Bool
is_digit c = leb b'0' c && leb c b'9'

abbrev pub is_space : ℕ → Bool
is_space c = c == 32 || (leb 9 c && leb c 13)

unfoldable pub read_digits : ℕ → Bytes → ℕ
read_digits acc [] = acc
read_digits acc (c ∷ cs) = elim (is_digit c) [
  | true ↦ read_digits (acc * 10 + (c - b'0')) cs
  | false ↦ acc
]

unfoldable pub negate : ℕ → ℤ
negate zero = pos 0
negate (suc n) = negsuc n

-- `strtol` reads white space, a sign, and digits up to the first other character.
unfoldable pub atol : Bytes → ℤ
atol [] = pos 0
atol (c ∷ cs) = elim (is_space c) [
  | true ↦ atol cs
  | false ↦
      if c == b'-'
      then negate (read_digits 0 cs)
      else if c == b'+'
      then pos (read_digits 0 cs)
      else pos (read_digits 0 (c ∷ cs))
]
