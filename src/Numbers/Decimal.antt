-- ===== src/Numbers/Decimal.antt =====
-- Decimal text and `atol` are inverse.
use rc2compute.Prelude.{
  ℕ, zero, suc, ◌+◌, ◌*◌, ◌/◌, ◌%◌, ◌<◌, ◌≡◌, refl, sym, ap, ◌∙◌, inl, inr, true, false, Bool-cases,
  [], ◌∷◌, ◌++◌, arith, Bytes, ltb,
}
use rc2compute.Numbers.{ℤ, pos, negsuc, is_digit, digits, show_ℕ, show, read_digits, negate, atol}

-- The rest of a text that no digit starts.
abbrev pub Ends : Bytes → Type 0
Ends [] = Unit {0}
Ends (c ∷ cs) = is_digit c ≡ false

read_digits-Ends : (acc : ℕ) (rest : Bytes) → Ends rest → read_digits acc rest ≡ acc
unfolding read_digits
read_digits-Ends acc [] e = refl
read_digits-Ends acc (c ∷ cs) e = ground arith

read_digits-cons :
    (acc d : ℕ) (rest : Bytes)
    → d < 10
    → read_digits acc ((b'0' + d) ∷ rest) ≡ read_digits (acc * 10 + d) rest
unfolding read_digits
read_digits-cons acc d rest h = ground arith

digits-append :
    (fuel n : ℕ) (acc rest : Bytes) → digits fuel n acc ++ rest ≡ digits fuel n (acc ++ rest)
unfolding digits
digits-append zero n acc rest = refl
digits-append (suc fuel) n acc rest =
    ground (arith, digits-append fuel (n / 10) ((b'0' + n % 10) ∷ acc) rest)

read_digits-digits :
    (fuel n : ℕ) (acc : Bytes) → n < fuel → read_digits 0 (digits fuel n acc) ≡ read_digits n acc
unfolding digits
read_digits-digits zero n acc h = elim h [ ]
read_digits-digits (suc fuel) n acc h = elim (Bool-cases (ltb n 10)) [
  | inl small ↦
      rw small (read_digits-cons 0 n acc (ground arith) ∙ ap (λ k. read_digits k acc) (omega arith))
  | inr large ↦ rw large (
      read_digits-digits fuel (n / 10) ((b'0' + n % 10) ∷ acc) (ground arith)
      ∙ read_digits-cons (n / 10) (n % 10) acc (omega arith)
      ∙ ap (λ k. read_digits k acc) (omega arith))
]

digits-head :
    (fuel n : ℕ) (acc : Bytes)
    → n < fuel
    → (c : ℕ) × (cs : Bytes) × (digits fuel n acc ≡ c ∷ cs) × (is_digit c ≡ true)
unfolding digits
digits-head zero n acc h = elim h [ ]
digits-head (suc fuel) n acc h = elim (Bool-cases (ltb n 10)) [
  | inl small ↦ (b'0' + n, acc, rw small, ground arith)
  | inr large ↦ rw large (digits-head fuel (n / 10) ((b'0' + n % 10) ∷ acc) (ground arith))
]

atol-digit : (c : ℕ) (cs : Bytes) → is_digit c ≡ true → atol (c ∷ cs) ≡ pos (read_digits 0 (c ∷ cs))
unfolding atol
atol-digit c cs h = ground arith

atol-digits : (n : ℕ) (acc : Bytes) → atol (digits (suc n) n acc) ≡ pos (read_digits n acc)
atol-digits n acc =
    let (c, cs, e, d) = digits-head (suc n) n acc (omega arith) in
    ap atol e
    ∙ atol-digit c cs d
    ∙ ap (λ t. pos (read_digits 0 t)) (sym e)
    ∙ ap pos (read_digits-digits (suc n) n acc (omega arith))

read-show_ℕ : (n : ℕ) (rest : Bytes) → Ends rest → read_digits 0 (show_ℕ n ++ rest) ≡ n
unfolding show_ℕ
read-show_ℕ n rest e =
    ap (read_digits 0) (digits-append (suc n) n [] rest)
    ∙ read_digits-digits (suc n) n rest (omega arith)
    ∙ read_digits-Ends n rest e

atol-show_ℕ : (n : ℕ) (rest : Bytes) → Ends rest → atol (show_ℕ n ++ rest) ≡ pos n
unfolding show_ℕ
atol-show_ℕ n rest e =
    ap atol (digits-append (suc n) n [] rest)
    ∙ atol-digits n rest
    ∙ ap pos (read_digits-Ends n rest e)

atol-minus : (cs : Bytes) → atol (b'-' ∷ cs) ≡ negate (read_digits 0 cs)
unfolding atol
atol-minus cs = refl

negate-add-one : (n : ℕ) → negate (n + 1) ≡ negsuc n
unfolding negate
negate-add-one n = ground arith

-- `atol` reads back the decimal text of a number, of either sign, whatever follows it that is no
-- digit.
pub atol-show : (n : ℤ) (rest : Bytes) → Ends rest → atol (show n ++ rest) ≡ n
unfolding show
atol-show (pos n) rest e = atol-show_ℕ n rest e
atol-show (negsuc n) rest e =
    atol-minus (show_ℕ (n + 1) ++ rest) ∙ ap negate (read-show_ℕ (n + 1) rest e) ∙ negate-add-one n
