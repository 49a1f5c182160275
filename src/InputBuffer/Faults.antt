-- ===== src/InputBuffer/Faults.antt =====
-- Reads that the framing does not survive: a size word near 2 ^ 32, and two messages in one read.
use mathlib.Core.Option
use rc2compute.Prelude.{
  ℕ, zero, suc, ◌-◌, ◌^◌, ◌≤◌, ◌<◌, ◌≡◌, ◌↔◌, refl, sym, ap, ◌∙◌, Option, none, some, [], ◌∷◌, ◌++◌,
  arith, Bytes, IsBytes, length, drop,
}
use rc2compute.Word.{get_be32, get_be32-lt}
use rc2compute.Frame.{frame, IsShort}
use rc2compute.InputBuffer.{Evbuffer, InputBuffer, magic_number, append_data, pop_current_message}
use rc2compute.InputBuffer.Cases.{accept, view, append_data-accept}
use rc2compute.InputBuffer.Reassembly.{append_data-some, accept-frame}

IsBytes-drop : (n : ℕ) (xs : Bytes) → IsBytes xs → IsBytes (drop n xs)
IsBytes-drop zero xs h = h
IsBytes-drop (suc n) [] h = h
IsBytes-drop (suc n) (x ∷ xs) h = IsBytes-drop n xs h.1

accept_overrun :
    (json all : Bytes)
    → IsBytes all
    → 8 < length all
    → length all < 2 ^ 32
    → get_be32 all ≡ magic_number
    → (accept json all ≡ none) ↔ (2 ^ 32 - 8 ≤ get_be32 (drop 4 all))
accept_overrun json all b l s e = (λ h. ground (arith, size), λ h. ground (arith, size))
  where
    size : get_be32 (drop 4 all) < 2 ^ 32
    size = get_be32-lt (drop 4 all) (IsBytes-drop 4 all b)

map-none {ℓ κ} :
    {A : Type ℓ} {B : Type κ} (f : A → B) (o : Option A) → (Option.map f o ≡ none) ↔ (o ≡ none)
map-none f none = (λ h. refl, λ h. refl)
map-none f (some a) = (λ h. absurd (ground arith), λ h. absurd (ground arith))

module _ (ev : Evbuffer) where
  open ev use {contents}

  -- On well-formed waiting bytes with the right magic number, more than 8 and fewer than 2 ^ 32 of
  -- them, the copy of the message reads past the end of the buffer exactly when the size word is
  -- one of the last eight values of a 32-bit word.
  pub append_data-overrun :
      (m : InputBuffer ev) (chunk : Bytes)
      → IsBytes (contents m.buffer ++ chunk)
      → 8 < length (contents m.buffer ++ chunk)
      → length (contents m.buffer ++ chunk) < 2 ^ 32
      → get_be32 (contents m.buffer ++ chunk) ≡ magic_number
      → (append_data ev m chunk ≡ none)
        ↔ (2 ^ 32 - 8 ≤ get_be32 (drop 4 (contents m.buffer ++ chunk)))
  append_data-overrun m chunk b l s e =
      let all = contents m.buffer ++ chunk in
      let spec = accept_overrun m.current_json all b l s e in
      let mapped = map-none (view ev) (append_data ev m chunk) in
      let same = append_data-accept ev m chunk in
      (λ h. spec.0 (sym same ∙ mapped.1 h), λ h. mapped.0 (same ∙ spec.1 h))

  -- When nothing is waiting and one read brings a whole message and anything after it, only the
  -- message is kept: whatever follows it, a second frame included, is gone.
  pub append_data-drops_rest :
      (m : InputBuffer ev) (msg rest : Bytes)
      → contents m.buffer ≡ []
      → 0 < length msg
      → IsShort msg
      → (n : InputBuffer ev) × (append_data ev m (frame msg ++ rest) ≡ some n)
        × (contents n.buffer ≡ [])
        × ((pop_current_message ev n).0 ≡ m.current_json ++ msg)
  unfolding pop_current_message
  append_data-drops_rest m msg rest w h s =
      let (n, read, v) =
        append_data-some ev m (frame msg ++ rest) ([], m.current_json ++ msg)
          (rw w (accept-frame m.current_json msg rest h s)) in
      (n, read, ap (λ x. x.0) v, ap (λ x. x.1) v)
