-- ===== src/InputBuffer/Reassembly.antt =====
-- A framed message is recovered however the network cuts it into reads.
use mathlib.Core.Option
use rc2compute.Prelude.{
  ◌<◌, ◌≡◌, refl, ap, sym, ◌∙◌, inl, inr, false, Bool-cases, ltb, Option, none, some, List, [], ◌∷◌,
  ◌++◌, flatten, append-nil, append_assoc, arith, Bytes, length, length-append, take, take_all,
  take-append_left, drop,
}
use rc2compute.Word.{get_be32}
use rc2compute.Frame.{frame, IsShort, length-frame, frame-magic, frame-size, frame-body}
use rc2compute.InputBuffer.{Evbuffer, InputBuffer, append_data, feed, pop_current_message}
use rc2compute.InputBuffer.Cases.{accept, view, append_data-accept}

header_words :
    (p q : Bytes)
    → 8 < length p
    → (get_be32 (p ++ q) ≡ get_be32 p) × (get_be32 (drop 4 (p ++ q)) ≡ get_be32 (drop 4 p))
unfolding get_be32
header_words (a ∷ b ∷ c ∷ d ∷ e ∷ f ∷ g ∷ h ∷ rest) q l = (refl, refl)
header_words _ q l = absurd (omega arith)

take_self : (xs ys : Bytes) → take (length xs) (xs ++ ys) ≡ xs
take_self xs ys =
    take-append_left (length xs) xs ys (omega arith) ∙ take_all (length xs) xs (omega arith)

-- A whole frame, whatever follows it in the same read: the text is appended, the rest dropped.
pub accept-frame :
    (json msg rest : Bytes)
    → 0 < length msg
    → IsShort msg
    → accept json (frame msg ++ rest) ≡ some ([], json ++ msg)
accept-frame json msg rest h s =
    rw (frame-magic msg rest, frame-size msg rest s, frame-body msg rest, take_self msg rest)
      (ground (arith, length-append (frame msg) rest, length-frame msg))

-- A strict prefix of a frame waits.
pub accept-prefix :
    (json msg p q : Bytes)
    → IsShort msg
    → p ++ q ≡ frame msg
    → 0 < length q
    → accept json p ≡ some (p, json)
accept-prefix json msg p q s e l = ground (
  arith,
  header_words p q,
  frame-magic msg [],
  frame-size msg [] s,
  append-nil (frame msg),
  e,
  length-append p q,
  length-frame msg,
  ap length e,
)

-- A result whose view is known.
mapped {ℓ κ} :
    {A : Type ℓ} {B : Type κ} (f : A → B) (o : Option A) (v : B)
    → Option.map f o ≡ some v
    → (a : A) × (o ≡ some a) × (f a ≡ v)
mapped f none v e = absurd (ground arith)
mapped f (some a) v e = (a, refl, ground arith)

flatten-cons : (c : Bytes) (cs : List Bytes) → flatten (c ∷ cs) ≡ c ++ flatten cs
unfolding mathlib.Core.List.flatten
flatten-cons c cs = refl

nil_of_length : (xs : Bytes) → length xs ≡ 0 → xs ≡ []
nil_of_length [] h = refl
nil_of_length (x ∷ xs) h = absurd (omega arith)

nil_parts : (xs ys : Bytes) → xs ++ ys ≡ [] → (xs ≡ []) × (ys ≡ [])
nil_parts [] ys h = (refl, h)
nil_parts (x ∷ xs) ys h = absurd (ground arith)

module _ (ev : Evbuffer) where
  open ev use {contents}

  -- One read whose outcome under `accept` is known.
  pub append_data-some :
      (m : InputBuffer ev) (chunk : Bytes) (v : Bytes × Bytes)
      → accept m.current_json (contents m.buffer ++ chunk) ≡ some v
      → (n : InputBuffer ev) × (append_data ev m chunk ≡ some n) × (view ev n ≡ v)
  append_data-some m chunk v e = mapped (view ev) _ v (append_data-accept ev m chunk ∙ e)

  abbrev Delivered : InputBuffer ev → List Bytes → Bytes → Bytes → Type 0
  Delivered m chunks waiting json =
      (n : InputBuffer ev) × (feed ev m chunks ≡ some n)
      × (contents n.buffer ≡ waiting)
      × (n.current_json ≡ json)

  feed-cons :
      (m n : InputBuffer ev) (chunk : Bytes) (chunks : List Bytes)
      → append_data ev m chunk ≡ some n
      → feed ev m (chunk ∷ chunks) ≡ feed ev n chunks
  unfolding feed
  feed-cons m n chunk chunks e = rw (e, feed)

  next_read :
      (m : InputBuffer ev) (chunk : Bytes) (chunks : List Bytes) (all j waiting json : Bytes)
      → accept m.current_json (contents m.buffer ++ chunk) ≡ some (all, j)
      → ((n : InputBuffer ev)
          → contents n.buffer ≡ all
          → n.current_json ≡ j
          → Delivered n chunks waiting json)
      → Delivered m (chunk ∷ chunks) waiting json
  next_read m chunk chunks all j waiting json e go =
      let (n, read, v) = append_data-some m chunk (all, j) e in
      let (k, fed, w, t) = go n (ap (λ x. x.0) v) (ap (λ x. x.1) v) in
      (k, feed-cons m n chunk chunks read ∙ fed, w, t)

  -- Empty reads with nothing waiting change nothing.
  feed-nothing :
      (m : InputBuffer ev) (chunks : List Bytes)
      → contents m.buffer ≡ []
      → flatten chunks ≡ []
      → Delivered m chunks [] m.current_json
  unfolding feed
  feed-nothing m [] w e = (m, refl, w, refl)
  feed-nothing m (chunk ∷ chunks) w e =
      next_read m chunk chunks [] m.current_json [] m.current_json
        (rw (w, (nil_parts chunk (flatten chunks) (sym (flatten-cons chunk chunks) ∙ e)).0))
        λ n v t.
          let (k, fed, x, u) =
            feed-nothing n chunks v
              (nil_parts chunk (flatten chunks) (sym (flatten-cons chunk chunks) ∙ e)).1 in
          (k, fed, x, u ∙ t)

  -- Reads that stay short of the end of a frame change nothing but what is waiting.
  pub feed-prefix :
      (m : InputBuffer ev) (chunks : List Bytes) (msg q : Bytes)
      → IsShort msg
      → contents m.buffer ++ (flatten chunks ++ q) ≡ frame msg
      → 0 < length q
      → Delivered m chunks (contents m.buffer ++ flatten chunks) m.current_json
  unfolding feed mathlib.Core.List.flatten
  feed-prefix m [] msg q s e l = (m, refl, sym (append-nil (contents m.buffer)), refl)
  feed-prefix m (chunk ∷ chunks) msg q s e l =
      next_read m chunk chunks (contents m.buffer ++ chunk) m.current_json _ _
        (accept-prefix m.current_json msg (contents m.buffer ++ chunk) (flatten chunks ++ q) s cut
          (omega (arith, length-append (flatten chunks) q)))
        λ n w t.
          let (k, fed, x, u) =
            feed-prefix n chunks msg q s (ap (λ b. b ++ (flatten chunks ++ q)) w ∙ cut) l in
          (
            k,
            fed,
            x
                ∙ ap (λ b. b ++ flatten chunks) w
                ∙ append_assoc (contents m.buffer) chunk (flatten chunks),
            u ∙ t,
          )
    where
      cut : (contents m.buffer ++ chunk) ++ (flatten chunks ++ q) ≡ frame msg
      cut =
          append_assoc (contents m.buffer) chunk (flatten chunks ++ q)
          ∙ ap (λ t. contents m.buffer ++ t) (sym (append_assoc chunk (flatten chunks) q))
          ∙ e

  feed-frame :
      (m : InputBuffer ev) (chunks : List Bytes) (msg : Bytes)
      → 0 < length msg
      → IsShort msg
      → contents m.buffer ++ flatten chunks ≡ frame msg
      → length (contents m.buffer) < length (frame msg)
      → Delivered m chunks [] (m.current_json ++ msg)
  unfolding mathlib.Core.List.flatten
  feed-frame m [] msg h s e l =
      absurd (omega (arith, ap length e, length-append (contents m.buffer) []))
  feed-frame m (chunk ∷ chunks) msg h s e l = elim (Bool-cases (ltb 0 (length (flatten chunks)))) [
    | inl more ↦
        next_read m chunk chunks (contents m.buffer ++ chunk) m.current_json _ _
          (accept-prefix m.current_json msg (contents m.buffer ++ chunk) (flatten chunks) s cut
            (ground arith))
          λ n w t.
            let (k, fed, x, u) =
              feed-frame n chunks msg h s (ap (λ b. b ++ flatten chunks) w ∙ cut) (
                ground (
                  arith,
                  w,
                  ap length cut,
                  length-append (contents m.buffer ++ chunk) (flatten chunks),
                )) in
            (k, fed, x, u ∙ ap (λ b. b ++ msg) t)
    | inr done ↦
        next_read m chunk chunks [] (m.current_json ++ msg) _ _
          (rw (whole done) (accept-frame m.current_json msg [] h s))
          λ n w t. let (k, fed, x, u) = feed-nothing n chunks w (ended done) in (k, fed, x, u ∙ t)
  ]
    where
      cut : (contents m.buffer ++ chunk) ++ flatten chunks ≡ frame msg
      cut = append_assoc (contents m.buffer) chunk (flatten chunks) ∙ e

      ended : ltb 0 (length (flatten chunks)) ≡ false → flatten chunks ≡ []
      ended done = nil_of_length (flatten chunks) (ground arith)

      whole : ltb 0 (length (flatten chunks)) ≡ false → contents m.buffer ++ chunk ≡ frame msg ++ []
      whole done =
          sym (append-nil (contents m.buffer ++ chunk))
          ∙ ap (λ t. (contents m.buffer ++ chunk) ++ t) (sym (ended done))
          ∙ cut
          ∙ sym (append-nil (frame msg))

  -- For a message that is not empty and is short enough, cut into any reads: after the last read
  -- the message stands at the end of the pending text, and no byte is left waiting.
  pub feed-reassembles :
      (m : InputBuffer ev) (chunks : List Bytes) (msg : Bytes)
      → contents m.buffer ≡ []
      → 0 < length msg
      → IsShort msg
      → flatten chunks ≡ frame msg
      → (n : InputBuffer ev) × (feed ev m chunks ≡ some n)
        × (contents n.buffer ≡ [])
        × ((pop_current_message ev n).0 ≡ m.current_json ++ msg)
  unfolding pop_current_message
  feed-reassembles m chunks msg w h s e =
      feed-frame m chunks msg h s (rw w e) (rw w (omega (arith, length-frame msg)))
