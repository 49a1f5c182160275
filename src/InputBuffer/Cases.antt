-- ===== src/InputBuffer/Cases.antt =====
-- One call of `append_data`, as a function of the bytes that are waiting.
use mathlib.Core.Option
use rc2compute.Prelude.{
  ℕ, ◌+◌, ◌<◌, ◌≡◌, refl, not, Option, none, some, [], ◌∷◌, ◌++◌, arith, Bytes, length, take,
  take_all, drop, drop_all, ltb, leb, ◌==◌, if◌then◌else◌,
}
use rc2compute.Word.{u32, get_be32}
use rc2compute.InputBuffer.{
  Evbuffer, InputBuffer, magic_number, append_data, examine, take_message, reset,
}

-- The abstract receiver: it has the bytes not yet consumed and the text of the messages.
abbrev pub accept : Bytes → Bytes → Option (Bytes × Bytes)
accept json all =
    if ltb 8 (length all)
    then if not (get_be32 all == magic_number)
      then some ([], [])
      else if leb (u32 (get_be32 (drop 4 all) + 8)) (length all)
      then if leb (8 + get_be32 (drop 4 all)) (length all)
        then some ([], json ++ take (get_be32 (drop 4 all)) (drop 8 all))
        else none
      else some (all, json)
    else some (all, json)

head_words :
    (all : Bytes)
    → 8 < length all
    → (get_be32 (take 8 all) ≡ get_be32 all)
      × (get_be32 (drop 4 (take 8 all)) ≡ get_be32 (drop 4 all))
unfolding get_be32
head_words (a ∷ b ∷ c ∷ d ∷ e ∷ f ∷ g ∷ h ∷ rest) p = (refl, refl)
head_words _ p = absurd (omega arith)

module _ (ev : Evbuffer) where
  open ev use {Buf, contents, add_buffer}

  abbrev pub view : InputBuffer ev → Bytes × Bytes
  view m = (contents m.buffer, m.current_json)

  reset-view : (m : InputBuffer ev) → view (reset ev m) ≡ ([], [])
  unfolding reset
  reset-view m = rw (
    ev.contents-drain m.buffer (ev.get_length m.buffer),
    ev.get_length_lem m.buffer,
    drop_all (length (contents m.buffer)) (contents m.buffer) (omega arith),
  )

  take_message-view :
      (m : InputBuffer ev) (all : Bytes) (n : ℕ)
      → contents m.buffer ≡ all
      → Option.map view (take_message ev m (length all) n) ≡ (
          if leb (8 + n) (length all)
          then some ([], m.current_json ++ take n (drop 8 all))
          else none)
  unfolding take_message
  take_message-view m all n e =
      rw ((ev.remove_lem m.buffer (length all)).0, e, take_all (length all) all (omega arith))
        (ground (arith, (ev.remove_lem m.buffer (length all)).1, drop_all (length all) all))

  examine-view :
      (m : InputBuffer ev) (all : Bytes)
      → contents m.buffer ≡ all
      → 8 < length all
      → Option.map view (examine ev m (length all)) ≡ accept m.current_json all
  unfolding examine
  examine-view m all e h =
      rw (ev.copyout_lem m.buffer 8, e, (head_words all h).0, (head_words all h).1)
        (ground (arith, reset-view m, take_message-view m all (get_be32 (drop 4 all)) e))

  -- `append_data` does what `accept` says, on every branch.
  pub append_data-accept :
      (m : InputBuffer ev) (chunk : Bytes)
      → Option.map view (append_data ev m chunk)
        ≡ accept m.current_json (contents m.buffer ++ chunk)
  unfolding append_data
  append_data-accept m chunk =
      let (b, added, e) = ev.contents-add_buffer m.buffer chunk in
      let n : InputBuffer ev = record m { buffer = b } in
      rw (added, ev.get_length_lem b, e)
        (ground (arith, examine-view n (contents m.buffer ++ chunk) e))
