-- ===== src/InputBuffer.antt =====
-- src/InputBufferManager.cpp and its header: the framing of messages that arrive on the socket.
-- libevent's `evbuffer` is a parameter, a queue of bytes with the documented laws.
pub mod Cases
pub mod Reassembly
pub mod Faults
use rc2compute.Prelude.{
  ℕ, ◌+◌, ◌%◌, ◌^◌, ◌≤◌, ◌<◌, ◌≡◌, Bool, true, false, not, Option, none, some, List, [], ◌∷◌, ◌++◌,
  Bytes, length, take, drop, ltb, leb, ◌==◌, if◌then◌else◌,
}
use rc2compute.Word.{u32, get_be32}

-- What the code uses of libevent's buffers. `contents` is the view in which the laws are stated.
pub record Evbuffer : Type 1 where
  pub Buf : Type 0
  pub contents : Buf → Bytes
  pub new : Buf
  pub add_buffer : Buf → Bytes → Option Buf
  pub get_length : Buf → ℕ
  pub copyout : Buf → ℕ → Bytes
  pub remove : Buf → ℕ → Bytes × Buf
  pub drain : Buf → ℕ → Buf
  pub contents-new : contents new ≡ []
  -- only a frozen buffer refuses data, and the program freezes none
  pub contents-add_buffer :
      (b : Buf) (x : Bytes) → (c : Buf) × (add_buffer b x ≡ some c) × (contents c ≡ contents b ++ x)
  pub get_length_lem : (b : Buf) → get_length b ≡ length (contents b)
  pub copyout_lem : (b : Buf) (n : ℕ) → copyout b n ≡ take n (contents b)
  pub remove_lem :
      (b : Buf) (n : ℕ)
      → ((remove b n).0 ≡ take n (contents b)) × (contents (remove b n).1 ≡ drop n (contents b))
  pub contents-drain : (b : Buf) (n : ℕ) → contents (drain b n) ≡ drop n (contents b)

abbrev pub magic_number : ℕ
magic_number = 0x21

module _ (ev : Evbuffer) where
  open ev use {Buf, contents, new, add_buffer, get_length, copyout, remove, drain}

  -- `_expectedSize` is set by `reset` and read nowhere.
  pub record InputBuffer : Type 0 where
    pub buffer : Buf
    pub expected_size : ℕ
    pub current_json : Bytes

  -- the constructor leaves `_expectedSize` as it finds it
  unfoldable pub init : ℕ → InputBuffer
  init expected = record { buffer = new; expected_size = expected; current_json = [] }

  unfoldable pub reset : InputBuffer → InputBuffer
  reset m = record {
    buffer = drain m.buffer (get_length m.buffer);
    expected_size = 0;
    current_json = [];
  }

  -- `string(&buff.get()[8], jsonSize)` over the `dataSize` bytes just removed; a read past their
  -- end is undefined, which is `none`.
  unfoldable pub take_message : InputBuffer → ℕ → ℕ → Option InputBuffer
  take_message m data_size json_size =
      let (buff, rest) = remove m.buffer data_size in
      if leb (8 + json_size) (length buff)
      then some (record m {
        buffer = rest;
        current_json = m.current_json ++ take json_size (drop 8 buff);
      })
      else none

  -- The header of a buffer of more than 8 bytes. `jsonSize + 8` is computed in 32 bits.
  unfoldable pub examine : InputBuffer → ℕ → Option InputBuffer
  examine m data_size =
      let head = copyout m.buffer 8 in
      let magic = get_be32 head in
      let json_size = get_be32 (drop 4 head) in
      if not (magic == magic_number)
      then some (reset m)
      else if leb (u32 (json_size + 8)) data_size
      then take_message m data_size json_size
      else some m

  unfoldable pub append_data : InputBuffer → Bytes → Option InputBuffer
  append_data m chunk =
      let appended : InputBuffer = elim (add_buffer m.buffer chunk) [
        | none ↦ m
        | some b ↦ record m { buffer = b }
      ] in
      let data_size = get_length appended.buffer in
      if ltb 8 data_size then examine appended data_size else some appended

  unfoldable pub has_complete_message : InputBuffer → Bool
  has_complete_message m = ltb 0 (length m.current_json)

  unfoldable pub pop_current_message : InputBuffer → Bytes × InputBuffer
  pop_current_message m = (m.current_json, record m { current_json = [] })

  -- Several reads from the socket, one after another.
  unfoldable pub feed : InputBuffer → List Bytes → Option InputBuffer
  feed m [] = some m
  feed m (chunk ∷ chunks) = elim (append_data m chunk) [ none ↦ none | some n ↦ feed n chunks ]
