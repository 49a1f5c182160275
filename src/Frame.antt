-- ===== src/Frame.antt =====
-- The frame that `RSession::sendJsonToClientSource` of src/RSession.cpp puts round a message.
use rc2compute.Prelude.{◌+◌, ◌^◌, ◌<◌, ◌≡◌, refl, ◌++◌, arith, Bytes, length, drop}
use rc2compute.Word.{u32, put_be32, get_be32}
use rc2compute.InputBuffer.{magic_number}

-- Two 32-bit words in network order and the text; `header[1] = json.length()` keeps 32 bits.
unfoldable pub frame : Bytes → Bytes
frame json = put_be32 magic_number ++ (put_be32 (u32 (length json)) ++ json)

-- A message whose length does not overflow the receiver's 32-bit sum.
abbrev pub IsShort : Bytes → Type 0
IsShort msg = length msg + 8 < 2 ^ 32

module _ (msg : Bytes) where
  pub length-frame : length (frame msg) ≡ 8 + length msg
  unfolding frame put_be32
  length-frame = omega arith

  pub frame-magic : (rest : Bytes) → get_be32 (frame msg ++ rest) ≡ magic_number
  unfolding frame put_be32 get_be32
  frame-magic rest = omega arith

  pub frame-size : (rest : Bytes) → IsShort msg → get_be32 (drop 4 (frame msg ++ rest)) ≡ length msg
  unfolding frame put_be32 get_be32
  frame-size rest h = omega arith

  pub frame-body : (rest : Bytes) → drop 8 (frame msg ++ rest) ≡ msg ++ rest
  unfolding frame put_be32
  frame-body rest = refl
