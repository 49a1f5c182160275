-- ===== src/Tests/Framing.antt =====
-- The framing of messages, numbers and quoted text on concrete input.
use rc2compute.Prelude.{
  ◌-◌, ◌^◌, ◌≤◌, ◌≡◌, ◌↔◌, refl, false, none, some, List, [], ◌∷◌, ◌++◌, drop, arith, Bytes, lit,
}
use mathlib.Core.Option
use rc2compute.Numbers.{ℤ, pos, negsuc, show, atol}
use rc2compute.Word.{get_be32}
use rc2compute.Frame.{frame}
use rc2compute.InputBuffer.{InputBuffer, append_data, feed, pop_current_message}
use rc2compute.InputBuffer.Cases.{accept, view, append_data-accept}
use rc2compute.InputBuffer.Faults.{append_data-overrun, append_data-drops_rest}
use rc2compute.Utils.{escape_quotes}
use rc2compute.Utils.Quoting.{read_literal, read-escape_quotes, read-escape_quotes_single}
use rc2compute.Session.{send_json}
use rc2compute.Session.Channel.{send_json-received}
use rc2compute.Utils.Directories.{IsThere}
use rc2compute.Numbers.{pos}
use rc2compute.Tests.{test_world, byte_list, no_messages, platform, session}

-- The frame of the text `hi`, in two reads.
abbrev hi_reads : List Bytes
hi_reads = (0 ∷ 0 ∷ 0 ∷ 0x21 ∷ 0 ∷ []) ∷ (0 ∷ 0 ∷ 2 ∷ b'h' ∷ b'i' ∷ []) ∷ []

append_data-accept_example :
    Option.map
      (view byte_list)
      (append_data byte_list no_messages (0 ∷ 0 ∷ 0 ∷ 0x21 ∷ 0 ∷ 0 ∷ 0 ∷ 1 ∷ b'x' ∷ []))
    ≡ accept [] (0 ∷ 0 ∷ 0 ∷ 0x21 ∷ 0 ∷ 0 ∷ 0 ∷ 1 ∷ b'x' ∷ [])
append_data-accept_example =
    append_data-accept byte_list no_messages (0 ∷ 0 ∷ 0 ∷ 0x21 ∷ 0 ∷ 0 ∷ 0 ∷ 1 ∷ b'x' ∷ [])

-- A size word of 2 ^ 32 - 1.
abbrev bad_size : Bytes
bad_size = 0 ∷ 0 ∷ 0 ∷ 0x21 ∷ 255 ∷ 255 ∷ 255 ∷ 255 ∷ b'x' ∷ []

append_data-overrun_example :
    (append_data byte_list no_messages bad_size ≡ none) ↔ (2 ^ 32 - 8 ≤ get_be32 (drop 4 bad_size))
unfolding get_be32
append_data-overrun_example =
    append_data-overrun byte_list no_messages bad_size (ground arith) (omega arith) (omega arith)
      refl

append_data-drops_rest_example :
    (n : InputBuffer byte_list) × (append_data byte_list no_messages
        (frame (lit "hi") ++ frame (lit "you"))
      ≡ some n)
    × (n.buffer ≡ [])
    × ((pop_current_message byte_list n).0 ≡ lit "hi")
unfolding lit
append_data-drops_rest_example =
    append_data-drops_rest byte_list no_messages (lit "hi") (frame (lit "you")) refl (omega arith)
      (omega arith)

send_json-received_example :
    (n : InputBuffer byte_list) × (feed byte_list no_messages hi_reads ≡ some n)
    × (n.buffer ≡ [])
    × ((pop_current_message byte_list n).0 ≡ lit "hi")
unfolding lit frame rc2compute.Word.put_be32 mathlib.Core.List.flatten send_json
    rc2compute.Numbers.lt_ℤ
send_json-received_example =
    send_json-received platform byte_list session (lit "hi") no_messages hi_reads refl (omega arith)
      (omega arith) refl refl

read-escape_quotes_example :
    read_literal b'"' false (escape_quotes (lit "a\"\\") ++ b'"' ∷ lit ")")
    ≡ some (lit "a\"\\", lit ")")
read-escape_quotes_example = read-escape_quotes (lit "a\"\\") (lit ")")

read-escape_quotes_single_example :
    read_literal b'\'' false (escape_quotes (lit "it" ++ b'\'' ∷ lit "s.Rnw") ++ b'\'' ∷ lit ")")
    ≡ some (lit "it", escape_quotes (lit "s.Rnw") ++ b'\'' ∷ lit ")")
unfolding lit
read-escape_quotes_single_example =
    read-escape_quotes_single (lit "it") (lit "s.Rnw") (lit ")") (refl, (refl, tt))

all-IsThere : (b : Bytes) → IsThere test_world tt b
all-IsThere [] = tt
all-IsThere (c ∷ cs) = refl
