-- ===== src/Session/Channel.antt =====
-- src/RSession.cpp and src/InputBufferManager.cpp: what a session writes, a receiver with the same framing reads.
use rc2compute.Prelude.{
  ◌<◌, ◌≡◌, ◌∙◌, sym, true, some, List, [], ◌∷◌, ◌++◌, flatten, arith, Bytes, length,
}
use rc2compute.Numbers.{pos, lt_ℤ}
use rc2compute.Frame.{frame, IsShort}
use rc2compute.InputBuffer.{Evbuffer, InputBuffer, feed, pop_current_message}
use rc2compute.InputBuffer.Reassembly.{feed-reassembles}
use rc2compute.Session.{Platform, Session, send_json}

append_cancel : (xs ys zs : Bytes) → xs ++ ys ≡ xs ++ zs → ys ≡ zs
append_cancel [] ys zs e = e
append_cancel (x ∷ xs) ys zs e = append_cancel xs ys zs (ground arith)

module _ (pf : Platform) where
  write :
      (s : Session pf) (json : Bytes)
      → lt_ℤ (pos 0) s.socket ≡ true
      → 0 < length json
      → (send_json pf json s).written ≡ s.written ++ frame json
  unfolding send_json
  write s json connected full = ground arith

module _ (pf : Platform) (ev : Evbuffer) where
  -- A message of a session with a socket, not empty and short enough for a 32-bit sum: a receiver with nothing
  -- waiting, which is fed the bytes written for it in any reads, has the message behind its pending text, and no
  -- byte is left.
  pub send_json-received :
      (s : Session pf) (json : Bytes) (m : InputBuffer ev) (chunks : List Bytes)
      → lt_ℤ (pos 0) s.socket ≡ true
      → 0 < length json
      → IsShort json
      → Evbuffer.contents ev m.buffer ≡ []
      → (send_json pf json s).written ≡ s.written ++ flatten chunks
      → (n : InputBuffer ev) × (feed ev m chunks ≡ some n)
        × (Evbuffer.contents ev n.buffer ≡ [])
        × ((pop_current_message ev n).0 ≡ m.current_json ++ json)
  send_json-received s json m chunks connected full short empty sent =
      feed-reassembles ev m chunks json empty full short (
        append_cancel s.written (flatten chunks) (frame json)
          (sym sent ∙ write pf s json connected full))
