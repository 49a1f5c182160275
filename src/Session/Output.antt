-- ===== src/Session/Output.antt =====
-- src/RSession.cpp: where the output of R goes.
use rc2compute.Prelude.{
  ◌≡◌, ◌∙◌, refl, ap, sym, Bool, Bool-cases, inl, inr, true, false, List, [], ◌∷◌, ◌++◌, append-nil,
  append_assoc, flatten, arith, Bytes, lit, length, ltb, if◌then◌else◌,
}
use rc2compute.Effects.{ok, modify, ◌>>=◌}
use rc2compute.World.{World, Console}
use rc2compute.Session.{
  Platform, Session, console_callback, console_callbacks, eval, send_output, flush_output_buffer,
  with_world, world_of, send_text, send_json, format_string_as_json,
}
use rc2compute.Frame.{frame}
use rc2compute.Numbers.{pos, lt_ℤ}

unfoldable pub texts : List Console → List Bytes
texts [] = []
texts (c ∷ cs) = c.text ∷ texts cs

nil_of_length : (xs : Bytes) → length xs ≡ 0 → xs ≡ []
nil_of_length [] h = refl
nil_of_length (x ∷ xs) h = absurd (omega arith)

module _ (pf : Platform) where
  -- The bytes that are written for a message: none for an empty one, and none without a socket.
  abbrev pub sent : Bytes → Session pf → Bytes
  sent json s = if ltb (length json) 1 then [] else if lt_ℤ (pos 0) s.socket then frame json else []

  -- The bytes that are written for the pending text.
  unfoldable pub message : Bool → Session pf → Bytes
  message is_error s = sent (format_string_as_json pf s s.console_out is_error) s

  captured_piece :
      (s : Session pf) (c : Console)
      → s.capture_std_out ≡ true
      → console_callback pf s c ≡ record s { std_out_capture = s.std_out_capture ++ c.text }
  unfolding console_callback
  captured_piece s c on = ground arith

  -- While output is captured, every piece of it is appended to `stdOutCapture`, errors included, and
  -- nothing else changes.
  pub console_callbacks-capture :
      (s : Session pf) (console : List Console)
      → s.capture_std_out ≡ true
      → console_callbacks pf s console
        ≡ record s { std_out_capture = s.std_out_capture ++ flatten (texts console) }
  unfolding console_callbacks mathlib.Core.List.flatten texts
  console_callbacks-capture s [] on =
      ap (λ t. record s { std_out_capture = t }) (sym (append-nil s.std_out_capture))
  console_callbacks-capture s (c ∷ cs) on =
      ap (λ t. console_callbacks pf t cs) (captured_piece s c on)
      ∙ console_callbacks-capture (record s { std_out_capture = s.std_out_capture ++ c.text }) cs on
      ∙ ap (λ t. record s { std_out_capture = t })
          (append_assoc s.std_out_capture c.text (flatten (texts cs)))

  ignored_piece :
      (s : Session pf) (c : Console)
      → s.capture_std_out ≡ false
      → s.ignore_output ≡ true
      → console_callback pf s c ≡ s
  unfolding console_callback
  ignored_piece s c off on = ground arith

  -- While output is ignored and not captured, the console changes nothing.
  pub console_callbacks-ignore :
      (s : Session pf) (console : List Console)
      → s.capture_std_out ≡ false
      → s.ignore_output ≡ true
      → console_callbacks pf s console ≡ s
  unfolding console_callbacks
  console_callbacks-ignore s [] off on = refl
  console_callbacks-ignore s (c ∷ cs) off on =
      ap (λ t. console_callbacks pf t cs) (ignored_piece s c off on)
      ∙ console_callbacks-ignore s cs off on

  -- The session after the device is closed: R's state is the next one, and output is not ignored.
  abbrev closed_device : Session pf → Session pf
  closed_device s =
      record (with_world pf (World.eval pf.world (world_of pf s) (lit "rc2.pngoff()")).1 s) {
        ignore_output = false;
      }

  flushed :
      (s : Session pf)
      → s.capture_std_out ≡ false
      → flush_output_buffer pf s ≡ (ok tt, send_output pf false (closed_device s))
  unfolding flush_output_buffer eval ◌>>=◌ modify
  flushed s off =
      ap (λ t. (ok tt, send_output pf false (record t { ignore_output = false })))
        (console_callbacks-ignore
          (record (with_world pf (World.eval pf.world (world_of pf s) (lit "rc2.pngoff()")).1 s) {
            ignore_output = true;
          })
          (World.eval pf.world (world_of pf s) (lit "rc2.pngoff()")).0.1 off refl)

  pub send_json-written :
      (json : Bytes) (s : Session pf)
      → ((send_json pf json s).ignore_output ≡ s.ignore_output)
        × ((send_json pf json s).written ≡ s.written ++ sent json s)
  unfolding send_json
  send_json-written json s = ground (arith, append-nil s.written)

  no_message : (is_error : Bool) (s : Session pf) → s.console_out ≡ [] → [] ≡ message is_error s
  unfolding message format_string_as_json
  no_message is_error s e = rw e refl

  same_message : (s : Session pf) → message false (closed_device s) ≡ message false s
  unfolding message format_string_as_json
  same_message s = refl

  -- What is sent is one message, and none for an empty text.
  send_output-empties :
      (is_error : Bool) (s : Session pf)
      → ((send_output pf is_error s).console_out ≡ [])
        × ((send_output pf is_error s).ignore_output ≡ s.ignore_output)
        × ((send_output pf is_error s).written ≡ s.written ++ message is_error s)
  unfolding send_output send_text message
  send_output-empties is_error s = elim (Bool-cases (ltb 0 (length s.console_out))) [
    | inl some_text ↦
        let (heard, written) =
          send_json-written (format_string_as_json pf s s.console_out is_error) s in
        rw (some_text, send_output) ((refl, heard, written))
    | inr no_text ↦
        let none_left : s.console_out ≡ [] = nil_of_length s.console_out (ground arith) in
        rw (no_text, send_output)
          ((
            none_left,
            refl,
            sym (append-nil s.written) ∙ ap (λ t. s.written ++ t) (no_message is_error s none_left),
          ))
  ]

  -- If output is not captured, `flushOutputBuffer` throws nothing and writes the frame of the document of the
  -- pending text, and nothing of what R prints while it closes the device; it writes nothing if there is no
  -- pending text, the document is empty or the session has no socket. It leaves no text pending and ends with
  -- output not ignored.
  pub flush_output_buffer-sends :
      (s : Session pf)
      → s.capture_std_out ≡ false
      → let (r, t) = flush_output_buffer pf s in
        (r ≡ ok tt)
        × (t.console_out ≡ [])
        × (t.ignore_output ≡ false)
        × (t.written ≡ s.written ++ message false s)
  flush_output_buffer-sends s off =
      let (emptied, heard, written) = send_output-empties false (closed_device s) in
      let e = flushed s off in
      (
        ap (λ x. x.0) e,
        ap (λ x. x.1.console_out) e ∙ emptied,
        ap (λ x. x.1.ignore_output) e ∙ heard,
        ap (λ x. x.1.written) e ∙ written ∙ ap (λ t. s.written ++ t) (same_message s),
      )
