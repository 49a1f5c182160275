-- ===== src/Session/Reads.antt =====
-- src/RSession.cpp: a message that arrives in several reads from the socket.
use rc2compute.Prelude.{
  ◌<◌, ◌≡◌, ◌∙◌, refl, sym, ap, List, [], ◌∷◌, ◌++◌, flatten, append_assoc, arith, Bytes, length,
  length-append,
}
use rc2compute.Effects.{
  any_exception, Result, ok, raised, undefined, Exec, pure, try_catch, continue, ◌>>=◌, ◌>>◌,
}
use rc2compute.Frame.{frame, IsShort}
use rc2compute.InputBuffer.{Evbuffer, InputBuffer}
use rc2compute.Command.{CommandType}
use rc2compute.Session.{Platform, Session}
use rc2compute.Session.Dispatch.{handle_json_command, handle_read}
use rc2compute.Session.Reading.{handle_read-completes, handle_read-waits}

module _ (pf : Platform) where
  open pf use {ev}

  -- The callback of the socket, once for each read.
  unfoldable pub handle_reads : CommandType → List Bytes → Exec (Session pf) (Unit {0})
  handle_reads memory [] = pure tt
  handle_reads memory (chunk ∷ chunks) = do handle_read pf memory chunk; handle_reads memory chunks

  last_read : (r : Result (Unit {0})) (t : Session pf) → continue r (λ x. pure tt) t ≡ (r, t)
  unfolding pure
  last_read (ok tt) t = refl
  last_read (raised e) t = refl
  last_read undefined t = refl

  completed :
      (memory : CommandType) (parts : List Bytes) (last msg : Bytes) (s : Session pf)
      → Evbuffer.contents ev s.input.buffer ++ (flatten parts ++ last) ≡ frame msg
      → s.input.current_json ≡ []
      → 0 < length msg
      → IsShort msg
      → 0 < length last
      → (n : InputBuffer ev) × (Evbuffer.contents ev n.buffer ≡ [])
        × (n.current_json ≡ [])
        × (handle_reads memory (parts ++ last ∷ []) s
            ≡ try_catch
                (handle_json_command pf memory msg)
                any_exception
                (λ e. pure tt)
                (record s { input = n }))
  unfolding handle_reads ◌>>=◌ mathlib.Core.List.flatten
  completed memory [] last msg s whole pending full short l =
      let (n, empty, nothing, runs) =
        handle_read-completes pf memory last msg s whole pending full short in
      (n, empty, nothing, last_read _ _ ∙ runs)
  completed memory (chunk ∷ parts) last msg s whole pending full short l =
      let cut =
        append_assoc (Evbuffer.contents ev s.input.buffer) chunk (flatten parts ++ last)
        ∙ ap (λ r. Evbuffer.contents ev s.input.buffer ++ r)
            (sym (append_assoc chunk (flatten parts) last))
        ∙ whole in
      let (n, waiting, nothing, waits) =
        handle_read-waits pf memory chunk (flatten parts ++ last) msg s cut
          (omega (arith, length-append (flatten parts) last)) pending short in
      let (k, empty, none_left, runs) =
        completed memory parts last msg (record s { input = n })
          (ap (λ b. b ++ (flatten parts ++ last)) waiting ∙ cut) nothing full short l in
      (
        k,
        empty,
        none_left,
        ap (λ x. continue x.0 (λ _. handle_reads memory (parts ++ last ∷ [])) x.1) waits ∙ runs,
      )

  -- A message that is not empty and is short enough for a 32-bit sum, when nothing is waiting: its frame may
  -- arrive cut into any reads, the last one not empty. The session then has done what it does for
  -- the message as a command, with its input empty again, and only logs what the command throws.
  pub handle_reads-command :
      (memory : CommandType) (parts : List Bytes) (last msg : Bytes) (s : Session pf)
      → Evbuffer.contents ev s.input.buffer ≡ []
      → s.input.current_json ≡ []
      → 0 < length msg
      → IsShort msg
      → flatten parts ++ last ≡ frame msg
      → 0 < length last
      → (n : InputBuffer ev) × (Evbuffer.contents ev n.buffer ≡ [])
        × (n.current_json ≡ [])
        × (handle_reads memory (parts ++ last ∷ []) s
            ≡ try_catch
                (handle_json_command pf memory msg)
                any_exception
                (λ e. pure tt)
                (record s { input = n }))
  handle_reads-command memory parts last msg s waiting pending full short whole l =
      completed memory parts last msg s (ap (λ b. b ++ (flatten parts ++ last)) waiting ∙ whole)
        pending full short l
