-- ===== src/Session/Reading.antt =====
-- src/RSession.cpp: one read from the socket, from the bytes to the command.
use rc2compute.Prelude.{
  ◌<◌, ◌≡◌, ◌≢◌, ◌∙◌, refl, ap, sym, Bool, true, false, Bool-cases, inl, inr, Option, none, some,
  [], ◌++◌, append-nil, arith, Bytes, length, ltb, if◌then◌else◌,
}
use rc2compute.Effects.{
  Exn, is_runtime_error, what, any_exception, Result, ok, raised, undefined, Exec, pure, raise,
  modify, try_catch, caught, continue, ◌>>=◌, ◌>>◌,
}
use rc2compute.Numbers.{pos}
use rc2compute.Frame.{frame, IsShort}
use rc2compute.InputBuffer.{
  Evbuffer, InputBuffer, append_data, has_complete_message, pop_current_message,
}
use rc2compute.InputBuffer.Cases.{accept}
use rc2compute.InputBuffer.Reassembly.{append_data-some, accept-frame, accept-prefix}
use rc2compute.Command.{JsonLib, CommandType}
use rc2compute.Session.{
  Platform, Session, send_json, format_error_as_json, exec_file_markdown_failed,
}
use rc2compute.Session.Output.{sent, send_json-written}
use rc2compute.Session.Dispatch.{document, run_document, handle_json_command, handle_read}

module _ (pf : Platform) where
  open pf use {ev}

  not_empty : (msg : Bytes) → 0 < length msg → ltb 0 (length msg) ≡ true
  not_empty msg full = ground arith

  -- The read that completes a frame behind the bytes that are waiting.
  pub handle_read-completes :
      (memory : CommandType) (chunk msg : Bytes) (s : Session pf)
      → Evbuffer.contents ev s.input.buffer ++ chunk ≡ frame msg
      → s.input.current_json ≡ []
      → 0 < length msg
      → IsShort msg
      → (n : InputBuffer ev) × (Evbuffer.contents ev n.buffer ≡ [])
        × (n.current_json ≡ [])
        × (handle_read pf memory chunk s
            ≡ try_catch
                (handle_json_command pf memory msg)
                any_exception
                (λ e. pure tt)
                (record s { input = n }))
  unfolding handle_read has_complete_message pop_current_message try_catch
  handle_read-completes memory chunk msg s whole pending full short =
      let (m, read, v) = append_data-some ev s.input chunk ([], msg) accepted in
      (record m { current_json = [] }, ap (λ x. x.0) v, refl, runs m read (ap (λ x. x.1) v))
    where
      accepted :
          accept s.input.current_json (Evbuffer.contents ev s.input.buffer ++ chunk)
          ≡ some ([], msg)
      accepted =
          ap (accept s.input.current_json) whole
          ∙ ap (λ j. accept j (frame msg)) pending
          ∙ ap (accept []) (sym (append-nil (frame msg)))
          ∙ accept-frame [] msg [] full short

      runs :
          (m : InputBuffer ev)
          → append_data ev s.input chunk ≡ some m
          → m.current_json ≡ msg
          → handle_read pf memory chunk s
            ≡ try_catch
                (handle_json_command pf memory msg)
                any_exception
                (λ e. pure tt)
                (record s { input = record m { current_json = [] } })
      runs m read e =
          rw (read, handle_read, ap (λ t. ltb 0 (length t)) e ∙ not_empty msg full)
            (ap
              (λ t.
                try_catch (handle_json_command pf memory t) any_exception (λ x. pure tt)
                  (record s { input = record m { current_json = [] } }))
              e)

  -- A read that brings exactly one frame, when nothing is waiting: the session runs the message as a command,
  -- with its input empty again, and only logs what the command throws.
  pub handle_read-command :
      (memory : CommandType) (msg : Bytes) (s : Session pf)
      → Evbuffer.contents ev s.input.buffer ≡ []
      → s.input.current_json ≡ []
      → 0 < length msg
      → IsShort msg
      → (n : InputBuffer ev) × (Evbuffer.contents ev n.buffer ≡ [])
        × (n.current_json ≡ [])
        × (handle_read pf memory (frame msg) s
            ≡ try_catch
                (handle_json_command pf memory msg)
                any_exception
                (λ e. pure tt)
                (record s { input = n }))
  handle_read-command memory msg s waiting pending full short =
      handle_read-completes memory (frame msg) msg s (ap (λ b. b ++ frame msg) waiting) pending full
        short

  -- A read that stays short of the end of a frame only adds to the bytes that are waiting.
  pub handle_read-waits :
      (memory : CommandType) (chunk rest msg : Bytes) (s : Session pf)
      → (Evbuffer.contents ev s.input.buffer ++ chunk) ++ rest ≡ frame msg
      → 0 < length rest
      → s.input.current_json ≡ []
      → IsShort msg
      → (n : InputBuffer ev) × (Evbuffer.contents ev n.buffer
          ≡ Evbuffer.contents ev s.input.buffer ++ chunk)
        × (n.current_json ≡ [])
        × (handle_read pf memory chunk s ≡ (ok tt, record s { input = n }))
  unfolding handle_read has_complete_message try_catch
  handle_read-waits memory chunk rest msg s cut more pending short =
      let all = Evbuffer.contents ev s.input.buffer ++ chunk in
      let (m, read, v) =
        append_data-some ev s.input chunk (all, s.input.current_json)
          (accept-prefix s.input.current_json msg all rest short cut more) in
      let nothing : m.current_json ≡ [] = ap (λ x. x.1) v ∙ pending in
      (m, ap (λ x. x.0) v, nothing, rw (read, ap (λ t. ltb 0 (length t)) nothing) refl)

module _ (pf : Platform) where
  open pf use {js}

  handled :
      (r : Result Bool) (t : Session pf) (reply : Exn → Session pf → Session pf) (e : Exn)
      → (caught r is_runtime_error (λ x. do modify (reply x); pure true) t).0 ≡ raised e
      → is_runtime_error e ≡ false
  unfolding ◌>>=◌ modify pure raise
  handled (ok a) t reply e h = absurd (ground (arith, h))
  handled (raised x) t reply e h = elim (Bool-cases (is_runtime_error x)) [
    | inl takes ↦ absurd (ground (arith, h, takes))
    | inr leaves ↦ ground (arith, h, leaves)
  ]
  handled undefined t reply e h = absurd (ground (arith, h))

  passed_on :
      (r : Result Bool) (t : Session pf) (e : Exn)
      → (continue r
          (λ done. if done then modify (λ s. record s { current_query_id = pos 0 }) else pure tt)
          t).0
        ≡ raised e
      → r ≡ raised e
  unfolding modify pure
  passed_on (ok true) t e h = absurd (ground (arith, h))
  passed_on (ok false) t e h = absurd (ground (arith, h))
  passed_on (raised x) t e h = ground (arith, h)
  passed_on undefined t e h = absurd (ground (arith, h))

  guarded :
      (b : Bool) (m : Exec (Session pf) (Unit {0})) (s : Session pf) (e : Exn)
      → ((if b then pure tt else m) s).0 ≡ raised e
      → (m s).0 ≡ raised e
  unfolding pure
  guarded true m s e h = absurd (ground (arith, h))
  guarded false m s e h = h

  given :
      (doc : Option (JsonLib.J js)) (m : JsonLib.J js → Exec (Session pf) (Unit {0}))
      (s : Session pf) (e : Exn)
      → ((d : JsonLib.J js) → (m d s).0 ≡ raised e → is_runtime_error e ≡ false)
      → ((elim doc as (λ x. Exec (Session pf) (Unit {0})) [ none ↦ pure tt | some d ↦ m d ]) s).0
        ≡ raised e
      → is_runtime_error e ≡ false
  unfolding pure
  given none m s e k h = absurd (ground (arith, h))
  given (some d) m s e k h = k d h

  -- What `handleJsonCommand` throws is never a runtime_error, whatever the message and the state are.
  pub handle_json_command-contains :
      (memory : CommandType) (json : Bytes) (s : Session pf) (e : Exn)
      → (handle_json_command pf memory json s).0 ≡ raised e
      → is_runtime_error e ≡ false
  unfolding handle_json_command ◌>>=◌ try_catch
  handle_json_command-contains memory json s e h =
      given (document pf (JsonLib.parse js json)) _ s e
        (λ doc k.
          let (r, t) = run_document pf memory doc s in
          handled r t
            (λ x. send_json pf (format_error_as_json pf exec_file_markdown_failed (what x) (pos 1)))
            e (passed_on _ _ e k))
        (guarded (ltb (length json) 1) _ s e h)

  -- A message whose command throws, in the state that it leaves. A runtime_error, which a database error is,
  -- is answered: behind what the command has written comes the frame of the error's document, unless that is
  -- empty or the session has no socket, nothing is thrown, and no query is current any more. Any other exception,
  -- such as a FormattedException, is thrown on, nothing is written for it, and the query stays current.
  pub handle_json_command-answers :
      (memory : CommandType) (json : Bytes) (doc : JsonLib.J js) (e : Exn) (s t : Session pf)
      → 0 < length json
      → document pf (JsonLib.parse js json) ≡ some doc
      → run_document pf memory doc s ≡ (raised e, t)
      → let answer = format_error_as_json pf exec_file_markdown_failed (what e) (pos 1) in
        let (r, u) = handle_json_command pf memory json s in
        (r ≡ (if is_runtime_error e then ok tt else raised e))
        × (u.written ≡ t.written ++ (if is_runtime_error e then sent pf answer t else []))
        × (u.current_query_id ≡ (if is_runtime_error e then pos 0 else t.current_query_id))
  unfolding handle_json_command ◌>>=◌ try_catch modify pure raise
  handle_json_command-answers memory json doc e s t full parses throws =
      let some_bytes : ltb (length json) 1 ≡ false = ground (arith, full) in
      let answer = format_error_as_json pf exec_file_markdown_failed (what e) (pos 1) in
      elim (Bool-cases (is_runtime_error e)) [
        | inl takes ↦
            rw (some_bytes, parses, throws, takes, handle_json_command)
              ((refl, (send_json-written pf answer t).1, refl))
        | inr leaves ↦
            rw (some_bytes, parses, throws, leaves, handle_json_command)
              ((refl, sym (append-nil t.written), refl))
      ]

  swallowed :
      (r : Result (Unit {0})) (t : Session pf) (e : Exn)
      → (caught r any_exception (λ x. pure tt) t).0 ≢ raised e
  unfolding pure
  swallowed (ok a) t e h = ground (arith, h)
  swallowed (raised x) t e h = ground (arith, h)
  swallowed undefined t e h = ground (arith, h)

  -- The callback of the socket throws nothing, whatever bytes arrive in whatever state.
  pub handle_read-throws_nothing :
      (memory : CommandType) (chunk : Bytes) (s : Session pf) (e : Exn)
      → (handle_read pf memory chunk s).0 ≢ raised e
  unfolding handle_read try_catch
  handle_read-throws_nothing memory chunk s e = swallowed _ _ e
