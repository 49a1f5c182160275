-- ===== src/Session/Printing.antt =====
-- src/RSession.cpp: what R's output, and sending it, leave alone.
use rc2compute.Prelude.{
  Bool, true, false, List, [], ◌∷◌, Bytes, lit, length, ltb, ◌||◌, if◌then◌else◌,
}
use rc2compute.Numbers.{pos, lt_ℤ}
use rc2compute.Effects.{Result, Exec}
use rc2compute.Effects.Hoare.{Triple, by_bind, by_modify, by_state}
use rc2compute.World.{World, Console}
use rc2compute.FileManager.{Manager}
use rc2compute.Session.{
  with_world, in_world, lift, world_of, format_string_as_json, Platform, Session, send_json,
  send_text, send_output, console_callback, console_callbacks, eval, flush_output_buffer,
  in_manager,
}

module _ (pf : Platform) where
  open pf use {world}

  -- A predicate that does not depend on the output and on the state of what the session calls.
  pub record IsKept (P : Session pf → Type 0) : Type 0 where
    pub by_written : (s : Session pf) (x : Bytes) → P s → P (record s { written = x })
    pub by_console : (s : Session pf) (x : Bytes) → P s → P (record s { console_out = x })
    pub by_capture : (s : Session pf) (x : Bytes) → P s → P (record s { std_out_capture = x })
    pub by_manager : (s : Session pf) (m : Manager world) → P s → P (record s { manager = m })

  module _ {P : Session pf → Type 0} (k : IsKept P) where
    under_if : (b : Bool) (s t : Session pf) → P s → P t → P (if b then s else t)
    under_if true s t h j = h
    under_if false s t h j = j

    pub send_json-keeps : (json : Bytes) (s : Session pf) → P s → P (send_json pf json s)
    unfolding send_json
    send_json-keeps json s h =
        under_if (ltb (length json) 1) _ _ h
          (under_if (lt_ℤ (pos 0) s.socket) _ _ (k.by_written s _ h) h)

    pub console_callback-keeps : (s : Session pf) (c : Console) → P s → P (console_callback pf s c)
    unfolding console_callback
    console_callback-keeps s c h = under_if s.capture_std_out _ _ (k.by_capture s _ h) (
        under_if s.ignore_output _ _ h (
          under_if c.is_error _ _ (send_json-keeps (format_string_as_json pf s c.text true) s h)
            (under_if (c.visible || s.source_in_progress) _ _ (k.by_console s _ h) h)))

    pub console_callbacks-keeps :
        (s : Session pf) (console : List Console) → P s → P (console_callbacks pf s console)
    unfolding console_callbacks
    console_callbacks-keeps s [] h = h
    console_callbacks-keeps s (c ∷ cs) h =
        console_callbacks-keeps (console_callback pf s c) cs (console_callback-keeps s c h)

    pub eval-keeps : {E : Session pf → Type 0} (code : Bytes) → Triple P (eval pf code) (λ _. P) E
    unfolding eval
    eval-keeps {E} code = record { at = λ s h. console_callbacks-keeps _ _ (k.by_manager s _ h) }

    pub send_output-keeps : (is_error : Bool) (s : Session pf) → P s → P (send_output pf is_error s)
    unfolding send_output send_text
    send_output-keeps is_error s h =
        let text = format_string_as_json pf s s.console_out is_error in
        under_if (ltb 0 (length s.console_out)) _ _ (k.by_console _ [] (send_json-keeps text s h)) h

  -- A call of the file manager.
  pub in_manager-keeps :
      {P : Session pf → Type 0} {A : Type 0} (k : IsKept P) (m : Exec (Manager world) A)
      → Triple P (in_manager pf m) (λ _. P) P
  in_manager-keeps {P} k m = record {
    at = λ s h.
        let (r, t) = m s.manager in by_state P r (record s { manager = t }) (k.by_manager s t h);
  }

  pub in_world-keeps :
      {P : Session pf → Type 0} {A : Type 0} (k : IsKept P)
      (f : World.W world → Result A × World.W world)
      → Triple P (in_world pf f) (λ _. P) P
  in_world-keeps {P} k f = record {
    at = λ s h.
        let (r, d) = f (world_of pf s) in by_state P r (with_world pf d s) (k.by_manager s _ h);
  }

  pub lift-keeps :
      {P : Session pf → Type 0} {A : Type 0} (r : Result A) → Triple P (lift pf r) (λ _. P) P
  lift-keeps {P} r = record { at = λ s h. by_state P r s h }

  -- `sendOutputBufferToClient` after a call of R without output, which is ignored meanwhile.
  pub flush_output_buffer-keeps :
      {P Q E : Session pf → Type 0}
      → IsKept P
      → IsKept Q
      → ((s : Session pf) → P s → Q (record s { ignore_output = true }))
      → ((s : Session pf) → Q s → P (record s { ignore_output = false }))
      → Triple P (flush_output_buffer pf) (λ _. P) E
  unfolding flush_output_buffer
  flush_output_buffer-keeps {P} {Q} k l on off = by_bind _ _ (by_modify {Q = λ _. Q} _ on) λ _.
      by_bind _ _ (eval-keeps l (lit "rc2.pngoff()"))
        λ _. by_bind _ _ (by_modify {Q = λ _. P} _ off) λ _. by_modify _ (send_output-keeps k false)
