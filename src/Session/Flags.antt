-- ===== src/Session/Flags.antt =====
-- src/RSession.cpp: the flags that say where R's output goes.
use rc2compute.Prelude.{◌≡◌, ap, ◌∙◌, Bytes, lit, refl, Bool, true, false}
use rc2compute.Effects.{Exec, modify}
use rc2compute.Effects.Hoare.{Triple, by_bind, by_modify, by_finally}
use rc2compute.Session.{Platform, Session, flush_output_buffer, suspended, send_json}
use rc2compute.Session.Printing.{IsKept, send_json-keeps, eval-keeps, send_output-keeps}

module _ (pf : Platform) where
  -- Output is ignored, captured, or the output of a file that is being sourced.
  pub record Flags (ignored captured sourcing : Bool) (s : Session pf) : Type 0 where
    pub ignored_is : s.ignore_output ≡ ignored
    pub captured_is : s.capture_std_out ≡ captured
    pub sourcing_is : s.source_in_progress ≡ sourcing

  -- Output goes to the client.
  abbrev pub Quiet : Session pf → Type 0
  Quiet = Flags false false false

  abbrev pub flags : Session pf → Bool × Bool × Bool
  flags s = (s.ignore_output, s.capture_std_out, s.source_in_progress)

  pub same_flags :
      {i c p : Bool} (s t : Session pf) → flags t ≡ flags s → Flags i c p s → Flags i c p t
  same_flags s t e h = record {
    ignored_is = ap (λ x. x.0) e ∙ h.ignored_is;
    captured_is = ap (λ x. x.1) e ∙ h.captured_is;
    sourcing_is = ap (λ x. x.2) e ∙ h.sourcing_is;
  }

  pub Flags-IsKept : (i c p : Bool) → IsKept pf (Flags i c p)
  Flags-IsKept i c p = record {
    by_written = λ s x h. same_flags s _ refl h;
    by_console = λ s x h. same_flags s _ refl h;
    by_capture = λ s x h. same_flags s _ refl h;
    by_manager = λ s m h. same_flags s _ refl h;
  }

  pub Quiet-IsKept : IsKept pf Quiet
  Quiet-IsKept = Flags-IsKept false false false

  -- An assignment of none of the flags.
  pub assigning :
      {i c p : Bool} {E : Session pf → Type 0} (f : Session pf → Session pf)
      → ((s : Session pf) → flags (f s) ≡ flags s)
      → Triple (Flags i c p) (modify f) (λ _. Flags i c p) E
  assigning f e = by_modify f (λ s h. same_flags s (f s) (e s) h)

  pub sending : (json : Bytes) → Triple Quiet (modify (send_json pf json)) (λ _. Quiet) Quiet
  sending json = by_modify _ (send_json-keeps pf Quiet-IsKept json)

  pub ignoring :
      {i c p : Bool} {E : Session pf → Type 0} (b : Bool)
      → Triple (Flags i c p) (modify (λ s. record s { ignore_output = b })) (λ _. Flags b c p) E
  ignoring b = by_modify _ (λ s h. record {
    ignored_is = refl;
    captured_is = h.captured_is;
    sourcing_is = h.sourcing_is;
  })

  pub capturing :
      {i c p : Bool} {E : Session pf → Type 0} (b : Bool)
      → Triple (Flags i c p) (modify (λ s. record s { capture_std_out = b })) (λ _. Flags i b p) E
  capturing b =
      by_modify _ (λ s h. record {
        ignored_is = h.ignored_is;
        captured_is = refl;
        sourcing_is = h.sourcing_is;
      })

  pub sourcing :
      {i c p : Bool} {E : Session pf → Type 0} (b : Bool)
      → Triple
          (Flags i c p)
          (modify (λ s. record s { source_in_progress = b }))
          (λ _. Flags i c b)
          E
  sourcing b =
      by_modify _ (λ s h. record {
        ignored_is = h.ignored_is;
        captured_is = h.captured_is;
        sourcing_is = refl;
      })

  -- A flush leaves output not ignored.
  pub flush-Flags :
      {i c p : Bool} {E : Session pf → Type 0}
      → Triple (Flags i c p) (flush_output_buffer pf) (λ _. Flags false c p) E
  unfolding flush_output_buffer
  flush-Flags {i} {c} {p} = by_bind _ _ (ignoring true) λ _.
      by_bind _ _ (eval-keeps pf (Flags-IsKept true c p) (lit "rc2.pngoff()")) λ _.
        by_bind _ _ (ignoring false)
          λ _. by_modify _ (send_output-keeps pf (Flags-IsKept false c p) false)

  -- Output is neither captured nor of a sourced file.
  pub record Plain (s : Session pf) : Type 0 where
    pub captured_is : s.capture_std_out ≡ false
    pub sourcing_is : s.source_in_progress ≡ false

  pub Plain-IsKept : IsKept pf Plain
  Plain-IsKept = record {
    by_written = λ s x h. record { captured_is = h.captured_is; sourcing_is = h.sourcing_is };
    by_console = λ s x h. record { captured_is = h.captured_is; sourcing_is = h.sourcing_is };
    by_capture = λ s x h. record { captured_is = h.captured_is; sourcing_is = h.sourcing_is };
    by_manager = λ s m h. record { captured_is = h.captured_is; sourcing_is = h.sourcing_is };
  }

  pub Flags-Plain : {i : Bool} (s : Session pf) → Flags i false false s → Plain s
  Flags-Plain s h = record { captured_is = h.captured_is; sourcing_is = h.sourcing_is }

  -- The scope of a `NotifySuspender`, also when it is left by a throw.
  pub suspended-Quiet :
      {A : Type 0} (m : Exec (Session pf) A)
      → Triple (Flags true false false) m (λ _. Plain) Plain
      → Triple Quiet (suspended pf m) (λ _. Quiet) Quiet
  suspended-Quiet m h = by_bind _ _ (ignoring true) λ _.
      by_finally m _
        (λ a s k. record {
          ignored_is = refl;
          captured_is = k.captured_is;
          sourcing_is = k.sourcing_is;
        })
        (λ s k. record {
          ignored_is = refl;
          captured_is = k.captured_is;
          sourcing_is = k.sourcing_is;
        })
        h
