-- ===== src/Session/Order.antt =====
-- src/RSession.cpp: the messages of a client, each in any reads, are run one after another.
use rc2compute.Prelude.{
  ◌<◌, ◌≡◌, ◌∙◌, refl, ap, sym, subst, fun_ext, List, [], ◌∷◌, ◌++◌, map, flatten, Bytes, length,
  All,
}
use rc2compute.Effects.{
  any_exception, Result, ok, raised, undefined, Exec, pure, try_catch, caught, continue, ◌>>=◌,
}
use rc2compute.Effects.Hoare.{IsDefined}
use rc2compute.Effects.Keeps.{kept}
use rc2compute.Frame.{frame, IsShort}
use rc2compute.InputBuffer.{Evbuffer, InputBuffer}
use rc2compute.Command.{CommandType}
use rc2compute.Session.{Platform, Session}
use rc2compute.Session.Stable.{IsStable, send_json-or_not}
use rc2compute.Session.Dispatch.{handle_json_command, handle_read}
use rc2compute.Session.Dispatch.Stable.{Keeps-handle_json_command}
use rc2compute.Session.Reads.{handle_reads, handle_reads-command}

-- A message, and the reads in which its frame arrives.
pub record Arrival : Type 0 where
  pub message : Bytes
  pub parts : List Bytes
  pub last : Bytes

-- The message is not empty and short enough for a 32-bit sum, and the last read brings something.
pub record IsWhole (a : Arrival) : Type 0 where
  pub full : 0 < length a.message
  pub short : IsShort a.message
  pub is_frame : flatten a.parts ++ a.last ≡ frame a.message
  pub brings : 0 < length a.last

abbrev pub reads : List Arrival → List Bytes
reads [] = []
reads (a ∷ more) = (a.parts ++ a.last ∷ []) ++ reads more

module _ (pf : Platform) where
  open pf use {ev}

  -- Each message in turn is a command, run on what the one before left, with an empty input.
  pub data Runs (memory : CommandType) : List Bytes → Session pf → Session pf → Type 0 where
    no_more : (s : Session pf) → Runs memory [] s s
    one_more :
        (msg : Bytes) (msgs : List Bytes) (s u : Session pf) (n : InputBuffer ev)
        → Evbuffer.contents ev n.buffer ≡ []
        → n.current_json ≡ []
        → IsDefined (handle_json_command pf memory msg (record s { input = n })).0
        → Runs memory msgs (handle_json_command pf memory msg (record s { input = n })).1 u
        → Runs memory (msg ∷ msgs) s u

  Input-IsStable : (n : InputBuffer ev) → IsStable pf (λ s. s.input ≡ n)
  Input-IsStable n = record {
    unchanged = λ s t e h. ap (λ x. x.2) e ∙ h;
    sends = λ json s h. send_json-or_not pf (λ t. t.input ≡ n) json s h (λ _. h);
    schedules = λ command query info s h. h;
    requests = λ s h. h;
  }

  -- A command does not touch what is waiting to be read.
  handle_json_command-input :
      (memory : CommandType) (json : Bytes) (s : Session pf)
      → IsDefined (handle_json_command pf memory json s).0
      → (handle_json_command pf memory json s).1.input ≡ s.input
  handle_json_command-input memory json s d =
      kept _ s
        (Keeps-handle_json_command pf (Input-IsStable s.input)
          (record { opens = λ t h. h; closes = λ t open_now h. h; breaks = λ t closed h. h }) memory
          json)
        d refl

  continue_assoc :
      (r : Result (Unit {0})) (t : Session pf) (f g : Exec (Session pf) (Unit {0}))
      → continue r (λ _ s. continue (f s).0 (λ _. g) (f s).1) t
        ≡ continue (continue r (λ _. f) t).0 (λ _. g) (continue r (λ _. f) t).1
  continue_assoc (ok a) t f g = refl
  continue_assoc (raised e) t f g = refl
  continue_assoc undefined t f g = refl

  handle_reads-append :
      (memory : CommandType) (xs ys : List Bytes) (s : Session pf)
      → handle_reads pf memory (xs ++ ys) s
        ≡ continue
            (handle_reads pf memory xs s).0
            (λ _. handle_reads pf memory ys)
            (handle_reads pf memory xs s).1
  unfolding handle_reads ◌>>=◌ pure
  handle_reads-append memory [] ys s = refl
  handle_reads-append memory (x ∷ xs) ys s =
      ap (λ f. continue (handle_read pf memory x s).0 (λ _. f) (handle_read pf memory x s).1)
        (fun_ext (handle_reads-append memory xs ys))
      ∙ continue_assoc (handle_read pf memory x s).0 (handle_read pf memory x s).1
          (handle_reads pf memory xs) (handle_reads pf memory ys)

  -- What a command throws is logged, and the next read finds its state.
  logged :
      (r : Result (Unit {0})) (t : Session pf) (rest : Exec (Session pf) (Unit {0}))
      → IsDefined
          (continue
            (caught r any_exception (λ e. pure tt) t).0
            (λ _. rest)
            (caught r any_exception (λ e. pure tt) t).1).0
      → IsDefined r
        × (continue
              (caught r any_exception (λ e. pure tt) t).0
              (λ _. rest)
              (caught r any_exception (λ e. pure tt) t).1
            ≡ rest t)
  unfolding pure
  logged (ok a) t rest d = (tt, refl)
  logged (raised e) t rest d = (tt, refl)
  logged undefined t rest d = absurd d

  first_command :
      (memory : CommandType) (msg : Bytes) (s : Session pf) (rest : Exec (Session pf) (Unit {0}))
      → IsDefined
          (continue
            (try_catch (handle_json_command pf memory msg) any_exception (λ e. pure tt) s).0
            (λ _. rest)
            (try_catch (handle_json_command pf memory msg) any_exception (λ e. pure tt) s).1).0
      → IsDefined (handle_json_command pf memory msg s).0
        × (continue
              (try_catch (handle_json_command pf memory msg) any_exception (λ e. pure tt) s).0
              (λ _. rest)
              (try_catch (handle_json_command pf memory msg) any_exception (λ e. pure tt) s).1
            ≡ rest (handle_json_command pf memory msg s).1)
  unfolding try_catch
  first_command memory msg s rest d = logged _ _ rest d

  -- A client's messages, each cut into any reads of its own, when nothing is waiting: unless one of them runs
  -- into undefined behaviour, the session runs them in their order, each as a command on the state
  -- that the one before left, also after one that throws.
  pub handle_reads-in_order :
      (memory : CommandType) (arrivals : List Arrival) (s : Session pf)
      → Evbuffer.contents ev s.input.buffer ≡ []
      → s.input.current_json ≡ []
      → All IsWhole arrivals
      → IsDefined (handle_reads pf memory (reads arrivals) s).0
      → Runs memory (map (λ a. a.message) arrivals) s (handle_reads pf memory (reads arrivals) s).1
  unfolding handle_reads pure
  handle_reads-in_order memory [] s waiting pending whole d = no_more s
  handle_reads-in_order memory (a ∷ more) s waiting pending (w, ws) d =
      let (n, empty, nothing, runs) =
        handle_reads-command pf memory a.parts a.last a.message s waiting pending w.full w.short
          w.is_frame w.brings in
      let split =
        handle_reads-append memory (a.parts ++ a.last ∷ []) (reads more) s
        ∙ ap (λ x. continue x.0 (λ _. handle_reads pf memory (reads more)) x.1) runs in
      let (defined, goes_on) =
        first_command memory a.message (record s { input = n })
          (handle_reads pf memory (reads more)) (subst (λ x. IsDefined x.0) split d) in
      let t = (handle_json_command pf memory a.message (record s { input = n })).1 in
      let same_input =
        handle_json_command-input memory a.message (record s { input = n }) defined in
      let rest =
        handle_reads-in_order memory more t
          (ap (λ i. Evbuffer.contents ev i.buffer) same_input ∙ empty)
          (ap (λ i. i.current_json) same_input ∙ nothing) ws
          (subst (λ x. IsDefined x.0) (split ∙ goes_on) d) in
      one_more a.message (map (λ x. x.message) more) s _ n empty nothing defined
        (subst (λ x. Runs memory (map (λ b. b.message) more) t x.1) (sym (split ∙ goes_on)) rest)
