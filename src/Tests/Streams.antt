-- ===== src/Tests/Streams.antt =====
-- A `help` that arrives in two reads at a session that is not open, and an attempt to open one.
use mathlib.Core.List.{flatten}
use rc2compute.Prelude.{
  ◌<◌, ◌≡◌, ◌⊎◌, refl, subst, sym, Option, none, some, false, [], ◌∷◌, ◌++◌, arith, Bytes, lit,
  length, take, drop, same,
}
use rc2compute.Effects.{ok, any_exception, pure, try_catch}
use rc2compute.Effects.Hoare.{Post, IsDefined}
use rc2compute.Numbers.{ℤ, pos, eq_ℤ}
use rc2compute.Word.{put_be32}
use rc2compute.Frame.{frame}
use rc2compute.InputBuffer.{InputBuffer, init}
use rc2compute.World.{EvalResult, pe_success}
use rc2compute.Command.{unknown, help, open_session, JsonCommand, make_command, command_type}
use rc2compute.Session.Opening.{handle_open}
use rc2compute.Session.Opening.Answers.{IsAccepted, IsRefused, handle_open-answers}
use rc2compute.Session.Dispatch.{handle_json_command}
use rc2compute.Session.Callback.{execute_callback, execute_callback-drops}
use rc2compute.Session.Commands.{handle_json_command-refused}
use rc2compute.Session.Reads.{handle_reads, handle_reads-command}
use rc2compute.Session.Order.{Arrival, IsWhole, reads, Runs, handle_reads-in_order}
use rc2compute.Session.Stream.{Extends, Continues, handle_read-Extends, Reaches-Continues}
use rc2compute.Session.Starting.{new_session}
use rc2compute.Session.Lifecycle.{Passes, stage_of, Reaches-Passes}
use rc2compute.Session.Steps.{start, step, bytes_read}
use rc2compute.Tests.{platform, session, byte_list, own_text}
use rc2compute.Tests.Sessions.{first_session, help_read, handle_read-IsDefined}

handle_read-Extends_example : Extends platform first_session.written first_session.tasks help_read
handle_read-Extends_example =
    handle_read-Extends platform unknown (frame (lit "help")) first_session handle_read-IsDefined

Reaches-Continues_example : Continues platform first_session.written help_read
unfolding new_session
Reaches-Continues_example = Reaches-Continues platform first_session help_read tt (
    step first_session first_session help_read (start first_session)
      (bytes_read unknown (frame (lit "help")) first_session handle_read-IsDefined))

Reaches-Passes_example : Passes (stage_of first_session) (stage_of help_read)
unfolding new_session
Reaches-Passes_example =
    Reaches-Passes platform first_session help_read
      (record {
        closed_opened = λ e. absurd (ground (arith, e));
        broken_closed = λ e. absurd (ground (arith, e));
      })
      (step first_session first_session help_read (start first_session)
        (bytes_read unknown (frame (lit "help")) first_session handle_read-IsDefined))

abbrev first_part : Bytes
first_part = take 5 (frame (lit "help"))

abbrev second_part : Bytes
second_part = drop 5 (frame (lit "help"))

parts_are_frame : flatten (first_part ∷ []) ++ second_part ≡ frame (lit "help")
unfolding frame put_be32 lit mathlib.Core.List.flatten
parts_are_frame = refl

second_part-length : 0 < length second_part
unfolding frame put_be32 lit
second_part-length = omega arith

handle_reads-command_example :
    (n : InputBuffer byte_list) × (n.buffer ≡ [])
    × (n.current_json ≡ [])
    × (handle_reads platform unknown (first_part ∷ second_part ∷ []) session
        ≡ try_catch
            (handle_json_command platform unknown (lit "help"))
            any_exception
            (λ e. pure tt)
            (record session { input = n }))
unfolding lit
handle_reads-command_example =
    handle_reads-command platform unknown (first_part ∷ []) second_part (lit "help") session refl
      refl (omega arith) (omega arith) parts_are_frame second_part-length

abbrev help_arrives : Arrival
help_arrives = record { message = lit "help"; parts = first_part ∷ []; last = second_part }

help_arrives-IsWhole : IsWhole help_arrives
unfolding lit
help_arrives-IsWhole = record {
  full = omega arith;
  short = omega arith;
  is_frame = parts_are_frame;
  brings = second_part-length;
}

handle_reads-IsDefined :
    IsDefined (handle_reads platform unknown (reads (help_arrives ∷ [])) first_session).0
unfolding try_catch lit make_command command_type same new_session init
handle_reads-IsDefined =
    let (n, empty, nothing, runs) =
      handle_reads-command platform unknown (first_part ∷ []) second_part (lit "help") first_session
        refl refl (omega arith) (omega arith) parts_are_frame second_part-length in
    let ignored =
      handle_json_command-refused platform unknown (lit "help") (lit "help")
        (record { cmd = lit "help"; type = help }) (record first_session { input = n })
        (omega arith) refl refl refl in
    subst (λ x. IsDefined x.0) (sym runs) (rw ignored tt)

handle_reads-in_order_example :
    Runs platform unknown
      (lit "help" ∷ [])
      first_session
      (handle_reads platform unknown (reads (help_arrives ∷ [])) first_session).1
unfolding new_session init
handle_reads-in_order_example =
    handle_reads-in_order platform unknown (help_arrives ∷ []) first_session refl refl
      (help_arrives-IsWhole, tt) handle_reads-IsDefined

abbrev open_command : JsonCommand own_text
open_command = record { cmd = lit "open"; type = open_session }

handle_open-answers_example :
    Post
      (λ _ t. IsAccepted platform t ⊎ IsRefused platform t)
      (λ t. t.opened ≡ false)
      (handle_open platform open_command first_session)
unfolding new_session
handle_open-answers_example = handle_open-answers platform open_command first_session refl

abbrev returned : EvalResult → ℤ
returned pe_success = pos 0
returned _ = pos 1

abbrev value : EvalResult → Option ℤ
value pe_success = some (pos 7)
value _ = none

execute_callback-drops_example :
    execute_callback platform returned value (lit "x") session
    ≡ (ok (eq_ℤ (pos 0) (pos 0), pos 7), session)
execute_callback-drops_example =
    execute_callback-drops platform returned value (lit "x") session (pos 7) refl refl
