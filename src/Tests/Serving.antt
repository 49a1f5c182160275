-- ===== src/Tests/Serving.antt =====
-- A server that starts two sessions, of which the first ends.
use rc2compute.Prelude.{◌≡◌, refl, true, false, some, [], ◌∷◌, ◌++◌, Bytes, lit}
use rc2compute.Effects.{ok}
use rc2compute.Numbers.{pos, eq_ℤ, show, show_ℕ, digits}
use rc2compute.Utils.{path_for_executable, before_slash}
use rc2compute.Server.{Running, Server, child_runs, accepted, handle_event, session_args}
use rc2compute.Server.Processes.{Serves, AllServing, Serves-accepted}

abbrev listening : Server
listening = record {
  port = 7714;
  verbose = true;
  loop_ended = false;
  descriptors = pos 3 ∷ [];
  sessions = [];
}

abbrev path : Bytes
path = lit "/opt/rsession"

abbrev two_clients : Server
two_clients = accepted path (pos 5) child_runs (accepted path (pos 4) child_runs listening)

abbrev first_session : Running
first_session = record {
  socket = pos 4;
  path = path;
  args = session_args true (pos 4);
  descriptors = pos 3 ∷ pos 4 ∷ [];
}

abbrev second_session : Running
second_session = record {
  socket = pos 5;
  path = path;
  args = session_args true (pos 5);
  descriptors = pos 3 ∷ pos 4 ∷ pos 5 ∷ [];
}

abbrev one_left : Server
one_left = record two_clients { sessions = second_session ∷ [] }

both_run : two_clients.sessions ≡ [] ++ first_session ∷ second_session ∷ []
unfolding accepted eq_ℤ
both_run = refl

served : Serves path listening (pos 4 ∷ pos 5 ∷ []) one_left
unfolding accepted eq_ℤ
served =
    Serves.session_ends (pos 4 ∷ pos 5 ∷ []) two_clients [] (second_session ∷ []) first_session
      (Serves.client_runs (pos 4 ∷ []) (accepted path (pos 4) child_runs listening) (pos 5)
        (Serves.client_runs [] listening (pos 4) Serves.start refl (refl, tt)) refl
        (refl, (refl, tt)))
      both_run

Serves-accepted_example :
    (one_left.descriptors ≡ pos 3 ∷ pos 4 ∷ pos 5 ∷ [])
    × AllServing path listening (pos 4 ∷ pos 5 ∷ []) (second_session ∷ [])
Serves-accepted_example = Serves-accepted path listening (pos 4 ∷ pos 5 ∷ []) one_left refl served

beside_server :
    handle_event (some (lit "/opt/rserver")) (pos 4) child_runs listening
    ≡ ok (accepted path (pos 4) child_runs listening)
unfolding handle_event path_for_executable before_slash accepted session_args eq_ℤ lit show show_ℕ
    digits
beside_server = refl
