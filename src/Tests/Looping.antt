-- ===== src/Tests/Looping.antt =====
-- An event loop with one base and one event, over a record of the calls.
use rc2compute.Prelude.{ℕ, ◌≡◌, refl, true, some, List, [], ◌∷◌, lit}
use rc2compute.Effects.{ok, undefined, ◌>>◌}
use rc2compute.Numbers.{ℤ, pos, eq_ℤ}
use rc2compute.Map.{find}
use rc2compute.Events.{
  EventLib, Event, EventBase, Loop, add_event, remove_event, event_count, move_event, destroy_event,
}
use rc2compute.Events.Registered.{remove_event-undoes, destroy_event-moved}

-- The handles in the order in which they were added and deleted.
abbrev calls : EventLib
calls = record {
  Lib = List ℕ;
  Handler = Unit {0};
  event_new = λ d base fd what self. (some 7, d);
  event_add = λ d h. h ∷ d;
  event_del = λ d h. h ∷ d;
  event_free = λ d h. d;
  base_new = λ d. (some 3, d);
  base_free = λ d h. d;
  call = λ h fd what a d. d;
}

abbrev ready : Event calls
ready = record { event = some 7; base = pos 1; handler = tt; description = lit "<event>" }

abbrev no_events : EventBase calls
no_events = record { events = []; base = some 3 }

abbrev one_event : Loop calls
one_event = record {
  lib = [];
  events = (pos 2, ready) ∷ [];
  bases = (pos 1, no_events) ∷ [];
  log_stream = true;
  logged = [];
}

remove_event-undoes_example :
    ((add_event calls (pos 1) (pos 2) (pos 0) >> event_count calls (pos 1)) one_event).0 ≡ ok 1
    × (let (r, t) =
          (add_event calls (pos 1) (pos 2) (pos 0) >> remove_event calls (pos 1) (pos 2))
            one_event in
        (r ≡ ok tt)
        × (t.lib ≡ 7 ∷ 7 ∷ [])
        × (t.events ≡ one_event.events)
        × ((j : ℤ) → find j t.bases ≡ find j one_event.bases))
unfolding find eq_ℤ
remove_event-undoes_example =
    remove_event-undoes calls (pos 1) (pos 2) no_events ready 7 one_event refl refl refl refl

destroy_event-moved_example :
    let t = (move_event calls (pos 2) (pos 5) one_event).1 in
    (find (pos 5) t.events ≡ some (record ready { description = [] }))
    × ((destroy_event calls (pos 2) t).0 ≡ undefined)
unfolding find eq_ℤ
destroy_event-moved_example = destroy_event-moved calls (pos 2) (pos 5) ready one_event refl refl
