-- ===== src/Events.antt =====
-- src/common/Event.cpp, Event.hpp, EventBase.cpp and EventBase.hpp: the wrappers of libevent.
pub mod Registered
use rc2compute.Prelude.{
  ℕ, Bool, true, false, Option, none, some, List, [], ◌∷◌, ◌++◌, Bytes, length, lit, not,
  if◌then◌else◌,
}
use rc2compute.Effects.{runtime_error, Exec, pure, raise, crash, gets, modify, ◌>>=◌, ◌>>◌}
use rc2compute.Numbers.{ℤ, pos, eq_ℤ}
use rc2compute.Map.{Map, find, assign, erase, insert}

-- The calls of libevent, on one abstract state. A `struct event *` and a `struct event_base *` are
-- addresses, and `none` is a null pointer.
pub record EventLib : Type 1 where
  pub Lib : Type 0
  pub Handler : Type 0
  pub event_new : Lib → Option ℕ → ℤ → ℤ → ℤ → Option ℕ × Lib
  -- without a timeout
  pub event_add : Lib → ℕ → Lib
  pub event_del : Lib → ℕ → Lib
  pub event_free : Lib → ℕ → Lib
  -- a base with the feature of descriptors and four priorities
  pub base_new : Lib → Option ℕ × Lib
  pub base_free : Lib → ℕ → Lib
  -- what the handler of an event does with a descriptor, the flags and the event's address
  pub call : Handler → ℤ → ℤ → ℤ → Lib → Lib

module _ (l : EventLib) where
  open l use {Lib, Handler}

  pub record Event : Type 0 where
    pub event : Option ℕ
    pub base : ℤ
    pub handler : Handler
    pub description : Bytes

  -- `_events`, a set of weak pointers in the order of their owners, is a map to nothing.
  pub record EventBase : Type 0 where
    pub events : Map (Unit {0})
    pub base : Option ℕ

  -- The objects that are alive, by address. `log_stream` says that the stream is not the null stream.
  pub record Loop : Type 0 where
    pub lib : Lib
    pub events : Map Event
    pub bases : Map EventBase
    pub log_stream : Bool
    pub logged : List Bytes

  unfoldable pub log_message : Bytes → Exec Loop (Unit {0})
  log_message message =
      modify (λ s. if s.log_stream then record s { logged = s.logged ++ message ∷ [] } else s)

  -- A call through a null pointer is undefined.
  unfoldable pub the_event : ℤ → Exec Loop Event
  the_event a = do
    found ← gets (λ s. find a s.events)
    elim found [ none ↦ crash | some e ↦ pure e ]

  unfoldable pub the_base : ℤ → Exec Loop EventBase
  the_base b = do found ← gets (λ s. find b s.bases); elim found [ none ↦ crash | some e ↦ pure e ]

  unfoldable pub the_handle : Event → Exec Loop ℕ
  the_handle e = elim e.event [ none ↦ crash | some h ↦ pure h ]

  abbrev on_lib : (Lib → Lib) → Exec Loop (Unit {0})
  on_lib f = modify (λ s. record s { lib = f s.lib })

  -- `_base.lock()` is null for a null pointer and for a base that is gone.
  unfoldable pub new_event : Option ℤ → ℤ → ℤ → Handler → ℤ → Exec Loop (Unit {0})
  new_event base fd what handler self = elim base [
    | none ↦ raise (runtime_error (lit "invalid EventBase"))
    | some b ↦ (do
      found ← gets (λ s. find b s.bases)
      elim found [
        | none ↦ raise (runtime_error (lit "invalid EventBase"))
        | some strong ↦ modify (λ s.
            let (made, lib) = EventLib.event_new l s.lib strong.base fd what self in
            record s {
              lib = lib;
              events =
                  assign self
                    (record {
                      event = made;
                      base = b;
                      handler = handler;
                      description = lit "<event>";
                    })
                    s.events;
            })
      ])
  ]

  -- The move constructor: the description is not taken over.
  unfoldable pub move_event : ℤ → ℤ → Exec Loop (Unit {0})
  move_event from to = do
    e ← the_event from
    modify (λ s. record s {
      events =
          assign to (record e { description = [] })
            (assign from (record e { event = none }) s.events);
    })

  unfoldable pub destroy_event : ℤ → Exec Loop (Unit {0})
  destroy_event a = do
    e ← the_event a
    h ← the_handle e
    on_lib (λ d. EventLib.event_free l d h)
    modify (λ s. record s { events = erase a s.events })

  -- `logMessage` of an event, to the stream of its base, if that is alive.
  unfoldable pub event_log : Event → Bytes → Exec Loop (Unit {0})
  event_log e message = do
    found ← gets (λ s. find e.base s.bases)
    elim found [ none ↦ pure tt | some strong ↦ log_message message ]

  unfoldable pub handle_callback : ℤ → ℤ → ℤ → Exec Loop (Unit {0})
  handle_callback fd what a = do
    e ← the_event a
    event_log e (lit "event " ++ (e.description ++ lit " fired"))
    on_lib (EventLib.call l e.handler fd what a)

  unfoldable pub new_event_base : ℤ → Exec Loop (Unit {0})
  new_event_base self = modify (λ s.
      let (made, lib) = EventLib.base_new l s.lib in
      record s { lib = lib; bases = assign self (record { events = []; base = made }) s.bases })

  -- The constructor from a base, which it takes over.
  unfoldable pub adopt_event_base : Option ℕ → ℤ → Exec Loop (Unit {0})
  adopt_event_base given self =
      modify (λ s. record s { bases = assign self (record { events = []; base = given }) s.bases })

  unfoldable pub destroy_event_base : ℤ → Exec Loop (Unit {0})
  destroy_event_base b = do
    e ← the_base b
    elim e.base [ none ↦ pure tt | some h ↦ on_lib (λ d. EventLib.base_free l d h) ]
    modify (λ s. record s { bases = erase b s.bases })

  -- The move constructor: the set stays with the old object.
  unfoldable pub move_event_base : ℤ → ℤ → Exec Loop (Unit {0})
  move_event_base from to = do
    e ← the_base from
    modify (λ s. record s {
      bases =
          assign to (record { events = []; base = e.base })
            (assign from (record e { base = none }) s.bases);
    })

  -- The move assignment ends without its `return`, which is undefined.
  unfoldable pub assign_event_base : ℤ → ℤ → Exec Loop (Unit {0})
  assign_event_base from to = do
    e ← the_base from
    old ← the_base to
    modify (λ s. record s {
      bases =
          assign from (record e { base = none }) (assign to (record old { base = e.base }) s.bases);
    })
    crash

  -- With a number of milliseconds `event_add` gets the address of a `timeval` that was never filled.
  unfoldable pub add_event : ℤ → ℤ → ℤ → Exec Loop (Unit {0})
  unfolding the_base the_event the_handle log_message
  add_event b a milliseconds = do
    base ← the_base b
    e ← the_event a
    h ← the_handle e
    if not (eq_ℤ milliseconds (pos 0)) then crash else pure tt
    on_lib (λ d. EventLib.event_add l d h)
    modify (λ s. record s {
      bases = assign b (record base { events = insert a tt base.events }) s.bases;
    })
    log_message (lit "added event " ++ e.description)

  unfoldable pub remove_event : ℤ → ℤ → Exec Loop (Unit {0})
  unfolding the_base the_event the_handle log_message
  remove_event b a = do
    base ← the_base b
    e ← the_event a
    h ← the_handle e
    on_lib (λ d. EventLib.event_del l d h)
    modify
        (λ s. record s { bases = assign b (record base { events = erase a base.events }) s.bases })
    log_message (lit "removed event " ++ e.description)

  unfoldable pub event_count : ℤ → Exec Loop ℕ
  event_count b = do base ← the_base b; pure (length base.events)

  unfoldable pub set_logger : Bool → Exec Loop (Unit {0})
  set_logger given = modify (λ s. record s { log_stream = given })
