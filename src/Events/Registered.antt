-- ===== src/Events/Registered.antt =====
-- src/common/EventBase.cpp: which events a base has registered.
use rc2compute.Prelude.{
  ℕ, suc, ◌≡◌, refl, ap, sym, subst, ◌∙◌, Bool, true, false, none, some, List, [], ◌∷◌, ◌++◌, Bytes,
  length, lit, arith, if◌then◌else◌,
}
use rc2compute.Effects.{undefined, ok, pure, crash, gets, modify, continue, ◌>>=◌, ◌>>◌}
use rc2compute.Numbers.{ℤ, pos, eq_ℤ, eq_ℤ_iff}
use rc2compute.Map.{Map, find, assign, erase, insert, find-assign, eq_ℤ_refl}
use rc2compute.Events.{
  EventLib, Event, EventBase, Loop, log_message, the_event, the_base, the_handle, add_event,
  remove_event, event_count, move_event, destroy_event,
}

module _ {V : Type 0} where
  erase-absent : (k : ℤ) (m : Map V) → find k m ≡ none → erase k m ≡ m
  unfolding find erase
  erase-absent k [] h = refl
  erase-absent k ((j, v) ∷ m) h = ground (arith, erase-absent k m)

  erase-assign : (k : ℤ) (v : V) (m : Map V) → find k m ≡ none → erase k (assign k v m) ≡ m
  unfolding find erase assign
  erase-assign k v [] h = rw (eq_ℤ_refl k) refl
  erase-assign k v ((j, w) ∷ m) h =
      ground (arith, erase-assign k v m, erase-absent k m, eq_ℤ_refl k)

  length-assign :
      (k : ℤ) (v : V) (m : Map V) → find k m ≡ none → length (assign k v m) ≡ suc (length m)
  unfolding find assign
  length-assign k v [] h = refl
  length-assign k v ((j, w) ∷ m) h = ground (arith, length-assign k v m)

  erase-insert : (k : ℤ) (v : V) (m : Map V) → find k m ≡ none → erase k (insert k v m) ≡ m
  unfolding insert
  erase-insert k v m h = ground (arith, h, erase-assign k v m h)

  length-insert :
      (k : ℤ) (v : V) (m : Map V) → find k m ≡ none → length (insert k v m) ≡ suc (length m)
  unfolding insert
  length-insert k v m h = ground (arith, h, length-assign k v m h)

module _ (l : EventLib) where
  noted : Bytes → Loop l → List Bytes
  noted message s = if s.log_stream then s.logged ++ message ∷ [] else s.logged

  noting :
      (stream : Bool) (message : Bytes) (s : Loop l)
      → (if stream then record s { logged = s.logged ++ message ∷ [] } else s)
        ≡ record s { logged = if stream then s.logged ++ message ∷ [] else s.logged }
  noting true message s = refl
  noting false message s = refl

  logs :
      (message : Bytes) (s : Loop l)
      → log_message l message s ≡ (ok tt, record s { logged = noted message s })
  unfolding log_message modify noted
  logs message s = ap {A = Loop l} (λ t. (ok tt, t)) (noting s.log_stream message s)

  -- What `addEvent` and `removeEvent` do with a base and an event that are there and were not moved from.
  adds :
      (b a : ℤ) (base : EventBase l) (e : Event l) (h : ℕ) (s : Loop l)
      → find b s.bases ≡ some base
      → find a s.events ≡ some e
      → e.event ≡ some h
      → add_event l b a (pos 0) s ≡ (
        ok tt,
        record s {
          lib = EventLib.event_add l s.lib h;
          bases = assign b (record base { events = insert a tt base.events }) s.bases;
          logged = noted (lit "added event " ++ e.description) s;
        },
      )
  unfolding add_event the_base the_event the_handle gets pure modify ◌>>=◌ noted eq_ℤ
  adds b a base e h s there made handle =
      rw (there, made, handle)
        (logs (lit "added event " ++ e.description) (record s {
          lib = EventLib.event_add l s.lib h;
          bases = assign b (record base { events = insert a tt base.events }) s.bases;
        }))

  removes :
      (b a : ℤ) (base : EventBase l) (e : Event l) (h : ℕ) (s : Loop l)
      → find b s.bases ≡ some base
      → find a s.events ≡ some e
      → e.event ≡ some h
      → remove_event l b a s ≡ (
        ok tt,
        record s {
          lib = EventLib.event_del l s.lib h;
          bases = assign b (record base { events = erase a base.events }) s.bases;
          logged = noted (lit "removed event " ++ e.description) s;
        },
      )
  unfolding remove_event the_base the_event the_handle gets pure modify ◌>>=◌ noted
  removes b a base e h s there made handle =
      rw (there, made, handle)
        (logs (lit "removed event " ++ e.description) (record s {
          lib = EventLib.event_del l s.lib h;
          bases = assign b (record base { events = erase a base.events }) s.bases;
        }))

  restored :
      (b j : ℤ) (base changed : EventBase l) (bases : Map (EventBase l))
      → find b bases ≡ some base
      → find j (assign b base (assign b changed bases)) ≡ find j bases
  restored b j base changed bases there =
      rw (find-assign j b base (assign b changed bases), find-assign j b changed bases)
        (ground (arith, there, eq_ℤ_iff b j))

  module _ (b a : ℤ) (base : EventBase l) (e : Event l) (h : ℕ) (s : Loop l) where
    larger : EventBase l
    larger = record base { events = insert a tt base.events }

    with_event : Loop l
    unfolding larger
    with_event = record s {
      lib = EventLib.event_add l s.lib h;
      bases = assign b larger s.bases;
      logged = noted (lit "added event " ++ e.description) s;
    }

    larger-stands : find b with_event.bases ≡ some larger
    unfolding with_event
    larger-stands = find-assign b b larger s.bases ∙ rw (eq_ℤ_refl b) refl

    counts :
        find a base.events ≡ none → (event_count l b with_event).0 ≡ ok (suc (length base.events))
    unfolding event_count the_base gets pure ◌>>=◌ larger
    counts absent = rw larger-stands (ap ok (length-insert a tt base.events absent))

    as_before : find a base.events ≡ none → record larger { events = erase a larger.events } ≡ base
    unfolding larger
    as_before absent =
        ap {A = Map (Unit {0})} (λ es. record base { events = es })
          (erase-insert a tt base.events absent)

  -- An event that is there, was not moved from and is not registered with a base that is there, is added without
  -- a timeout: the base counts one event more. Removed again, it has passed through `event_add` and
  -- `event_del`, and every base has the events it had.
  pub remove_event-undoes :
      (b a : ℤ) (base : EventBase l) (e : Event l) (h : ℕ) (s : Loop l)
      → find b s.bases ≡ some base
      → find a s.events ≡ some e
      → e.event ≡ some h
      → find a base.events ≡ none
      → ((add_event l b a (pos 0) >> event_count l b) s).0 ≡ ok (suc (length base.events))
        × (let (r, t) = (add_event l b a (pos 0) >> remove_event l b a) s in
            (r ≡ ok tt)
            × (t.lib ≡ EventLib.event_del l (EventLib.event_add l s.lib h) h)
            × (t.events ≡ s.events)
            × ((j : ℤ) → find j t.bases ≡ find j s.bases))
  unfolding ◌>>=◌ with_event larger
  remove_event-undoes b a base e h s there made handle absent =
      let added = adds b a base e h s there made handle in
      let u = with_event b a base e h s in
      let removed =
        removes b a (larger b a base e h s) e h u (larger-stands b a base e h s) made handle in
      (
        ap (λ x. (continue x.0 (λ _. event_count l b) x.1).0) added ∙ counts b a base e h s absent,
        subst
            (λ x.
              (x.0 ≡ ok tt)
              × (x.1.lib ≡ EventLib.event_del l (EventLib.event_add l s.lib h) h)
              × (x.1.events ≡ s.events)
              × ((j : ℤ) → find j x.1.bases ≡ find j s.bases))
            (sym (ap (λ x. continue x.0 (λ _. remove_event l b a) x.1) added ∙ removed))
            (
              refl,
              refl,
              refl,
              λ j.
                  ap (λ c. find j (assign b c u.bases)) (as_before b a base e h s absent)
                  ∙ restored b j base (larger b a base e h s) s.bases there,
            ),
      )

  moves :
      (from to : ℤ) (e : Event l) (s : Loop l)
      → find from s.events ≡ some e
      → (move_event l from to s).1 ≡ record s {
        events =
            assign to
              (record e { description = [] })
              (assign from (record e { event = none }) s.events);
      }
  unfolding move_event the_event gets pure modify ◌>>=◌
  moves from to e s there = rw there refl

  frees_null :
      (a : ℤ) (e : Event l) (s : Loop l)
      → find a s.events ≡ some e
      → e.event ≡ none
      → (destroy_event l a s).0 ≡ undefined
  unfolding destroy_event the_event the_handle gets pure crash ◌>>=◌
  frees_null a e s there null = rw (there, null) refl

  -- An event that was moved to another address: the new object has its handle, its base and its handler but an
  -- empty description, and the destructor of the old one frees a null pointer.
  pub destroy_event-moved :
      (from to : ℤ) (e : Event l) (s : Loop l)
      → find from s.events ≡ some e
      → eq_ℤ to from ≡ false
      → let t = (move_event l from to s).1 in
        (find to t.events ≡ some (record e { description = [] }))
        × ((destroy_event l from t).0 ≡ undefined)
  destroy_event-moved from to e s there apart = rw (moves from to e s there) (
    find-assign to to taken left ∙ rw (eq_ℤ_refl to) refl,
    frees_null from (record e { event = none }) _ old refl,
  )
    where
      taken : Event l
      taken = record e { description = [] }

      left : Map (Event l)
      left = assign from (record e { event = none }) s.events

      old : find from (assign to taken left) ≡ some (record e { event = none })
      old =
          find-assign from to taken left
          ∙ rw apart (
              find-assign from from (record e { event = none }) s.events ∙ rw (eq_ℤ_refl from) refl)
