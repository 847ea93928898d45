-- ===== src/Simulation/Transport.antt =====
-- `Transport` of src/job_visibility/simulation.py. An index is not negative.
use mathlib.Core.Option
use job_scheduling_simulatio.Prelude.{
  ℕ, zero, suc, Option, none, some, List, [], ◌∷◌, ◌++◌, Result, ok, raised,
}
use job_scheduling_simulatio.Model.{Event, Error, index_error}
use job_scheduling_simulatio.Engine.View.{found}

pub record Transport : Type 0 where
  pub pending : List Event
  pub dropped : List Event

-- `list.insert`: an index past the end is the end.
unfoldable pub insert_at : ℕ → Event → List Event → List Event
insert_at zero event events = event ∷ events
insert_at (suc n) event [] = event ∷ []
insert_at (suc n) event (e ∷ events) = e ∷ insert_at n event events

-- `list.pop`: the event at an index, and the rest.
unfoldable pub pop_at : ℕ → List Event → Option (Event × List Event)
pop_at n [] = none
pop_at zero (e ∷ events) = some (e, events)
pop_at (suc n) (e ∷ events) = Option.map (λ found. (found.0, e ∷ found.1)) (pop_at n events)

-- `publish`.
unfoldable pub publish_all : Transport → List Event → Transport
publish_all transport events = record transport { pending = transport.pending ++ events }

abbrev pub duplicate_of :
    Option (Event × List Event) → ℕ → Transport → Transport × Result Error (Unit {0})
duplicate_of none index transport = (transport, raised index_error)
duplicate_of (some found) index transport =
    (record transport { pending = insert_at (suc index) found.0 transport.pending }, ok tt)

-- `duplicate`.
unfoldable pub duplicate : Transport → ℕ → Transport × Result Error (Unit {0})
unfolding pop_at insert_at
duplicate transport index = duplicate_of (pop_at index transport.pending) index transport

abbrev pub drop_of : Option (Event × List Event) → Transport → Transport × Result Error (Unit {0})
drop_of none transport = (transport, raised index_error)
drop_of (some found) transport =
    (record { pending = found.1; dropped = transport.dropped ++ found.0 ∷ [] }, ok tt)

-- `drop`.
unfoldable pub drop_event : Transport → ℕ → Transport × Result Error (Unit {0})
unfolding pop_at
drop_event transport index = drop_of (pop_at index transport.pending) transport

-- `[original[index] for index in order]`.
unfoldable pub events_at : List Event → List ℕ → Result Error (List Event)
unfolding pop_at
events_at original [] = ok []
events_at original (index ∷ order) = elim (pop_at index original) [
  | none ↦ raised index_error
  | some found ↦ elim (events_at original order) [
    | ok events ↦ ok (found.0 ∷ events)
    | raised error ↦ raised error
  ]
]

abbrev pub reorder_of : Result Error (List Event) → Transport → Transport × Result Error (Unit {0})
reorder_of (raised error) transport = (transport, raised error)
reorder_of (ok events) transport = (record transport { pending = events }, ok tt)

-- `reorder`.
unfoldable pub reorder : Transport → List ℕ → Transport × Result Error (Unit {0})
unfolding events_at
reorder transport order = reorder_of (events_at transport.pending order) transport
