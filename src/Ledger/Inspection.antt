-- ===== src/Ledger/Inspection.antt =====
-- internal/audit/ledger/inspection.go: counts over the ledger.
use benzhi_project_fe3ad.Prelude.{
  ℕ, ◌+◌, Option, none, some, String, List, [], ◌∷◌, str_lt, length, last, sort,
}
use benzhi_project_fe3ad.Prelude.Int64.{Int64}
use benzhi_project_fe3ad.Prelude.Maps.{Map, lookup, insert, values, lookup_by, insert_by}
use benzhi_project_fe3ad.Calibration.Types.{Time}
use benzhi_project_fe3ad.Ledger.Event.{Event}

pub record AggregateInspection : Type 0 where
  pub aggregate_id : String
  pub event_count : ℕ
  pub first_sequence : Int64
  pub last_sequence : Int64
  pub last_version : Int64
  pub last_event_at : Time

pub record Inspection : Type 0 where
  pub event_count : ℕ
  pub aggregate_count : ℕ
  pub first_digest : String
  pub last_digest : String
  pub first_event_at : Option Time
  pub last_event_at : Option Time
  pub events_by_type : Map ℕ
  pub events_by_actor : Map ℕ
  pub aggregates : List AggregateInspection

abbrev pub count_of : Option ℕ → ℕ
count_of none = 0
count_of (some n) = n

-- `counts[key]++`
unfoldable pub tally : String → Map ℕ → Map ℕ
unfolding lookup_by insert_by
tally key counts = insert key (count_of (lookup key counts) + 1) counts

abbrev fresh_aggregate : Event → Option AggregateInspection → AggregateInspection
fresh_aggregate event none = record {
  aggregate_id = event.aggregate_id;
  event_count = 0;
  first_sequence = event.sequence;
  last_sequence = 0;
  last_version = 0;
  last_event_at = 0;
}
fresh_aggregate event (some a) = a

unfoldable pub inspect_aggregate : Map AggregateInspection → Event → Map AggregateInspection
unfolding lookup_by insert_by
inspect_aggregate aggregates event =
    let a = fresh_aggregate event (lookup event.aggregate_id aggregates) in
    insert event.aggregate_id
      (record a {
        event_count = a.event_count + 1;
        last_sequence = event.sequence;
        last_version = event.aggregate_version;
        last_event_at = event.at;
      })
      aggregates

unfoldable pub aggregates_of : Map AggregateInspection → List Event → Map AggregateInspection
unfolding inspect_aggregate
aggregates_of m [] = m
aggregates_of m (e ∷ es) = aggregates_of (inspect_aggregate m e) es

unfoldable pub tally_by : (Event → String) → Map ℕ → List Event → Map ℕ
unfolding tally
tally_by key m [] = m
tally_by key m (e ∷ es) = tally_by key (tally (key e) m) es

abbrev pub head_event : List Event → Option Event
head_event [] = none
head_event (e ∷ es) = some e

abbrev digest_of : Option Event → String
digest_of none = ""
digest_of (some e) = e.digest

abbrev time_of : Option Event → Option Time
time_of none = none
time_of (some e) = some e.at

unfoldable pub inspect : List Event → Inspection
unfolding aggregates_of tally_by sort
inspect events =
    let aggregates = aggregates_of [] events in
    record {
      event_count = length events;
      aggregate_count = length aggregates;
      first_digest = digest_of (head_event events);
      last_digest = digest_of (last events);
      first_event_at = time_of (head_event events);
      last_event_at = time_of (last events);
      events_by_type = tally_by (λ e. e.type) [] events;
      events_by_actor = tally_by (λ e. e.actor) [] events;
      aggregates = sort (λ a b. str_lt a.aggregate_id b.aggregate_id) (values aggregates);
    }
