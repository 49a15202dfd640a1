-- ===== src/Timestamps.antt =====
-- src/core/timestamp_buffer.hpp: the buffers of events, one for each thread, and their aggregation.
-- A buffer is the list of the events in it. `buffers` has the registered threads' buffers, in the order of
-- their registration; the sequence counter is shared. A call of `record` is one step of its thread: its
-- only shared access is `fetch_add`. The time-stamp counter is an argument.
pub mod Order
use hftperformance.Prelude.{
  ℕ, zero, suc, ◌+◌, ◌-◌, ◌%◌, ◌^◌, Bool, true, false, List, [], ◌∷◌, ◌++◌, Option, none, some,
  length, ltb, leb, ◌==◌, if◌then◌else◌,
}
use hftperformance.Prelude.Int.{ℤ, ◌-ℤ◌}

-- `enum class EventType`, by its value
abbrev pub EventType : Type 0
EventType = ℕ

-- `struct TimestampEvent`, without the padding
pub record TimestampEvent : Type 0 where
  pub timestamp : ℤ
  pub sequence : ℕ
  pub payload : ℕ
  pub type : EventType
  pub thread_id : ℕ

-- `ThreadLocalTimestampBuffer`
pub record Buffer : Type 0 where
  pub events : List TimestampEvent
  pub thread_id : ℕ

-- `TimestampBufferManager`, with the counter `global_sequence_`
pub record Manager : Type 0 where
  pub buffers : List Buffer
  pub global_sequence : ℕ

abbrev pub no_buffers : Manager
no_buffers = record { buffers = []; global_sequence = 0 }

-- `full`, `remaining`, `count` and `clear` of a buffer
unfoldable pub full : ℕ → Buffer → Bool
full capacity b = leb capacity (length b.events)

unfoldable pub remaining : ℕ → Buffer → ℕ
remaining capacity b = capacity - length b.events

unfoldable pub clear : Buffer → Buffer
clear b = record b { events = [] }

-- `record_with_timestamp`, and `record` for the time that it reads: the answer, the buffer, and the counter.
unfoldable pub record_event : ℕ → EventType → ℤ → ℕ → Buffer → ℕ → Bool × Buffer × ℕ
record_event capacity type time payload b sequence =
    if leb capacity (length b.events) then (false, b, sequence) else (
      true,
      record b {
        events =
            b.events
            ++ record {
              timestamp = time;
              sequence = sequence;
              payload = payload;
              type = type;
              thread_id = b.thread_id;
            }
              ∷ [];
      },
      (sequence + 1) % 2 ^ 64,
    )

-- `register_new_buffer`, on a thread's first call
unfoldable pub register_new_buffer : Manager → Manager
register_new_buffer m = record m {
  buffers = m.buffers ++ record { events = []; thread_id = length m.buffers % 2 ^ 8 } ∷ [];
}

-- A call of `record` by the thread of the buffer at a place.
unfoldable pub record_at : ℕ → ℕ → EventType → ℤ → ℕ → List Buffer → ℕ → Bool × List Buffer × ℕ
unfolding record_event
record_at capacity place type time payload [] sequence = (false, [], sequence)
record_at capacity zero type time payload (b ∷ bs) sequence =
    let (ok, b', sequence') = record_event capacity type time payload b sequence in
    (ok, b' ∷ bs, sequence')
record_at capacity (suc place) type time payload (b ∷ bs) sequence =
    let (ok, bs', sequence') = record_at capacity place type time payload bs sequence in
    (ok, b ∷ bs', sequence')

-- `aggregate`: the events of all buffers; `std::sort` by the sequence number.
unfoldable pub all_events : List Buffer → List TimestampEvent
all_events [] = []
all_events (b ∷ bs) = b.events ++ all_events bs

unfoldable pub insert_event : TimestampEvent → List TimestampEvent → List TimestampEvent
insert_event e [] = e ∷ []
insert_event e (x ∷ xs) = if ltb x.sequence e.sequence then x ∷ insert_event e xs else e ∷ x ∷ xs

unfoldable pub sort_events : List TimestampEvent → List TimestampEvent
unfolding insert_event
sort_events [] = []
sort_events (e ∷ es) = insert_event e (sort_events es)

unfoldable pub aggregate : Bool → Manager → List TimestampEvent
unfolding all_events sort_events
aggregate sort_by_sequence m =
    if sort_by_sequence then sort_events (all_events m.buffers) else all_events m.buffers

-- `clear_all` and `total_count`
unfoldable pub clear_buffers : List Buffer → List Buffer
unfolding clear
clear_buffers [] = []
clear_buffers (b ∷ bs) = clear b ∷ clear_buffers bs

unfoldable pub clear_all : Manager → Manager
unfolding clear_buffers
clear_all m = record m { buffers = clear_buffers m.buffers }

unfoldable pub count_events : List Buffer → ℕ
count_events [] = 0
count_events (b ∷ bs) = length b.events + count_events bs

unfoldable pub total_count : Manager → ℕ
unfolding count_events
total_count m = count_events m.buffers

-- `TimestampAnalyzer::analyze`, the pairing for one pair of types: the ticks between a start and the next end
-- of the same payload. `starts` is the map from payloads to times.
unfoldable pub find_start : ℕ → List (ℕ × ℤ) → Option ℤ
find_start payload [] = none
find_start payload ((p, t) ∷ m) = if p == payload then some t else find_start payload m

unfoldable pub drop_start : ℕ → List (ℕ × ℤ) → List (ℕ × ℤ)
drop_start payload [] = []
drop_start payload ((p, t) ∷ m) =
    let rest = drop_start payload m in if p == payload then rest else (p, t) ∷ rest

unfoldable pub latencies : EventType → EventType → List (ℕ × ℤ) → List TimestampEvent → List ℤ
unfolding find_start drop_start
latencies start_type end_type starts [] = []
latencies start_type end_type starts (e ∷ es) =
    let later = latencies start_type end_type starts es in
    let begun =
      latencies start_type end_type ((e.payload, e.timestamp) ∷ drop_start e.payload starts) es in
    let ended = latencies start_type end_type (drop_start e.payload starts) es in
    if e.type == start_type
    then begun
    else if e.type == end_type
    then elim (find_start e.payload starts) [ none ↦ later | some t ↦ (e.timestamp -ℤ t) ∷ ended ]
    else later

-- A step: a thread registers its buffer, or the thread of a place records an event.
pub data Step : Type 0 where
  registers : Step
  records : ℕ → EventType → ℤ → ℕ → Step

unfoldable pub step : ℕ → Step → Manager → Bool × Manager
unfolding register_new_buffer record_at
step capacity registers m = (true, register_new_buffer m)
step capacity (records place type time payload) m =
    let (ok, buffers, sequence) =
      record_at capacity place type time payload m.buffers m.global_sequence in
    (ok, record { buffers = buffers; global_sequence = sequence })

-- A schedule of steps.
unfoldable pub run_steps : ℕ → List Step → Manager → Manager
unfolding step
run_steps capacity [] m = m
run_steps capacity (s ∷ steps) m = run_steps capacity steps (step capacity s m).1
