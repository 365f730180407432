-- ===== src/Ordering.antt =====
-- queue/message-ordering.service.ts and MessageOrderingPartition of queue/horizontal-scaling.config.ts.
-- Queue names and partition keys are lists of character codes. Of the configuration the service
-- reads `ordering.enabled`. An average is a fraction.
pub mod Invariant
pub mod History
pub mod Queue
pub mod Partitions
pub mod Delivery
mod Examples
use swap_trade_backend.Common.{
  ℕ, zero, suc, ◌+◌, ◌==◌, ltb, leb, Bool, true, false, not, ◌&&◌, Option, none, some, List, [],
  ◌∷◌, ◌++◌, length, keep_if, remove_at, sum_by, Map, lookup, insert, erase, codes_key, codes_same,
  if◌then◌else◌,
}

pub record Message : Type 0 where
  pub message_id : ℕ
  pub payload : ℕ
  pub timestamp : ℕ
  pub sequence_number : ℕ

pub record MessageOrderingPartition : Type 0 where
  pub partition_key : List ℕ
  pub queue_name : List ℕ
  pub messages : List Message
  pub is_processing : Bool
  pub last_processed_at : Option ℕ

pub record MessageOrdering : Type 0 where
  pub enabled : Bool
  pub partitions : Map (List ℕ) MessageOrderingPartition
  pub sequence_numbers : Map (List ℕ) ℕ

-- The queue name, a colon and the key.
abbrev pub get_partition_id : List ℕ → List ℕ → List ℕ
get_partition_id queue key = queue ++ 58 ∷ key

abbrev pub number_or_zero : Option ℕ → ℕ
number_or_zero none = 0
number_or_zero (some n) = n

abbrev pub current_sequence : List ℕ → MessageOrdering → ℕ
current_sequence id o = number_or_zero (lookup id o.sequence_numbers)

abbrev pub increment_sequence : List ℕ → MessageOrdering → ℕ × MessageOrdering
increment_sequence id o =
    let next = current_sequence id o + 1 in
    (next, record o { sequence_numbers = insert id next o.sequence_numbers })

-- One step of a stable sort.
unfoldable pub place_message : Message → List Message → List Message
place_message m [] = m ∷ []
place_message m (n ∷ ns) =
    let rest = place_message m ns in
    if leb m.sequence_number n.sequence_number then m ∷ n ∷ ns else n ∷ rest

-- `messages.sort((a, b) => a.sequenceNumber - b.sequenceNumber)`
unfoldable pub sort_messages : List Message → List Message
unfolding place_message
sort_messages [] = []
sort_messages (m ∷ ms) = place_message m (sort_messages ms)

abbrev pub push_message :
    ℕ → List ℕ → ℕ → ℕ → MessageOrderingPartition → MessageOrdering → ℕ × MessageOrdering
push_message now id message_id payload p o =
    let (n, counted) = increment_sequence id o in
    let m : Message = record {
      message_id = message_id;
      payload = payload;
      timestamp = now;
      sequence_number = n;
    } in
    (
      n,
      record counted {
        partitions =
            insert id (record p { messages = sort_messages (p.messages ++ m ∷ []) }) o.partitions;
      },
    )

unfoldable pub add_message :
    ℕ → List ℕ → List ℕ → ℕ → ℕ → MessageOrdering → (List ℕ × ℕ) × MessageOrdering
add_message now queue key message_id payload o =
    let id = get_partition_id queue key in
    let created : MessageOrderingPartition = record {
      partition_key = key;
      queue_name = queue;
      messages = [];
      is_processing = false;
      last_processed_at = none;
    } in
    if not o.enabled
    then ((key, 0), o)
    else (let added : ℕ × MessageOrdering = elim (lookup id o.partitions) [
      | some p ↦ push_message now id message_id payload p o
      | none ↦ push_message now id message_id payload created (record o {
        partitions = insert id created o.partitions;
        sequence_numbers = insert id 0 o.sequence_numbers;
      })
    ] in
        ((key, added.0), added.1))

abbrev pub first_message : List Message → Option Message
first_message [] = none
first_message (m ∷ ms) = some m

-- The message whose id, data and sequence number the service gives out.
unfoldable pub get_next_message : List ℕ → List ℕ → MessageOrdering → Option Message
get_next_message queue key o =
    if not o.enabled then none else elim (lookup (get_partition_id queue key) o.partitions) [
      | none ↦ none
      | some p ↦ if p.is_processing then none else first_message p.messages
    ]

unfoldable pub mark_partition_processing :
    ℕ → List ℕ → List ℕ → Bool → MessageOrdering → MessageOrdering
mark_partition_processing now queue key busy o =
    let id = get_partition_id queue key in
    elim (lookup id o.partitions) [
      | none ↦ o
      | some p ↦ record o {
        partitions =
            insert id
              (record p {
                is_processing = busy;
                last_processed_at = if busy then some now else p.last_processed_at;
              })
              o.partitions;
      }
    ]

-- `findIndex`
abbrev pub find_message : ℕ → List Message → Option ℕ
find_message message_id [] = none
find_message message_id (m ∷ ms) =
    let later = find_message message_id ms in
    if m.message_id == message_id
    then some 0
    else elim later [ none ↦ none | some i ↦ some (i + 1) ]

unfoldable pub remove_message : List ℕ → List ℕ → ℕ → MessageOrdering → Bool × MessageOrdering
remove_message queue key message_id o =
    let id = get_partition_id queue key in
    elim (lookup id o.partitions) [
      | none ↦ (false, o)
      | some p ↦ elim (find_message message_id p.messages) [
        | none ↦ (false, o)
        | some i ↦ (
          true,
          record o {
            partitions = insert id (record p { messages = remove_at p.messages i }) o.partitions;
          },
        )
      ]
    ]

abbrev pub get_partition : List ℕ → List ℕ → MessageOrdering → Option MessageOrderingPartition
get_partition queue key o = lookup (get_partition_id queue key) o.partitions

abbrev pub partitions_in : Map (List ℕ) MessageOrderingPartition → List MessageOrderingPartition
partitions_in [] = []
partitions_in ((_, p) ∷ ps) = p ∷ partitions_in ps

abbrev pub get_queue_partitions : List ℕ → MessageOrdering → List MessageOrderingPartition
get_queue_partitions queue o =
    keep_if (λ p. codes_same p.queue_name queue) (partitions_in o.partitions)

unfoldable pub count_queue : List ℕ → List MessageOrderingPartition → ℕ
count_queue queue [] = 0
count_queue queue (p ∷ ps) =
    let rest = count_queue queue ps in if codes_same p.queue_name queue then rest + 1 else rest

abbrev pub get_partition_count : List ℕ → MessageOrdering → ℕ
get_partition_count queue o = count_queue queue (partitions_in o.partitions)

abbrev pub get_total_message_count : MessageOrdering → ℕ
get_total_message_count o = sum_by (λ p. length p.messages) (partitions_in o.partitions)

abbrev pub get_partition_message_count : List ℕ → List ℕ → MessageOrdering → ℕ
get_partition_message_count queue key o = elim (get_partition queue key o) [
  | none ↦ 0
  | some p ↦ length p.messages
]

unfoldable pub clear_partition : List ℕ → List ℕ → MessageOrdering → Bool × MessageOrdering
clear_partition queue key o =
    let id = get_partition_id queue key in
    elim (lookup id o.partitions) [
      | none ↦ (false, o)
      | some p ↦ (
        true,
        record o {
          partitions = insert id (record p { messages = [] }) o.partitions;
          sequence_numbers = insert id 0 o.sequence_numbers;
        },
      )
    ]

abbrev pub is_vacant : MessageOrderingPartition → Bool
is_vacant p = length p.messages == 0 && not p.is_processing

-- The loop over the entries that the map had at its start: it only deletes the entry it is at.
unfoldable pub sweep : Map (List ℕ) MessageOrderingPartition → MessageOrdering → ℕ × MessageOrdering
sweep [] o = (0, o)
sweep ((id, p) ∷ ps) o =
    let dropped = sweep ps (record o {
      partitions = erase id o.partitions;
      sequence_numbers = erase id o.sequence_numbers;
    }) in
    let kept = sweep ps o in if is_vacant p then (dropped.0 + 1, dropped.1) else kept

unfoldable pub cleanup_empty_partitions : MessageOrdering → ℕ × MessageOrdering
unfolding sweep
cleanup_empty_partitions o = sweep o.partitions o

abbrev pub is_partition_processing : List ℕ → List ℕ → MessageOrdering → Bool
is_partition_processing queue key o = elim (get_partition queue key o) [
  | none ↦ false
  | some p ↦ p.is_processing
]

-- `updateConfig` with or without its part on the ordering.
unfoldable pub update_config : Option Bool → MessageOrdering → MessageOrdering
update_config none o = o
update_config (some enabled) o = record o { enabled = enabled }

pub record OrderingStats : Type 0 where
  pub enabled : Bool
  pub total_partitions : ℕ
  pub total_messages : ℕ
  pub processing_partitions : ℕ
  pub average_messages : ℕ × ℕ

unfoldable pub get_stats : MessageOrdering → OrderingStats
get_stats o =
    let ps = partitions_in o.partitions in
    let total = get_total_message_count o in
    record {
      enabled = o.enabled;
      total_partitions = length ps;
      total_messages = total;
      processing_partitions = length (keep_if (λ p. p.is_processing) ps);
      average_messages = if ltb 0 (length ps) then (total, length ps) else (0, 1);
    }
