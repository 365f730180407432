-- ===== src/Ordering/History.antt =====
-- Every call keeps the partitions in order, and so does every history of calls.
use swap_trade_backend.Common.{
  ℕ, ◌≡◌, refl, Bool, false, inl, inr, Option, none, some, List, [], ◌∷◌, Map, lookup, insert,
  erase, codes_key, codes_same, lookup-erase, if◌then◌else◌, Option-cases, Bool-cases, sym, ◌∙◌,
  arith,
}
use swap_trade_backend.Ordering.{
  MessageOrderingPartition, MessageOrdering, get_partition_id, current_sequence, add_message,
  mark_partition_processing, find_message, remove_message, clear_partition, is_vacant, sweep,
  cleanup_empty_partitions, update_config,
}
use swap_trade_backend.Ordering.Invariant.{
  IsOrdered, rewritten-IsOrdered, created-IsOrdered, push_message-IsOrdered, IsInOrder-remove_at,
}

pub add_message-IsOrdered :
    (now : ℕ) (queue key : List ℕ) (message_id payload : ℕ) (o : MessageOrdering)
    → IsOrdered o
    → IsOrdered (add_message now queue key message_id payload o).1
unfolding add_message
add_message-IsOrdered now queue key message_id payload o v =
    let id = get_partition_id queue key in
    elim (Bool-cases o.enabled) [
      | inr f ↦ rw (f, add_message) v
      | inl f ↦
          rw (f, add_message)
            (elim (Option-cases (lookup id o.partitions)) [
              | inr (p, e) ↦
                  rw (e, add_message)
                    (push_message-IsOrdered now id message_id payload p o v (v id p e))
              | inl e ↦
                  let created : MessageOrderingPartition = record {
                    partition_key = key;
                    queue_name = queue;
                    messages = [];
                    is_processing = false;
                    last_processed_at = none;
                  } in
                  rw (e, add_message)
                    (push_message-IsOrdered now id message_id payload created
                      (record o {
                        partitions = insert id created o.partitions;
                        sequence_numbers = insert id 0 o.sequence_numbers;
                      })
                      (created-IsOrdered o id created v refl) (tt, tt))
            ])
    ]

mark_partition_processing-IsOrdered :
    (now : ℕ) (queue key : List ℕ) (busy : Bool) (o : MessageOrdering)
    → IsOrdered o
    → IsOrdered (mark_partition_processing now queue key busy o)
unfolding mark_partition_processing
mark_partition_processing-IsOrdered now queue key busy o v =
    let id = get_partition_id queue key in
    elim (Option-cases (lookup id o.partitions)) [
      | inl e ↦ rw (e, mark_partition_processing) v
      | inr (p, e) ↦ rw (e, mark_partition_processing) (rewritten-IsOrdered o id _ v (v id p e))
    ]

pub remove_message-IsOrdered :
    (queue key : List ℕ) (message_id : ℕ) (o : MessageOrdering)
    → IsOrdered o
    → IsOrdered (remove_message queue key message_id o).1
unfolding remove_message
remove_message-IsOrdered queue key message_id o v =
    let id = get_partition_id queue key in
    elim (Option-cases (lookup id o.partitions)) [
      | inl e ↦ rw (e, remove_message) v
      | inr (p, e) ↦
          rw (e, remove_message)
            (elim (Option-cases (find_message message_id p.messages)) [
              | inl f ↦ rw (f, remove_message) v
              | inr (i, f) ↦
                  rw (f, remove_message)
                    (rewritten-IsOrdered o id _ v
                      (IsInOrder-remove_at (current_sequence id o) p.messages i (v id p e)))
            ])
    ]

clear_partition-IsOrdered :
    (queue key : List ℕ) (o : MessageOrdering)
    → IsOrdered o
    → IsOrdered (clear_partition queue key o).1
unfolding clear_partition
clear_partition-IsOrdered queue key o v =
    let id = get_partition_id queue key in
    elim (Option-cases (lookup id o.partitions)) [
      | inl e ↦ rw (e, clear_partition) v
      | inr (p, e) ↦
          rw (e, clear_partition) (created-IsOrdered o id (record p { messages = [] }) v refl)
    ]

erased-IsOrdered :
    (id : List ℕ) (o : MessageOrdering)
    → IsOrdered o
    → IsOrdered (record o {
      partitions = erase id o.partitions;
      sequence_numbers = erase id o.sequence_numbers;
    })
erased-IsOrdered id o v i p e =
    let found : (if codes_same i id then none else lookup i o.partitions) ≡ some p =
      sym (lookup-erase i id o.partitions) ∙ e in
    elim (Bool-cases (codes_same i id)) [
      | inl s ↦ cc
      | inr s ↦
          let old : lookup i o.partitions ≡ some p = ground arith in
          let same : lookup i (erase id o.sequence_numbers) ≡ lookup i o.sequence_numbers =
            lookup-erase i id o.sequence_numbers ∙ (rw s refl) in
          rw same (v i p old)
    ]

sweep-IsOrdered :
    (ps : Map (List ℕ) MessageOrderingPartition) (o : MessageOrdering)
    → IsOrdered o
    → IsOrdered (sweep ps o).1
unfolding sweep
sweep-IsOrdered [] o v = v
sweep-IsOrdered ((id, p) ∷ ps) o v = elim (Bool-cases (is_vacant p)) [
  | inl e ↦ rw (e, sweep) (sweep-IsOrdered ps _ (erased-IsOrdered id o v))
  | inr e ↦ rw (e, sweep) (sweep-IsOrdered ps o v)
]

pub data OrderingCall : Type 0 where
  adds : ℕ → List ℕ → List ℕ → ℕ → ℕ → OrderingCall
  marks : ℕ → List ℕ → List ℕ → Bool → OrderingCall
  removes : List ℕ → List ℕ → ℕ → OrderingCall
  clears : List ℕ → List ℕ → OrderingCall
  cleans : OrderingCall
  configures : Option Bool → OrderingCall

abbrev pub step_ordering : MessageOrdering → OrderingCall → MessageOrdering
step_ordering o (adds now queue key message_id payload) =
    (add_message now queue key message_id payload o).1
step_ordering o (marks now queue key busy) = mark_partition_processing now queue key busy o
step_ordering o (removes queue key message_id) = (remove_message queue key message_id o).1
step_ordering o (clears queue key) = (clear_partition queue key o).1
step_ordering o cleans = (cleanup_empty_partitions o).1
step_ordering o (configures c) = update_config c o

abbrev pub run_ordering : MessageOrdering → List OrderingCall → MessageOrdering
run_ordering o [] = o
run_ordering o (c ∷ cs) = run_ordering (step_ordering o c) cs

step_ordering-IsOrdered :
    (o : MessageOrdering) (c : OrderingCall) → IsOrdered o → IsOrdered (step_ordering o c)
unfolding cleanup_empty_partitions update_config
step_ordering-IsOrdered o (adds now queue key message_id payload) v =
    add_message-IsOrdered now queue key message_id payload o v
step_ordering-IsOrdered o (marks now queue key busy) v =
    mark_partition_processing-IsOrdered now queue key busy o v
step_ordering-IsOrdered o (removes queue key message_id) v =
    remove_message-IsOrdered queue key message_id o v
step_ordering-IsOrdered o (clears queue key) v = clear_partition-IsOrdered queue key o v
step_ordering-IsOrdered o cleans v = sweep-IsOrdered o.partitions o v
step_ordering-IsOrdered o (configures none) v = v
step_ordering-IsOrdered o (configures (some b)) v = v

run_ordering-IsOrdered :
    (o : MessageOrdering) (cs : List OrderingCall) → IsOrdered o → IsOrdered (run_ordering o cs)
run_ordering-IsOrdered o [] v = v
run_ordering-IsOrdered o (c ∷ cs) v =
    run_ordering-IsOrdered (step_ordering o c) cs (step_ordering-IsOrdered o c v)

abbrev pub no_messages : Bool → MessageOrdering
no_messages enabled = record { enabled = enabled; partitions = []; sequence_numbers = [] }

-- After any history of calls on a service without partitions, the messages of each partition stand
-- strictly in the order of their sequence numbers, none of which is beyond the partition's counter.
pub run_empty-IsOrdered :
    (enabled : Bool) (cs : List OrderingCall) → IsOrdered (run_ordering (no_messages enabled) cs)
run_empty-IsOrdered enabled cs = run_ordering-IsOrdered (no_messages enabled) cs (λ id p e. cc)
