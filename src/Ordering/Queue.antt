-- ===== src/Ordering/Queue.antt =====
-- A partition is a queue: a message is added at the end, and the next one is the oldest.
use swap_trade_backend.Common.{
  ℕ, ◌+◌, ◌≤◌, ◌≡◌, refl, true, false, inl, inr, Option, none, some, List, [], ◌∷◌, ◌++◌, lookup,
  insert, codes_key, codes_same, remove_at, All, All-map, lookup-insert, lookup-insert_self,
  Option-cases, Bool-cases, subst, ◌∙◌, arith, ==_refl,
}
use swap_trade_backend.Ordering.{
  Message, MessageOrderingPartition, MessageOrdering, get_partition_id, current_sequence,
  push_message, add_message, get_next_message, first_message, find_message, remove_message,
  sort_messages,
}
use swap_trade_backend.Ordering.Invariant.{IsOrdered, IsInOrder, earlier, sort_messages-push}

abbrev pub messages_in : Option MessageOrderingPartition → List Message
messages_in none = []
messages_in (some p) = p.messages

abbrev pub messages_of : List ℕ → MessageOrdering → List Message
messages_of id o = messages_in (lookup id o.partitions)

-- The message stands at the end of its partition, after all that were there, and no other
-- partition changed.
abbrev pub IsAppended :
    List ℕ → ℕ → ℕ → List Message → MessageOrdering → ℕ × MessageOrdering → Type 0
IsAppended id message_id payload old o (n, o') =
    (m : Message) × (m.sequence_number ≡ n)
    × (m.message_id ≡ message_id)
    × (m.payload ≡ payload)
    × (messages_of id o' ≡ old ++ m ∷ [])
    × All (λ x. earlier x m ≡ true) old
    × ((i : List ℕ) → codes_same i id ≡ false → lookup i o'.partitions ≡ lookup i o.partitions)

push_message-IsAppended :
    (now : ℕ) (id : List ℕ) (message_id payload : ℕ) (p : MessageOrderingPartition)
    (o : MessageOrdering)
    → IsInOrder (current_sequence id o) p.messages
    → IsAppended id message_id payload p.messages o (push_message now id message_id payload p o)
push_message-IsAppended now id message_id payload p o h =
    let last = current_sequence id o in
    let m : Message = record {
      message_id = message_id;
      payload = payload;
      timestamp = now;
      sequence_number = last + 1;
    } in
    let q : MessageOrderingPartition = record p {
      messages = sort_messages (p.messages ++ m ∷ []);
    } in
    (
      m,
      refl,
      refl,
      refl,
      rw (lookup-insert_self id q o.partitions) (sort_messages-push last p.messages m h refl),
      All-map (λ x. x.sequence_number ≤ last) (λ x. earlier x m ≡ true) (λ x k. ground arith)
          p.messages h.1,
      λ i s. lookup-insert i id q o.partitions ∙ (rw s refl),
    )

-- With the ordering enabled, in an ordered service, a message that is added gets a number above
-- those of all messages of its partition and stands at its end; the number is given back with the
-- key, and every other partition is as it was.
pub add_message-IsAppended :
    (now : ℕ) (queue key : List ℕ) (message_id payload : ℕ) (o : MessageOrdering)
    → IsOrdered o
    → o.enabled ≡ true
    → let id = get_partition_id queue key in
      let r = add_message now queue key message_id payload o in
      (r.0.0 ≡ key) × IsAppended id message_id payload (messages_of id o) o (r.0.1, r.1)
unfolding add_message
add_message-IsAppended now queue key message_id payload o v f =
    let id = get_partition_id queue key in
    rw (f, add_message)
      (elim (Option-cases (lookup id o.partitions)) [
        | inr (p, e) ↦
            rw (e, add_message)
              (refl, push_message-IsAppended now id message_id payload p o (v id p e))
        | inl e ↦
            let created : MessageOrderingPartition = record {
              partition_key = key;
              queue_name = queue;
              messages = [];
              is_processing = false;
              last_processed_at = none;
            } in
            let opened : MessageOrdering = record o {
              partitions = insert id created o.partitions;
              sequence_numbers = insert id 0 o.sequence_numbers;
            } in
            let (m, a, b, c, d, all, others) =
              push_message-IsAppended now id message_id payload created opened (tt, tt) in
            rw (e, add_message)
              (
                refl,
                (
                  m,
                  a,
                  b,
                  c,
                  d,
                  all,
                  λ i s. others i s ∙ lookup-insert i id created o.partitions ∙ (rw s refl),
                ),
              )
      ])

first_message-cons :
    (ms : List Message) (m : Message)
    → first_message ms ≡ some m
    → (rest : List Message) × (ms ≡ m ∷ rest)
first_message-cons [] m e = cc
first_message-cons (n ∷ ns) m e = (ns, cc)

get_next_message-partition :
    (queue key : List ℕ) (m : Message) (o : MessageOrdering)
    → get_next_message queue key o ≡ some m
    → (p : MessageOrderingPartition) × (lookup (get_partition_id queue key) o.partitions ≡ some p)
      × (first_message p.messages ≡ some m)
unfolding get_next_message
get_next_message-partition queue key m o g = elim (Bool-cases o.enabled) [
  | inr f ↦ let c : Path (Option Message) none (some m) = rw (f, get_next_message) at g in cc
  | inl f ↦ elim (Option-cases (lookup (get_partition_id queue key) o.partitions)) [
    | inl e ↦ let c : Path (Option Message) none (some m) = rw (f, e, get_next_message) at g in cc
    | inr (p, e) ↦ elim (Bool-cases p.is_processing) [
      | inl b ↦
          let c : Path (Option Message) none (some m) = rw (f, e, b, get_next_message) at g in cc
      | inr b ↦ (p, e, rw (f, e, b, get_next_message) at g)
    ]
  ]
]

-- In an ordered service, the message that the service gives out next is the first of its
-- partition and has the least sequence number; removing it by its id succeeds and leaves exactly
-- the messages behind it.
pub get_next_message-remove_message :
    (queue key : List ℕ) (m : Message) (o : MessageOrdering)
    → IsOrdered o
    → get_next_message queue key o ≡ some m
    → let id = get_partition_id queue key in
      let r = remove_message queue key m.message_id o in
      (rest : List Message) × (messages_of id o ≡ m ∷ rest)
      × All (λ n. earlier m n ≡ true) rest
      × (r.0 ≡ true)
      × (messages_of id r.1 ≡ rest)
unfolding remove_message
get_next_message-remove_message queue key m o v g =
    let id = get_partition_id queue key in
    let (p, e, h) = get_next_message-partition queue key m o g in
    let (rest, same) = first_message-cons p.messages m h in
    let ordered : IsInOrder (current_sequence id o) (m ∷ rest) =
      subst (λ x. IsInOrder (current_sequence id o) x) same (v id p e) in
    let found : find_message m.message_id p.messages ≡ some 0 =
      rw (same, ==_refl m.message_id) refl in
    rw (e, remove_message, found)
      (
        rest,
        same,
        ordered.0.0,
        refl,
        rw
            (
              lookup-insert_self id (record p { messages = remove_at p.messages 0 }) o.partitions,
              same,
            )
            refl,
      )
