-- ===== src/Ordering/Delivery.antt =====
-- A producer that adds messages to a partition, and a consumer that takes the next one and removes
-- it until there is none.
use swap_trade_backend.Common.{
  ℕ, zero, suc, ◌≡◌, refl, sym, ap, ◌∙◌, true, false, inl, inr, none, some, List, [], ◌∷◌, ◌++◌,
  map, append-nil, append_assoc, length, lookup, insert, codes_key, lookup-insert_self,
  Option-cases, remove_at,
}
use swap_trade_backend.Ordering.{
  Message, MessageOrderingPartition, MessageOrdering, get_partition_id, add_message,
  get_next_message, remove_message, find_message, push_message, first_message,
}
use swap_trade_backend.Ordering.Invariant.{IsOrdered}
use swap_trade_backend.Ordering.History.{add_message-IsOrdered, remove_message-IsOrdered}
use swap_trade_backend.Ordering.Queue.{
  messages_of, add_message-IsAppended, get_next_message-remove_message,
}

-- What the producer gave of a message.
abbrev pub content : Message → ℕ × ℕ
content m = (m.message_id, m.payload)

abbrev pub contents : List Message → List (ℕ × ℕ)
contents ms = map content ms

abbrev pub add_all : ℕ → List ℕ → List ℕ → List (ℕ × ℕ) → MessageOrdering → MessageOrdering
add_all now queue key [] o = o
add_all now queue key ((message_id, payload) ∷ xs) o =
    add_all now queue key xs (add_message now queue key message_id payload o).1

-- So many rounds of the consumer: the messages it got, and the service afterwards.
abbrev pub take_all : ℕ → List ℕ → List ℕ → MessageOrdering → List Message × MessageOrdering
take_all zero queue key o = ([], o)
take_all (suc n) queue key o = elim (get_next_message queue key o) [
  | none ↦ ([], o)
  | some m ↦
      let rest = take_all n queue key (remove_message queue key m.message_id o).1 in
      (m ∷ rest.0, rest.1)
]

-- The partition, if there is one, is not being processed.
abbrev pub IsIdle : List ℕ → MessageOrdering → Type 0
IsIdle id o =
    (p : MessageOrderingPartition) → lookup id o.partitions ≡ some p → p.is_processing ≡ false

some_injective : (a b : MessageOrderingPartition) → some a ≡ some b → a ≡ b
some_injective a b h = cc

-- A service that is enabled and ordered, and whose partition is idle.
abbrev pub IsReady : List ℕ → MessageOrdering → Type 0
IsReady id o = (o.enabled ≡ true) × IsOrdered o × IsIdle id o

pushed_processing :
    (now : ℕ) (id : List ℕ) (message_id payload : ℕ) (q : MessageOrderingPartition)
    (o : MessageOrdering) (p : MessageOrderingPartition)
    → lookup id (push_message now id message_id payload q o).1.partitions ≡ some p
    → p.is_processing ≡ q.is_processing
pushed_processing now id message_id payload q o p h =
    let found = sym (lookup-insert_self id _ o.partitions) ∙ h in
    let same = some_injective _ p found in sym (ap (λ y. y.is_processing) same)

add_message-IsReady :
    (now : ℕ) (queue key : List ℕ) (message_id payload : ℕ) (o : MessageOrdering)
    → IsReady (get_partition_id queue key) o
    → IsReady (get_partition_id queue key) (add_message now queue key message_id payload o).1
unfolding add_message
add_message-IsReady now queue key message_id payload o (f, v, idle) =
    let id = get_partition_id queue key in
    let ordered = add_message-IsOrdered now queue key message_id payload o v in
    elim (Option-cases (lookup id o.partitions)) [
      | inl e ↦
          let created : MessageOrderingPartition = record {
            partition_key = key;
            queue_name = queue;
            messages = [];
            is_processing = false;
            last_processed_at = none;
          } in
          let opened : MessageOrdering = record o {
            partitions = insert id created o.partitions;
            sequence_numbers = insert id 0 o.sequence_numbers;
          } in
          (
            rw (f, add_message, e) f,
            ordered,
            λ p h.
                let x = rw (f, add_message, e) at h in
                pushed_processing now id message_id payload created opened p x,
          )
      | inr (q, e) ↦ (
        rw (f, add_message, e) f,
        ordered,
        λ p h.
            let x = rw (f, add_message, e) at h in
            pushed_processing now id message_id payload q o p x ∙ idle q e,
      )
    ]

-- What the producer adds stands behind what was there.
contents-append :
    (ms : List Message) (m : Message) → contents (ms ++ m ∷ []) ≡ contents ms ++ content m ∷ []
contents-append [] m = refl
contents-append (n ∷ ns) m = ap (λ cs. content n ∷ cs) (contents-append ns m)

add_all-contents :
    (now : ℕ) (queue key : List ℕ) (xs : List (ℕ × ℕ)) (o : MessageOrdering)
    → IsReady (get_partition_id queue key) o
    → let id = get_partition_id queue key in
      (contents (messages_of id (add_all now queue key xs o)) ≡ contents (messages_of id o) ++ xs)
      × IsReady id (add_all now queue key xs o)
add_all-contents now queue key [] o ready = (sym (append-nil _), ready)
add_all-contents now queue key ((message_id, payload) ∷ xs) o ready =
    let id = get_partition_id queue key in
    let next = (add_message now queue key message_id payload o).1 in
    let (_, (m, _, a, b, c, _, _)) =
      add_message-IsAppended now queue key message_id payload o ready.1 ready.0 in
    let (all, still) =
      add_all-contents now queue key xs next
        (add_message-IsReady now queue key message_id payload o ready) in
    let pair : content m ≡ (message_id, payload) =
      ap (λ i. (i, m.payload)) a ∙ ap (λ x. (message_id, x)) b in
    let one : contents (messages_of id next)
        ≡ contents (messages_of id o) ++ (message_id, payload) ∷ [] =
      ap (λ l. contents l) c
      ∙ contents-append (messages_of id o) m
      ∙ ap (λ y. contents (messages_of id o) ++ y ∷ []) pair in
    (
      all
          ∙ ap (λ l. l ++ xs) one
          ∙ append_assoc (contents (messages_of id o)) ((message_id, payload) ∷ []) xs,
      still,
    )

-- The next message of a ready partition is its first.
get_next_message-first :
    (queue key : List ℕ) (o : MessageOrdering)
    → IsReady (get_partition_id queue key) o
    → get_next_message queue key o ≡ first_message (messages_of (get_partition_id queue key) o)
unfolding get_next_message
get_next_message-first queue key o (f, v, idle) =
    elim (Option-cases (lookup (get_partition_id queue key) o.partitions)) [
      | inl e ↦ rw (f, e, get_next_message) refl
      | inr (p, e) ↦ let quiet = idle p e in rw (f, e, get_next_message, quiet) refl
    ]

removed_processing :
    (queue key : List ℕ) (message_id : ℕ) (o : MessageOrdering)
    → IsIdle (get_partition_id queue key) o
    → IsIdle (get_partition_id queue key) (remove_message queue key message_id o).1
unfolding remove_message
removed_processing queue key message_id o idle p h =
    let id = get_partition_id queue key in
    elim (Option-cases (lookup id o.partitions)) [
      | inl e ↦ let x = rw (e, remove_message) at h in idle p x
      | inr (q, e) ↦ elim (Option-cases (find_message message_id q.messages)) [
        | inl g ↦ let x = rw (e, g, remove_message) at h in idle p x
        | inr (i, g) ↦
            let x = rw (e, g, remove_message) at h in
            let new : MessageOrderingPartition = record q { messages = remove_at q.messages i } in
            let found : some new ≡ some p = sym (lookup-insert_self id new o.partitions) ∙ x in
            sym (ap (λ y. y.is_processing) (some_injective new p found)) ∙ idle q e
      ]
    ]

removed_enabled :
    (queue key : List ℕ) (message_id : ℕ) (o : MessageOrdering)
    → (remove_message queue key message_id o).1.enabled ≡ o.enabled
unfolding remove_message
removed_enabled queue key message_id o =
    elim (Option-cases (lookup (get_partition_id queue key) o.partitions)) [
      | inl e ↦ rw (e, remove_message) refl
      | inr (q, e) ↦ elim (Option-cases (find_message message_id q.messages)) [
        | inl g ↦ rw (e, g, remove_message) refl
        | inr (i, g) ↦ rw (e, g, remove_message) refl
      ]
    ]

cons_tail : (m : Message) (xs ys : List Message) → m ∷ xs ≡ m ∷ ys → xs ≡ ys
cons_tail m xs ys h = cc

length-contents : (ms : List Message) → length (contents ms) ≡ length ms
length-contents [] = refl
length-contents (m ∷ ms) = ap suc (length-contents ms)

-- The consumer gets all messages of a ready partition, in order, and leaves it empty.
take_all_messages :
    (ms : List Message) (queue key : List ℕ) (o : MessageOrdering)
    → IsReady (get_partition_id queue key) o
    → messages_of (get_partition_id queue key) o ≡ ms
    → let r = take_all (length ms) queue key o in
      (r.0 ≡ ms)
      × (messages_of (get_partition_id queue key) r.1 ≡ [])
      × IsReady (get_partition_id queue key) r.1
take_all_messages [] queue key o ready h = (refl, h, ready)
take_all_messages (m ∷ ms) queue key o ready h =
    let id = get_partition_id queue key in
    let next = (remove_message queue key m.message_id o).1 in
    let g : get_next_message queue key o ≡ some m =
      get_next_message-first queue key o ready ∙ ap (λ l. first_message l) h in
    let (rest, same, _, _, left) = get_next_message-remove_message queue key m o ready.1 g in
    let tail : rest ≡ ms = cons_tail m rest ms (sym same ∙ h) in
    let ready_too : IsReady id next = (
      removed_enabled queue key m.message_id o ∙ ready.0,
      remove_message-IsOrdered queue key m.message_id o ready.1,
      removed_processing queue key m.message_id o ready.2,
    ) in
    let (all, empty, still) = take_all_messages ms queue key next ready_too (left ∙ tail) in
    rw (g, take_all) (ap (λ l. m ∷ l) all, empty, still)

-- What a producer adds to a partition that holds no messages, a consumer gets back in the order
-- in which it was added, after as many rounds; then the partition is empty and there is no next
-- message. The service is enabled and ordered, and the partition is not being processed.
pub take_all-add_all :
    (now : ℕ) (queue key : List ℕ) (xs : List (ℕ × ℕ)) (o : MessageOrdering)
    → IsReady (get_partition_id queue key) o
    → messages_of (get_partition_id queue key) o ≡ []
    → let r = take_all (length xs) queue key (add_all now queue key xs o) in
      (contents r.0 ≡ xs)
      × (messages_of (get_partition_id queue key) r.1 ≡ [])
      × (get_next_message queue key r.1 ≡ none)
take_all-add_all now queue key xs o ready h =
    let id = get_partition_id queue key in
    let full = add_all now queue key xs o in
    let (all, ready_too) = add_all-contents now queue key xs o ready in
    let same : contents (messages_of id full) ≡ xs = all ∙ ap (λ l. contents l ++ xs) h in
    let count : length xs ≡ length (messages_of id full) =
      sym (ap (λ l. length l) same) ∙ length-contents (messages_of id full) in
    let (got, empty, still) =
      take_all_messages (messages_of id full) queue key full ready_too refl in
    rw count (
      ap (λ l. contents l) got ∙ same,
      empty,
      get_next_message-first queue key _ still ∙ ap (λ l. first_message l) empty,
    )
