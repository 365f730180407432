-- ===== src/Ordering/Invariant.antt =====
-- Each partition holds its messages in the order of their sequence numbers.
use swap_trade_backend.Common.{
  ℕ, zero, suc, ◌+◌, ◌≤◌, ◌<◌, ◌≡◌, refl, ltb, Bool, true, inl, inr, some, List, [], ◌∷◌, ◌++◌,
  remove_at, All, All-append, All-map, Map, lookup, insert, codes_key, lookup-insert, IsSorted,
  arith, if◌then◌else◌, Bool-cases, sym, subst, ◌∙◌, codes_same, codes_same_iff,
}
use swap_trade_backend.Ordering.{
  Message, MessageOrderingPartition, MessageOrdering, current_sequence, number_or_zero,
  place_message, sort_messages, push_message,
}

abbrev pub earlier : Message → Message → Bool
earlier m n = ltb m.sequence_number n.sequence_number

-- Strictly in sequence, and not beyond the last number that was given out.
abbrev pub IsInOrder : ℕ → List Message → Type 0
IsInOrder last ms = IsSorted earlier ms × All (λ m. m.sequence_number ≤ last) ms

abbrev pub IsOrdered : MessageOrdering → Type 0
IsOrdered o =
    (id : List ℕ) (p : MessageOrderingPartition)
    → lookup id o.partitions ≡ some p
    → IsInOrder (current_sequence id o) p.messages

place_message-first :
    (m : Message) (ms : List Message)
    → All (λ n. earlier m n ≡ true) ms
    → place_message m ms ≡ m ∷ ms
unfolding place_message
place_message-first m [] a = refl
place_message-first m (n ∷ ns) a = ground arith

pub sort_messages-sorted : (ms : List Message) → IsSorted earlier ms → sort_messages ms ≡ ms
unfolding sort_messages
sort_messages-sorted [] s = refl
sort_messages-sorted (m ∷ ms) s = rw (sort_messages-sorted ms s.1) (place_message-first m ms s.0)

IsSorted-push :
    (ms : List Message) (last : ℕ) (m : Message)
    → IsInOrder last ms
    → last < m.sequence_number
    → IsSorted earlier (ms ++ m ∷ [])
IsSorted-push [] last m h k = (tt, tt)
IsSorted-push (n ∷ ns) last m h k = (
  All-append (λ x. earlier n x ≡ true) ns (m ∷ []) h.0.0 (ground (arith, h.1.0), tt),
  IsSorted-push ns last m (h.0.1, h.1.1) k,
)

pub IsInOrder-push :
    (ms : List Message) (last : ℕ) (m : Message)
    → IsInOrder last ms
    → m.sequence_number ≡ last + 1
    → IsInOrder (last + 1) (ms ++ m ∷ [])
IsInOrder-push ms last m h k = (
  IsSorted-push ms last m h (omega arith),
  All-append (λ n. n.sequence_number ≤ last + 1) ms (m ∷ [])
      (All-map (λ n. n.sequence_number ≤ last) (λ n. n.sequence_number ≤ last + 1)
        (λ n l. omega arith) ms h.1)
      (omega arith, tt),
)

All-remove_at {κ} :
    (P : Message → Type κ) (ms : List Message) (i : ℕ) → All P ms → All P (remove_at ms i)
All-remove_at P [] i a = tt
All-remove_at P (m ∷ ms) zero a = a.1
All-remove_at P (m ∷ ms) (suc i) a = (a.0, All-remove_at P ms i a.1)

IsSorted-remove_at :
    (ms : List Message) (i : ℕ) → IsSorted earlier ms → IsSorted earlier (remove_at ms i)
IsSorted-remove_at [] i s = tt
IsSorted-remove_at (m ∷ ms) zero s = s.1
IsSorted-remove_at (m ∷ ms) (suc i) s =
    (All-remove_at (λ n. earlier m n ≡ true) ms i s.0, IsSorted-remove_at ms i s.1)

pub IsInOrder-remove_at :
    (last : ℕ) (ms : List Message) (i : ℕ) → IsInOrder last ms → IsInOrder last (remove_at ms i)
IsInOrder-remove_at last ms i h =
    (IsSorted-remove_at ms i h.0, All-remove_at (λ n. n.sequence_number ≤ last) ms i h.1)

-- Writing one partition and its sequence number.
pub written-IsOrdered :
    (o : MessageOrdering) (flag : Bool) (numbers : Map (List ℕ) ℕ) (id : List ℕ)
    (p : MessageOrderingPartition) (last : ℕ)
    → IsOrdered o
    → IsInOrder last p.messages
    → ((i : List ℕ)
        → number_or_zero (lookup i numbers)
          ≡ (if codes_same i id then last else current_sequence i o))
    → IsOrdered (record {
      enabled = flag;
      partitions = insert id p o.partitions;
      sequence_numbers = numbers;
    })
written-IsOrdered o flag numbers id p last v h n i q k =
    let found : (if codes_same i id then some p else lookup i o.partitions) ≡ some q =
      sym (lookup-insert i id p o.partitions) ∙ k in
    elim (Bool-cases (codes_same i id)) [
      | inl s ↦
          let same : p ≡ q = ground arith in
          rw (n i, s) (subst (λ x. IsInOrder last x.messages) same h)
      | inr s ↦ let old : lookup i o.partitions ≡ some q = ground arith in rw (n i, s) (v i q old)
    ]

pub sequence-insert :
    (o : MessageOrdering) (id i : List ℕ) (n : ℕ)
    → number_or_zero (lookup i (insert id n o.sequence_numbers))
      ≡ (if codes_same i id then n else current_sequence i o)
sequence-insert o id i n = elim (Bool-cases (codes_same i id)) [
  | inl s ↦ rw (lookup-insert i id n o.sequence_numbers, s) refl
  | inr s ↦ rw (lookup-insert i id n o.sequence_numbers, s) refl
]

sequence_same :
    (o : MessageOrdering) (id i : List ℕ)
    → current_sequence i o
      ≡ (if codes_same i id then current_sequence id o else current_sequence i o)
sequence_same o id i = elim (Bool-cases (codes_same i id)) [
  | inl s ↦ rw (s, (codes_same_iff i id).0 s) refl
  | inr s ↦ rw s refl
]

-- Changes of a partition that leave its numbering.
pub rewritten-IsOrdered :
    (o : MessageOrdering) (id : List ℕ) (p : MessageOrderingPartition)
    → IsOrdered o
    → IsInOrder (current_sequence id o) p.messages
    → IsOrdered (record o { partitions = insert id p o.partitions })
rewritten-IsOrdered o id p v h =
    written-IsOrdered o o.enabled _ id p (current_sequence id o) v h (sequence_same o id)

-- Pushing a message appends it: the sort has nothing to do.
pub sort_messages-push :
    (last : ℕ) (ms : List Message) (m : Message)
    → IsInOrder last ms
    → m.sequence_number ≡ last + 1
    → sort_messages (ms ++ m ∷ []) ≡ ms ++ m ∷ []
sort_messages-push last ms m h e =
    sort_messages-sorted (ms ++ m ∷ []) (IsInOrder-push ms last m h e).0

pub push_message-IsOrdered :
    (now : ℕ) (id : List ℕ) (message_id payload : ℕ) (p : MessageOrderingPartition)
    (o : MessageOrdering)
    → IsOrdered o
    → IsInOrder (current_sequence id o) p.messages
    → IsOrdered (push_message now id message_id payload p o).1
push_message-IsOrdered now id message_id payload p o v h =
    let last = current_sequence id o in
    let m : Message = record {
      message_id = message_id;
      payload = payload;
      timestamp = now;
      sequence_number = last + 1;
    } in
    written-IsOrdered o o.enabled _ id
      (record p { messages = sort_messages (p.messages ++ m ∷ []) }) (last + 1) v
      (rw (sort_messages-push last p.messages m h refl) (IsInOrder-push p.messages last m h refl))
      (λ i. sequence-insert o id i (last + 1))

pub created-IsOrdered :
    (o : MessageOrdering) (id : List ℕ) (p : MessageOrderingPartition)
    → IsOrdered o
    → p.messages ≡ []
    → IsOrdered (record o {
      partitions = insert id p o.partitions;
      sequence_numbers = insert id 0 o.sequence_numbers;
    })
created-IsOrdered o id p v e =
    written-IsOrdered o o.enabled _ id p 0 v (rw e (tt, tt)) (λ i. sequence-insert o id i 0)
