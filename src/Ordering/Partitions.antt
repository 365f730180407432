-- ===== src/Ordering/Partitions.antt =====
-- Which queues and keys share a partition.
use swap_trade_backend.Common.{
  ℕ, ◌≡◌, refl, ◌==◌, false, not, Option, none, some, List, [], ◌∷◌, ◌++◌, All, append_assoc, ap,
  arith, lookup, codes_key, if◌then◌else◌,
}
use swap_trade_backend.Ordering.{
  Message, MessageOrdering, get_partition_id, get_next_message, first_message,
}

abbrev pub NoColon : List ℕ → Type 0
NoColon = All λ c. c == 58 ≡ false

-- Queue names without a colon: different queues or keys have different partitions.
pub get_partition_id_injective :
    (a b j k : List ℕ)
    → NoColon a
    → NoColon b
    → get_partition_id a j ≡ get_partition_id b k
    → (a ≡ b) × (j ≡ k)
get_partition_id_injective [] [] j k m n e = (refl, cc)
get_partition_id_injective [] (d ∷ b) j k m n e = let same : d ≡ 58 = cc in ground (arith, n.0)
get_partition_id_injective (c ∷ a) [] j k m n e = let same : c ≡ 58 = cc in ground (arith, m.0)
get_partition_id_injective (c ∷ a) (d ∷ b) j k m n e =
    let same : c ≡ d = cc in let (p, q) = get_partition_id_injective a b j k m.1 n.1 cc in (cc, q)

-- A queue whose name holds a colon shares its partitions with the queue that is named by the part
-- before the colon: the service gives out the same next message for both.
pub get_next_message-get_partition_id :
    (a b key : List ℕ) (o : MessageOrdering)
    → get_next_message (a ++ 58 ∷ b) key o ≡ get_next_message a (b ++ 58 ∷ key) o
unfolding get_next_message
get_next_message-get_partition_id a b key o =
    ap
      (λ id.
        if not o.enabled then none else elim (lookup id o.partitions) as (λ _. Option Message) [
          | none ↦ none
          | some p ↦ if p.is_processing then none else first_message p.messages
        ])
      (append_assoc a (58 ∷ b) (58 ∷ key))
