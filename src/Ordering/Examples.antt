-- ===== src/Ordering/Examples.antt =====
-- The theorems on message ordering at two messages of one partition.
use swap_trade_backend.Common.{
  length, none, ℕ, ◌≡◌, refl, true, some, List, [], ◌∷◌, ◌++◌, All, codes_key,
}
use swap_trade_backend.Ordering.{
  Message, MessageOrdering, get_partition_id, add_message, get_next_message, remove_message,
  place_message, sort_messages,
}
use swap_trade_backend.Ordering.Invariant.{IsOrdered, earlier}
use swap_trade_backend.Ordering.History.{
  OrderingCall, adds, marks, removes, clears, cleans, run_ordering, no_messages,
}
use swap_trade_backend.Ordering.History
use swap_trade_backend.Ordering.Queue.{messages_of, IsAppended}
use swap_trade_backend.Ordering.Queue
use swap_trade_backend.Ordering.Delivery.{add_all, take_all, contents}
use swap_trade_backend.Ordering.Delivery

abbrev two_calls : List OrderingCall
two_calls = adds 1 (97 ∷ []) (98 ∷ []) 7 70 ∷ adds 2 (97 ∷ []) (98 ∷ []) 8 80 ∷ []

abbrev two_messages : MessageOrdering
two_messages = run_ordering (no_messages true) two_calls

abbrev first : Message
first = record { message_id = 7; payload = 70; timestamp = 1; sequence_number = 1 }

run_empty-IsOrdered_example :
    IsOrdered
      (run_ordering (no_messages true) (two_calls ++ clears (97 ∷ []) (98 ∷ []) ∷ cleans ∷ []))
run_empty-IsOrdered_example =
    History.run_empty-IsOrdered true (two_calls ++ clears (97 ∷ []) (98 ∷ []) ∷ cleans ∷ [])

two_messages-IsOrdered : IsOrdered two_messages
two_messages-IsOrdered = History.run_empty-IsOrdered true two_calls

add_message-IsAppended_example :
    let id = get_partition_id (97 ∷ []) (98 ∷ []) in
    let r = add_message 3 (97 ∷ []) (98 ∷ []) 9 90 two_messages in
    (r.0.0 ≡ 98 ∷ []) × IsAppended id 9 90 (messages_of id two_messages) two_messages (r.0.1, r.1)
unfolding add_message sort_messages place_message
add_message-IsAppended_example =
    Queue.add_message-IsAppended 3 (97 ∷ []) (98 ∷ []) 9 90 two_messages two_messages-IsOrdered refl

next_is_first : get_next_message (97 ∷ []) (98 ∷ []) two_messages ≡ some first
unfolding get_next_message add_message sort_messages place_message
next_is_first = refl

get_next_message-remove_message_example :
    let id = get_partition_id (97 ∷ []) (98 ∷ []) in
    let r = remove_message (97 ∷ []) (98 ∷ []) 7 two_messages in
    (rest : List Message) × (messages_of id two_messages ≡ first ∷ rest)
    × All (λ n. earlier first n ≡ true) rest
    × (r.0 ≡ true)
    × (messages_of id r.1 ≡ rest)
get_next_message-remove_message_example =
    Queue.get_next_message-remove_message (97 ∷ []) (98 ∷ []) first two_messages
      two_messages-IsOrdered next_is_first

abbrev queue_a : List ℕ
queue_a = 97 ∷ []

abbrev key_b : List ℕ
key_b = 58 ∷ 98 ∷ []

abbrev given : List (ℕ × ℕ)
given = (7, 70) ∷ (8, 80) ∷ (7, 71) ∷ []

take_all-add_all_example :
    let id = get_partition_id (97 ∷ []) (98 ∷ []) in
    let r =
      take_all
        (length given)
        (97 ∷ [])
        (98 ∷ [])
        (add_all 5 (97 ∷ []) (98 ∷ []) given (no_messages true)) in
    (contents r.0 ≡ given)
    × (messages_of id r.1 ≡ [])
    × (get_next_message (97 ∷ []) (98 ∷ []) r.1 ≡ none)
take_all-add_all_example =
    Delivery.take_all-add_all 5 (97 ∷ []) (98 ∷ []) given (no_messages true)
      (refl, History.run_empty-IsOrdered true [], λ p h. cc) refl
