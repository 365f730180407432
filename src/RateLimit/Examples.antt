-- ===== src/RateLimit/Examples.antt =====
-- The theorem on windows at two endpoints without a limit of their own, which share a key.
use swap_trade_backend.Common.{◌≡◌, refl, ℕ, none, some, List, [], ◌∷◌, arith}
use swap_trade_backend.RateLimit.{Request, key_of}
use swap_trade_backend.RateLimit.Window.{answers, numbered}
use swap_trade_backend.RateLimit.Window

abbrev guest : Request
guest = record { user_id = none; ip = 49 ∷ []; endpoint = 47 ∷ 97 ∷ []; user_role = none }

abbrev member : Request
member = record {
  user_id = some (50 ∷ []);
  ip = 49 ∷ [];
  endpoint = 47 ∷ 97 ∷ [];
  user_role = none;
}

-- Another endpoint, with the key of the guest.
abbrev elsewhere : Request
elsewhere = record guest { endpoint = 47 ∷ 98 ∷ [] }

abbrev arrivals : List (ℕ × Request)
arrivals = (5, member) ∷ (3, elsewhere) ∷ (6, guest) ∷ []

answers-numbered_example :
    answers (key_of guest) ((4, guest) ∷ arrivals) []
    ≡ numbered (key_of guest) 0 ((4, guest) ∷ arrivals)
answers-numbered_example =
    Window.answers-numbered 4 guest arrivals [] refl tt
      (omega arith, (omega arith, (omega arith, tt)))
