-- ===== src/RateLimit/Config.antt =====
-- ratelimit/ratelimit.config.ts: the limits, the paths, the roles. Texts are lists of character codes.
use swap_trade_backend.Common.{ℕ, List, [], ◌∷◌}

-- '/trading'
abbrev pub trading_path : List ℕ
trading_path = 47 ∷ 116 ∷ 114 ∷ 97 ∷ 100 ∷ 105 ∷ 110 ∷ 103 ∷ []

-- '/trade'
abbrev pub trade_path : List ℕ
trade_path = 47 ∷ 116 ∷ 114 ∷ 97 ∷ 100 ∷ 101 ∷ []

-- '/bidding'
abbrev pub bidding_path : List ℕ
bidding_path = 47 ∷ 98 ∷ 105 ∷ 100 ∷ 100 ∷ 105 ∷ 110 ∷ 103 ∷ []

-- '/bid'
abbrev pub bid_path : List ℕ
bid_path = 47 ∷ 98 ∷ 105 ∷ 100 ∷ []

-- '/balance'
abbrev pub balance_path : List ℕ
balance_path = 47 ∷ 98 ∷ 97 ∷ 108 ∷ 97 ∷ 110 ∷ 99 ∷ 101 ∷ []

-- '/wallet'
abbrev pub wallet_path : List ℕ
wallet_path = 47 ∷ 119 ∷ 97 ∷ 108 ∷ 108 ∷ 101 ∷ 116 ∷ []

-- '/health'
abbrev pub health_path : List ℕ
health_path = 47 ∷ 104 ∷ 101 ∷ 97 ∷ 108 ∷ 116 ∷ 104 ∷ []

-- '/metrics'
abbrev pub metrics_path : List ℕ
metrics_path = 47 ∷ 109 ∷ 101 ∷ 116 ∷ 114 ∷ 105 ∷ 99 ∷ 115 ∷ []

-- '/api/docs'
abbrev pub docs_path : List ℕ
docs_path = 47 ∷ 97 ∷ 112 ∷ 105 ∷ 47 ∷ 100 ∷ 111 ∷ 99 ∷ 115 ∷ []

-- '/favicon.ico'
abbrev pub favicon_path : List ℕ
favicon_path = 47 ∷ 102 ∷ 97 ∷ 118 ∷ 105 ∷ 99 ∷ 111 ∷ 110 ∷ 46 ∷ 105 ∷ 99 ∷ 111 ∷ []

-- 'global'
abbrev pub global_name : List ℕ
global_name = 103 ∷ 108 ∷ 111 ∷ 98 ∷ 97 ∷ 108 ∷ []

-- 'trading'
abbrev pub trading_name : List ℕ
trading_name = 116 ∷ 114 ∷ 97 ∷ 100 ∷ 105 ∷ 110 ∷ 103 ∷ []

-- 'bidding'
abbrev pub bidding_name : List ℕ
bidding_name = 98 ∷ 105 ∷ 100 ∷ 100 ∷ 105 ∷ 110 ∷ 103 ∷ []

-- 'balance'
abbrev pub balance_name : List ℕ
balance_name = 98 ∷ 97 ∷ 108 ∷ 97 ∷ 110 ∷ 99 ∷ 101 ∷ []

-- 'ADMIN'
abbrev pub admin_role : List ℕ
admin_role = 65 ∷ 68 ∷ 77 ∷ 73 ∷ 78 ∷ []

-- 'STAFF'
abbrev pub staff_role : List ℕ
staff_role = 83 ∷ 84 ∷ 65 ∷ 70 ∷ 70 ∷ []

-- 'PREMIUM'
abbrev pub premium_role : List ℕ
premium_role = 80 ∷ 82 ∷ 69 ∷ 77 ∷ 73 ∷ 85 ∷ 77 ∷ []

-- 'user:'
abbrev pub user_tracker : List ℕ
user_tracker = 117 ∷ 115 ∷ 101 ∷ 114 ∷ 58 ∷ []

-- 'ip:'
abbrev pub ip_tracker : List ℕ
ip_tracker = 105 ∷ 112 ∷ 58 ∷ []

pub record RateLimitConfig : Type 0 where
  pub limit : ℕ
  pub window : ℕ
  pub name : List ℕ

abbrev pub global_limit : RateLimitConfig
global_limit = record { limit = 100; window = 900000; name = global_name }

abbrev pub trading_limit : RateLimitConfig
trading_limit = record { limit = 10; window = 60000; name = trading_name }

abbrev pub bidding_limit : RateLimitConfig
bidding_limit = record { limit = 20; window = 60000; name = bidding_name }

abbrev pub balance_limit : RateLimitConfig
balance_limit = record { limit = 50; window = 60000; name = balance_name }
