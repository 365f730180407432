-- ===== src/RateLimit.antt =====
-- ratelimit/ratelimit.service.ts: counters of requests in windows. The store is a map from keys to
-- counters; headers are the numbers that they hold. A role that names a member of every
-- JavaScript object is left out.
pub mod Config
pub mod Window
mod Examples
use swap_trade_backend.Common.{
  ℕ, zero, suc, ◌+◌, ◌-◌, ◌*◌, ◌/◌, ◌==◌, ltb, leb, Bool, true, false, not, ◌&&◌, ◌||◌, Option,
  none, some, List, [], ◌∷◌, ◌++◌, length, Map, lookup, insert, erase, codes_key, codes_same,
  if◌then◌else◌,
}
use swap_trade_backend.RateLimit.Config.{
  RateLimitConfig, global_limit, trading_limit, bidding_limit, balance_limit, trading_path,
  trade_path, bidding_path, bid_path, balance_path, wallet_path, health_path, metrics_path,
  docs_path, favicon_path, admin_role, staff_role, premium_role, user_tracker, ip_tracker,
}

pub record RateLimitRecord : Type 0 where
  pub count : ℕ
  pub reset_time : ℕ

abbrev pub Store : Type 0
Store = Map (List ℕ) RateLimitRecord

abbrev pub starts_with : List ℕ → List ℕ → Bool
starts_with [] text = true
starts_with (p ∷ ps) [] = false
starts_with (p ∷ ps) (c ∷ cs) = p == c && starts_with ps cs

abbrev pub includes : List ℕ → List ℕ → Bool
includes part [] = starts_with part []
includes part (c ∷ cs) = starts_with part (c ∷ cs) || includes part cs

abbrev pub get_endpoint_limit : List ℕ → RateLimitConfig
get_endpoint_limit endpoint =
    if includes trading_path endpoint || includes trade_path endpoint
    then trading_limit
    else if includes bidding_path endpoint || includes bid_path endpoint
    then bidding_limit
    else if includes balance_path endpoint || includes wallet_path endpoint
    then balance_limit
    else global_limit

abbrev pub get_user_multiplier : Option (List ℕ) → ℕ
get_user_multiplier none = 1
get_user_multiplier (some role) =
    if codes_same role admin_role
    then 5
    else if codes_same role staff_role
    then 3
    else if codes_same role premium_role
    then 2
    else 1

abbrev pub should_bypass : List ℕ → Bool
should_bypass endpoint =
    starts_with health_path endpoint
    || starts_with metrics_path endpoint
    || starts_with docs_path endpoint
    || starts_with favicon_path endpoint

-- The loop over the entries that the store had at its start.
abbrev pub cleanup : ℕ → Store → Store → Store
cleanup now [] store = store
cleanup now ((key, r) ∷ rs) store =
    cleanup now rs (if leb r.reset_time now then erase key store else store)

abbrev pub cleanup_expired_records : ℕ → Store → Store
cleanup_expired_records now store = cleanup now store store

-- An empty user id counts as none.
abbrev pub tracker : Option (List ℕ) → List ℕ → List ℕ
tracker none ip = ip_tracker ++ ip
tracker (some []) ip = ip_tracker ++ ip
tracker (some (c ∷ cs)) ip = user_tracker ++ c ∷ cs

pub record Request : Type 0 where
  pub user_id : Option (List ℕ)
  pub ip : List ℕ
  pub endpoint : List ℕ
  pub user_role : Option (List ℕ)

abbrev pub key_of : Request → List ℕ
key_of q = (get_endpoint_limit q.endpoint).name ++ 58 ∷ tracker q.user_id q.ip

abbrev pub actual_limit : Request → ℕ
actual_limit q = (get_endpoint_limit q.endpoint).limit * get_user_multiplier q.user_role

pub record Headers : Type 0 where
  pub limit : ℕ
  pub remaining : ℕ
  pub reset : ℕ
  pub retry_after : ℕ

-- `Math.ceil(ms / 1000)`
abbrev pub seconds : ℕ → ℕ
seconds ms = (ms + 999) / 1000

-- The record that the request is counted in.
abbrev pub record_for : ℕ → ℕ → Option RateLimitRecord → RateLimitRecord
record_for now window none = record { count = 0; reset_time = now + window }
record_for now window (some r) =
    if leb r.reset_time now then record { count = 0; reset_time = now + window } else r

abbrev pub counted : RateLimitRecord → RateLimitRecord
counted r = record r { count = r.count + 1 }

abbrev pub headers_for : ℕ → ℕ → RateLimitRecord → Headers
headers_for now limit r = record {
  limit = limit;
  remaining = limit - r.count;
  reset = r.reset_time;
  retry_after = seconds (r.reset_time - now);
}

unfoldable pub check_rate_limit : ℕ → Request → Store → (Bool × Option Headers) × Store
check_rate_limit now q store =
    let kept = cleanup_expired_records now store in
    let r =
      counted (record_for now (get_endpoint_limit q.endpoint).window (lookup (key_of q) kept)) in
    if should_bypass q.endpoint then ((true, none), store) else (
      (leb r.count (actual_limit q), some (headers_for now (actual_limit q) r)),
      insert (key_of q) r kept,
    )

abbrev pub reset_rate_limit : List ℕ → Store → Store
reset_rate_limit key store = erase key store

abbrev pub active_records : ℕ → Store → ℕ
active_records now [] = 0
active_records now ((_, r) ∷ rs) =
    let rest = active_records now rs in if ltb now r.reset_time then rest + 1 else rest

abbrev pub get_stats : ℕ → Store → ℕ × ℕ
get_stats now store = (length store, active_records now store)
