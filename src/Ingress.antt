-- ===== src/Ingress.antt =====
-- src/ingress/rateLimit.ts: the fixed-window limit on requests. The clock's reading is an argument.
pub mod Bound
pub mod Idempotency
mod Tests
use agentworth.Prelude.{
  ℕ, ◌+◌, ◌-◌, String, Bool, true, false, ◌&&◌, Option, none, some, List, [], ◌∷◌, leb, str_eq,
  if◌then◌else◌,
}
use agentworth.Prelude.Int.{ℤ, sub_ℕ}
use agentworth.Prelude.Map.{Map, get, set}

pub record Bucket : Type 0 where
  pub window_start : ℕ
  pub count : ℕ

-- `ok` with what remains, or what to wait for.
pub data RateLimitResult : Type 0 where
  admitted : ℤ → RateLimitResult
  limited : ℕ → RateLimitResult

abbrev pub is_admitted : RateLimitResult → Bool
is_admitted (admitted _) = true
is_admitted (limited _) = false

abbrev open_window : ℕ → ℕ → String → Map Bucket → Map Bucket × RateLimitResult
open_window max t key buckets =
    (set key (record { window_start = t; count = 1 }) buckets, admitted (sub_ℕ max 1))

unfoldable pub check_bucket :
    ℕ → ℕ → ℕ → String → Option Bucket → Map Bucket → Map Bucket × RateLimitResult
check_bucket window max t key none buckets = open_window max t key buckets
check_bucket window max t key (some b) buckets =
    if leb (b.window_start + window) t
    then open_window max t key buckets
    else if leb max b.count
    then (buckets, limited (b.window_start + window - t))
    else (set key (record b { count = b.count + 1 }) buckets, admitted (sub_ℕ max (b.count + 1)))

-- `check`
unfoldable pub check : ℕ → ℕ → ℕ → String → Map Bucket → Map Bucket × RateLimitResult
check window max t key buckets = check_bucket window max t key (get key buckets) buckets

-- How many of the requests, each with its time and key, are admitted for one key.
unfoldable pub admissions : ℕ → ℕ → String → Map Bucket → List (ℕ × String) → ℕ
admissions window max key buckets [] = 0
admissions window max key buckets ((t, k) ∷ rest) =
    let (after, r) = check window max t k buckets in
    (if str_eq k key && is_admitted r then 1 else 0) + admissions window max key after rest
