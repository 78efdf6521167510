-- ===== src/Hooks/Bucket.antt =====
-- harness/hooks/rate_limit.py: TokenBucket and HookRateLimiter.
-- Times are whole ticks of the monotonic clock, and amounts of tokens are whole units chosen so
-- that `refill_per_sec` is a whole number of units for each tick; the rounding of floats is left
-- out. `one` is the number of units in one token.
pub mod Rate
pub mod Limiter
mod Tests
use harness_solomon.Base.{
  ℕ, ◌+◌, ◌-◌, ◌*◌, min, String, Bool, true, false, Option, none, some, List, [], ◌∷◌, leb,
  if◌then◌else◌, string_eq,
}
use harness_solomon.Base.Dict.{Dict, get, put}

pub record TokenBucket : Type 0 where
  pub capacity : ℕ
  pub refill_per_sec : ℕ
  pub tokens : ℕ
  pub last_refill : ℕ

-- `__post_init__`.
post_init : TokenBucket → TokenBucket
post_init b = if leb b.tokens 0 then record b { tokens = b.capacity } else b

-- `now if now is not None else time.monotonic()`, for a clock that reads `clock`.
abbrev pub current_time : Option ℕ → ℕ → ℕ
current_time none clock = clock
current_time (some now) clock = now

unfoldable pub refill : TokenBucket → ℕ → TokenBucket
refill b current = if leb current b.last_refill then b else record b {
  tokens = min b.capacity (b.tokens + (current - b.last_refill) * b.refill_per_sec);
  last_refill = current;
}

unfoldable pub consume : TokenBucket → ℕ → ℕ → TokenBucket × Bool
consume b n current =
    let r = refill b current in
    if leb n r.tokens then (record r { tokens = r.tokens - n }, true) else (r, false)

-- A sequence of calls `consume(n, now=t)`, with the total that they were granted.
pub grants : TokenBucket → List (ℕ × ℕ) → ℕ × TokenBucket
grants b [] = (0, b)
grants b ((n, t) ∷ calls) =
    let (b', granted) = consume b n t in
    let (total, last) = grants b' calls in ((if granted then n else 0) + total, last)

pub record HookRateLimiter : Type 0 where
  pub capacity : ℕ
  pub refill_per_sec : ℕ
  pub buckets : Dict String TokenBucket

new_bucket : HookRateLimiter → ℕ → TokenBucket
unfolding post_init
new_bucket l clock = post_init (record {
  capacity = l.capacity;
  refill_per_sec = l.refill_per_sec;
  tokens = 0;
  last_refill = clock;
})

-- The bucket that a call for `hook_id` uses; `clock` is the time at which it would be made.
bucket_of : HookRateLimiter → String → ℕ → TokenBucket
unfolding new_bucket
bucket_of l hook_id clock = elim (get hook_id l.buckets) [ none ↦ new_bucket l clock | some b ↦ b ]

-- `check(hook_id, now=now)`: the clock reads `made` when a bucket is made, `read` when it is used.
unfoldable pub check : ℕ → HookRateLimiter → String → Option ℕ → ℕ → ℕ → HookRateLimiter × Bool
unfolding bucket_of
check one l hook_id now made read =
    let (b, allowed) = consume (bucket_of l hook_id made) one (current_time now read) in
    (record l { buckets = put hook_id b l.buckets }, allowed)

pub get_bucket : HookRateLimiter → String → Option TokenBucket
get_bucket l hook_id = get hook_id l.buckets
