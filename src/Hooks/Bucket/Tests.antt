-- ===== src/Hooks/Bucket/Tests.antt =====
-- One bucket of ten tokens, and a limiter with two hooks.
use harness_solomon.Base.{◌+◌, ◌-◌, ◌*◌, ◌≤◌, ◌≡◌, refl, none, some, [], ◌∷◌, arith, string_eq}
use harness_solomon.Base.Dict.{get}
use harness_solomon.Hooks.Bucket.{TokenBucket, HookRateLimiter, refill, consume, grants}
use harness_solomon.Hooks.Bucket.Limiter.{Call, allowed, allowed-le-burst}

abbrev bucket : TokenBucket
bucket = record { capacity = 10; refill_per_sec = 2; tokens = 10; last_refill = 100 }

-- Twelve at once are too many; nine are granted, and three more after the refill of one tick.
three_calls : (grants bucket ((12, 100) ∷ (9, 100) ∷ (3, 101) ∷ [])).0 ≡ 12
unfolding grants consume refill
three_calls = refl

abbrev limiter : HookRateLimiter
limiter = record { capacity = 2; refill_per_sec = 1; buckets = [] }

abbrev call : Call
call = record { hook_id = "lint"; now = none; made = 5; read = 6 }

abbrev other_call : Call
other_call = record { hook_id = "audit"; now = some 6; made = 5; read = 6 }

timed : (5 ≤ 6) × (6 ≤ 6) × (5 ≤ 6)
timed = (omega arith, omega arith, omega arith)

allowed-le-burst_example :
    allowed 1 "lint" limiter (call ∷ other_call ∷ call ∷ call ∷ call ∷ []) ≤ 2 + (6 - 5) * 1
unfolding get
allowed-le-burst_example =
    allowed-le-burst 1 "lint" limiter (call ∷ other_call ∷ call ∷ call ∷ call ∷ []) 5 6
      (λ b e. absurd cc) (timed, (timed, (timed, (timed, (timed, tt)))))
