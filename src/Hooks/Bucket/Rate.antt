-- ===== src/Hooks/Bucket/Rate.antt =====
-- The token bucket never exceeds its burst and its sustained rate.
use native.Mathlib.Nat.{add-mul, mul-le-mul_right, le_trans}
use harness_solomon.Base.{
  ℕ, ◌+◌, ◌-◌, ◌*◌, ◌≤◌, ◌≡◌, sym, ap, ◌∙◌, List, [], ◌∷◌, All, arith, ◌⊎◌, if◌then◌else◌,
}
use harness_solomon.Hooks.Bucket.{TokenBucket, refill, consume, grants}

-- What a bucket can hold.
abbrev pub IsBounded : TokenBucket → Type 0
IsBounded b = b.tokens ≤ b.capacity

record Refilled (b b' : TokenBucket) (t : ℕ) : Type 0 where
  bounded : b'.tokens ≤ b'.capacity
  reached : t ≤ b'.last_refill
  later : b.last_refill ≤ b'.last_refill
  not_past : (b'.last_refill ≡ t) ⊎ (b'.last_refill ≡ b.last_refill)
  same_capacity : b'.capacity ≡ b.capacity
  same_rate : b'.refill_per_sec ≡ b.refill_per_sec

refill-Refilled : (b : TokenBucket) (t : ℕ) → IsBounded b → Refilled b (refill b t) t
unfolding refill
refill-Refilled b t h = ground arith

consume-Refilled : (b : TokenBucket) (n t : ℕ) → IsBounded b → Refilled b (consume b n t).0 t
unfolding consume
consume-Refilled b n t h = ground (arith, refill-Refilled b t h)

span : (l t r : ℕ) → l ≤ t → (t - l) * r + l * r ≡ t * r
span l t r h = sym (add-mul (t - l) l r) ∙ ap (λ (k : ℕ). k * r) (omega arith)

refill_pays :
    (b : TokenBucket) (t : ℕ)
    → (refill b t).tokens + b.last_refill * b.refill_per_sec
      ≤ b.tokens + (refill b t).last_refill * b.refill_per_sec
unfolding refill
refill_pays b t = ground (arith, span b.last_refill t b.refill_per_sec)

consume_pays :
    (b : TokenBucket) (n t : ℕ)
    → let (b', granted) = consume b n t in
      (if granted then n else 0) + b'.tokens + b.last_refill * b.refill_per_sec
      ≤ b.tokens + b'.last_refill * b.refill_per_sec
unfolding consume
consume_pays b n t = ground (arith, refill_pays b t)

-- The total that a sequence of calls was granted is paid from the tokens that the bucket held and
-- from the time that has passed.
grants_pay :
    (b : TokenBucket) (calls : List (ℕ × ℕ))
    → IsBounded b
    → let (total, last) = grants b calls in
      total + last.tokens + b.last_refill * b.refill_per_sec
      ≤ b.tokens + last.last_refill * b.refill_per_sec
unfolding grants
grants_pay b [] h = omega arith
grants_pay b ((n, t) ∷ calls) h =
    let f = consume-Refilled b n t h in
    let ih = grants_pay (consume b n t).0 calls f.bounded in
    let paid = rw f.same_rate at ih in omega (arith, paid, consume_pays b n t)

last_refill-le :
    (b : TokenBucket) (calls : List (ℕ × ℕ)) (until : ℕ)
    → IsBounded b
    → b.last_refill ≤ until
    → All (λ c. c.1 ≤ until) calls
    → (grants b calls).1.last_refill ≤ until
unfolding grants
last_refill-le b [] until h early calls_early = early
last_refill-le b ((n, t) ∷ calls) until h early (t_early, rest) =
    let f = consume-Refilled b n t h in
    last_refill-le (consume b n t).0 calls until f.bounded (ground (arith, f.not_past)) rest

abbrev pub Within : ℕ → ℕ → ℕ × ℕ → Type 0
Within since until c = (since ≤ c.1) × (c.1 ≤ until)

Within-until :
    (since until : ℕ) (calls : List (ℕ × ℕ))
    → All (Within since until) calls
    → All (λ c. c.1 ≤ until) calls
Within-until since until [] h = tt
Within-until since until (c ∷ calls) (w, rest) = (w.1, Within-until since until calls rest)

consume_first :
    (b : TokenBucket) (n t : ℕ)
    → IsBounded b
    → (if (consume b n t).1 then n else 0) + (consume b n t).0.tokens ≤ b.capacity
unfolding consume
consume_first b n t h = ground (arith, refill-Refilled b t h)

-- Whatever a bucket is asked for by calls made between `since` and `until`, in any order and of any
-- size, it grants at most its capacity and what is refilled in that time.
pub grants-le-burst :
    (b : TokenBucket) (calls : List (ℕ × ℕ)) (since until : ℕ)
    → IsBounded b
    → b.last_refill ≤ until
    → All (Within since until) calls
    → (grants b calls).0 ≤ b.capacity + (until - since) * b.refill_per_sec
unfolding grants
grants-le-burst b [] since until h early w = omega arith
grants-le-burst b ((n, t) ∷ calls) since until h early (w, rest) =
    let r = b.refill_per_sec in
    let b' = (consume b n t).0 in
    let f = consume-Refilled b n t h in
    let paid = rw f.same_rate at (grants_pay b' calls f.bounded) in
    let still_early =
      last_refill-le b' calls until f.bounded (ground (arith, f.not_past))
        (Within-until since until calls rest) in
    omega (
      arith,
      paid,
      consume_first b n t h,
      mul-le-mul_right r still_early,
      mul-le-mul_right r (le_trans w.0 f.reached),
      span since until r (le_trans w.0 w.1),
    )
