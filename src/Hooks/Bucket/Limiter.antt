-- ===== src/Hooks/Bucket/Limiter.antt =====
-- HookRateLimiter: each hook's calls are limited by a bucket of its own.
use harness_solomon.Base.{
  ℕ, ◌+◌, ◌-◌, ◌*◌, ◌≤◌, ◌≡◌, refl, sym, ap, ◌∙◌, String, true, false, Option, some, List, [], ◌∷◌,
  All, arith, if◌then◌else◌, string_eq, ◌==◌, Bool-cases, Option-cases, inl, inr, ==_refl,
}
use harness_solomon.Base.Dict.{get, get-put}
use harness_solomon.Hooks.Bucket.{
  TokenBucket, HookRateLimiter, current_time, consume, grants, check, bucket_of, new_bucket,
}
use harness_solomon.Hooks.Bucket.Rate.{Within, grants-le-burst}

-- One call of `check`, with what the clock reads during it.
pub record Call : Type 0 where
  pub hook_id : String
  pub now : Option ℕ
  pub made : ℕ
  pub read : ℕ

abbrev pub time : Call → ℕ
time c = current_time c.now c.read

-- What `hook_id` is granted by a sequence of calls, for any hooks: `one` for each call allowed.
pub allowed : ℕ → String → HookRateLimiter → List Call → ℕ
allowed one hook_id l [] = 0
allowed one hook_id l (c ∷ calls) =
    let (l', ok) = check one l c.hook_id c.now c.made c.read in
    (if c.hook_id == hook_id then (if ok then one else 0) else 0) + allowed one hook_id l' calls

-- The calls for one hook, as its bucket sees them.
abbrev calls_of : ℕ → String → List Call → List (ℕ × ℕ)
calls_of one hook_id [] = []
calls_of one hook_id (c ∷ calls) =
    if c.hook_id == hook_id
    then (one, time c) ∷ calls_of one hook_id calls
    else calls_of one hook_id calls

check-get_other :
    (one : ℕ) (l : HookRateLimiter) (c : Call) (h : String)
    → (c.hook_id == h) ≡ false
    → get h (check one l c.hook_id c.now c.made c.read).0.buckets ≡ get h l.buckets
unfolding check
check-get_other one l c h ne =
    rw (get-put c.hook_id h (consume (bucket_of l c.hook_id c.made) one (time c)).0 l.buckets, ne)

-- A call consumes from the hook's bucket, and stores the bucket that is left.
check-bucket :
    (one : ℕ) (l : HookRateLimiter) (c : Call) (h : String)
    → c.hook_id ≡ h
    → let (l', ok) = check one l c.hook_id c.now c.made c.read in
      (get h l'.buckets ≡ some (consume (bucket_of l h c.made) one (time c)).0)
      × (ok ≡ (consume (bucket_of l h c.made) one (time c)).1)
unfolding check
check-bucket one l c h same =
    let b = consume (bucket_of l c.hook_id c.made) one (time c) in
    rw (← same) (
      get-put c.hook_id c.hook_id b.0 l.buckets
          ∙ ap (λ x. if x then some b.0 else get c.hook_id l.buckets) (==_refl c.hook_id),
      refl,
    )

bucket_of-some :
    (l : HookRateLimiter) (h : String) (made : ℕ) {b : TokenBucket}
    → get h l.buckets ≡ some b
    → bucket_of l h made ≡ b
unfolding bucket_of
bucket_of-some l h made e = rw (e, bucket_of)

allowed-other :
    (one : ℕ) (h : String) (l : HookRateLimiter) (c : Call) (calls : List Call)
    → (c.hook_id == h) ≡ false
    → let l' = (check one l c.hook_id c.now c.made c.read).0 in
      allowed one h l (c ∷ calls) ≡ allowed one h l' calls
unfolding allowed
allowed-other one h l c calls other = rw other (omega arith)

allowed-same :
    (one : ℕ) (h : String) (l : HookRateLimiter) (c : Call) (calls : List Call)
    → (c.hook_id == h) ≡ true
    → let l' = (check one l c.hook_id c.now c.made c.read).0 in
      let b = bucket_of l h c.made in
      allowed one h l' calls ≡ (grants (consume b one (time c)).0 (calls_of one h calls)).0
      → allowed one h l (c ∷ calls) ≡ (grants b (calls_of one h (c ∷ calls))).0
unfolding allowed grants
allowed-same one h l c calls same rest =
    rw (same, (check-bucket one l c h ((string_eq.same_iff c.hook_id h).0 same)).1, rest)

-- Once a hook has a bucket, the limiter grants what that bucket grants.
allowed-grants :
    (one : ℕ) (h : String) (l : HookRateLimiter) (calls : List Call) {b : TokenBucket}
    → get h l.buckets ≡ some b
    → allowed one h l calls ≡ (grants b (calls_of one h calls)).0
unfolding allowed grants
allowed-grants one h l [] e = refl
allowed-grants one h l (c ∷ calls) {b} e = elim (Bool-cases (c.hook_id == h)) [
  | inl same ↦
      let l' = (check one l c.hook_id c.now c.made c.read).0 in
      let stored = (check-bucket one l c h ((string_eq.same_iff c.hook_id h).0 same)).0 in
      let first = allowed-same one h l c calls same (allowed-grants one h l' calls stored) in
      rw (bucket_of-some l h c.made e) at first
  | inr other ↦
      let l' = (check one l c.hook_id c.now c.made c.read).0 in
      rw other (omega (arith, allowed-grants one h l' calls (check-get_other one l c h other ∙ e)))
]

-- The bucket of one hook is as the limiter makes it, at times up to `until`.
abbrev pub IsMade : HookRateLimiter → ℕ → TokenBucket → Type 0
IsMade l until b =
    (b.tokens ≤ b.capacity)
    × (b.last_refill ≤ until)
    × (b.capacity ≡ l.capacity)
    × (b.refill_per_sec ≡ l.refill_per_sec)

abbrev pub Timed : ℕ → ℕ → Call → Type 0
Timed since until c = (since ≤ time c) × (time c ≤ until) × (c.made ≤ until)

calls_of-Within :
    (one : ℕ) (h : String) (since until : ℕ) (calls : List Call)
    → All (Timed since until) calls
    → All (Within since until) (calls_of one h calls)
calls_of-Within one h since until [] w = tt
calls_of-Within one h since until (c ∷ calls) (w, rest) = elim (Bool-cases (c.hook_id == h)) [
  | inl same ↦ rw same ((w.0, w.1), calls_of-Within one h since until calls rest)
  | inr other ↦ rw other (calls_of-Within one h since until calls rest)
]

bucket_of-IsMade :
    (l : HookRateLimiter) (h : String) (made until : ℕ)
    → ((b : TokenBucket) → get h l.buckets ≡ some b → IsMade l until b)
    → made ≤ until
    → IsMade l until (bucket_of l h made)
unfolding bucket_of
bucket_of-IsMade l h made until sound early = elim (Option-cases (get h l.buckets)) [
  | inl e ↦ rw (e, bucket_of) (unfold new_bucket in ground arith)
  | inr (b, e) ↦ rw (e, bucket_of) (sound b e)
]

IsMade-grants :
    (l : HookRateLimiter) (b : TokenBucket) (since until : ℕ) (calls : List (ℕ × ℕ))
    → IsMade l until b
    → All (Within since until) calls
    → (grants b calls).0 ≤ l.capacity + (until - since) * l.refill_per_sec
IsMade-grants l b since until calls m w =
    rw (← m.2, ← m.3) (grants-le-burst b calls since until m.0 m.1 w)

-- Whatever calls the limiter gets between `since` and `until`, for any hooks and in any order, the
-- calls of one hook that it allows take at most the capacity and what is refilled in that time.
pub allowed-le-burst :
    (one : ℕ) (h : String) (l : HookRateLimiter) (calls : List Call) (since until : ℕ)
    → ((b : TokenBucket) → get h l.buckets ≡ some b → IsMade l until b)
    → All (Timed since until) calls
    → allowed one h l calls ≤ l.capacity + (until - since) * l.refill_per_sec
unfolding allowed check
allowed-le-burst one h l [] since until sound w = omega arith
allowed-le-burst one h l (c ∷ calls) since until sound w = elim (Bool-cases (c.hook_id == h)) [
  | inl same ↦
      let l' = (check one l c.hook_id c.now c.made c.read).0 in
      let stored = (check-bucket one l c h ((string_eq.same_iff c.hook_id h).0 same)).0 in
      let first = allowed-same one h l c calls same (allowed-grants one h l' calls stored) in
      rw first (
        IsMade-grants l (bucket_of l h c.made) since until (calls_of one h (c ∷ calls))
          (bucket_of-IsMade l h c.made until sound w.0.2)
          (calls_of-Within one h since until (c ∷ calls) w))
  | inr other ↦
      let l' = (check one l c.hook_id c.now c.made c.read).0 in
      let same_bucket = check-get_other one l c h other in
      let ih =
        allowed-le-burst one h l' calls since until (λ b e. sound b (sym same_bucket ∙ e)) w.1 in
      omega (arith, allowed-other one h l c calls other, ih)
]
