-- ===== src/Agents/PrSplit/Partition.antt =====
-- Each changed file is in one slice, once, and no other file is in any.
use native.Mathlib.Nat.{mod-lt, zero-lt-suc}
use harness_solomon.Base.{
  ℕ, zero, suc, ◌+◌, ◌%◌, ◌<◌, ◌≡◌, refl, ap, ◌∙◌, List, [], ◌∷◌, ◌++◌, ◌==◌, nat_eq, if◌then◌else◌,
  any, length, arith,
}
use harness_solomon.Base.Text.{Text, text_eq, text_beq_iff}
use harness_solomon.Base.Dict.{Dict}
use harness_solomon.Base.Sort.{sort_by, times, times-sort_by}
use harness_solomon.Agents.PrSplit.Group.{
  distinct, empty_buckets, append_at, deal, filled, split_by_count, heavier, balance, zeros,
  split_by_size, index, least, add_at, loc,
}

-- How often the file stands in the groups.
abbrev pub placed : Text → List (List Text) → ℕ
placed f [] = 0
placed f (g ∷ gs) = times f g + placed f gs

pub times-append : (f : Text) (gs hs : List Text) → times f (gs ++ hs) ≡ times f gs + times f hs
times-append f [] hs = omega arith
times-append f (g ∷ gs) hs = omega (arith, times-append f gs hs)

pub times-distinct :
    (f : Text) (fs : List Text) → times f (distinct fs) ≡ (if any (λ g. g == f) fs then 1 else 0)
unfolding distinct
times-distinct f [] = refl
times-distinct f (g ∷ gs) = ground (arith, times-distinct f gs, text_beq_iff g f)

placed-append_at :
    (f g : Text) (i : ℕ) (gs : List (List Text))
    → i < length gs
    → placed f (append_at i g gs) ≡ times f (g ∷ []) + placed f gs
unfolding append_at
placed-append_at f g i [] h = ground arith
placed-append_at f g zero (x ∷ gs) h = omega (arith, times-append f x (g ∷ []))
placed-append_at f g (suc i) (x ∷ gs) h = omega (arith, placed-append_at f g i gs)

pub length-append_at :
    (g : Text) (i : ℕ) (gs : List (List Text)) → length (append_at i g gs) ≡ length gs
unfolding append_at
length-append_at g i [] = refl
length-append_at g zero (x ∷ gs) = refl
length-append_at g (suc i) (x ∷ gs) = ap suc (length-append_at g i gs)

placed-filled : (f : Text) (gs : List (List Text)) → placed f (filled gs) ≡ placed f gs
placed-filled f [] = refl
placed-filled f ([] ∷ gs) = omega (arith, placed-filled f gs)
placed-filled f ((x ∷ xs) ∷ gs) = omega (arith, placed-filled f gs)

placed-empty_buckets : (f : Text) (n : ℕ) → placed f (empty_buckets n) ≡ 0
placed-empty_buckets f zero = refl
placed-empty_buckets f (suc n) = omega (arith, placed-empty_buckets f n)

pub length-empty_buckets : (n : ℕ) → length (empty_buckets n) ≡ n
length-empty_buckets zero = refl
length-empty_buckets (suc n) = ap suc (length-empty_buckets n)

remainder-lt : (i n : ℕ) → 0 < n → i % n < n
remainder-lt i zero h = omega arith
remainder-lt i (suc n) h = mod-lt i (zero-lt-suc n)

placed-deal :
    (f : Text) (n i : ℕ) (fs : List Text) (out : List (List Text))
    → 0 < n
    → length out ≡ n
    → placed f (deal n i fs out) ≡ times f fs + placed f out
unfolding deal
placed-deal f n i [] out pos e = omega arith
placed-deal f n i (g ∷ gs) out pos e =
    let smaller = remainder-lt i n pos in
    omega (
      arith,
      placed-deal f n (suc i) gs (append_at (i % n) g out) pos (length-append_at g (i % n) out ∙ e),
      placed-append_at f g (i % n) out,
    )

pub placed-split_by_count :
    (f : Text) (fs : List Text) (n : ℕ) → placed f (split_by_count fs n) ≡ times f fs
unfolding split_by_count
placed-split_by_count f fs n = ground (
  arith,
  placed-filled f (deal n 0 fs (empty_buckets n)),
  placed-deal f n 0 fs (empty_buckets n),
  placed-empty_buckets f n,
  length-empty_buckets n,
)

index-lt : (t : ℕ) (ts : List ℕ) → 0 < times t ts → index t ts < length ts
index-lt t [] h = ground arith
index-lt t (u ∷ ts) h = ground (arith, index-lt t ts)

times-least : (t : ℕ) (ts : List ℕ) → 0 < times (least (t ∷ ts)) (t ∷ ts)
times-least t [] = ground arith
times-least t (u ∷ ts) = ground (arith, times-least u ts)

index-least-lt : (ts : List ℕ) → 0 < length ts → index (least ts) ts < length ts
index-least-lt [] h = ground arith
index-least-lt (t ∷ ts) h = index-lt (least (t ∷ ts)) (t ∷ ts) (times-least t ts)

length-add_at : (i w : ℕ) (ts : List ℕ) → length (add_at i w ts) ≡ length ts
unfolding add_at
length-add_at i w [] = refl
length-add_at zero w (t ∷ ts) = refl
length-add_at (suc i) w (t ∷ ts) = ap suc (length-add_at i w ts)

length-zeros : (n : ℕ) → length (zeros n) ≡ n
length-zeros zero = refl
length-zeros (suc n) = ap suc (length-zeros n)

placed-balance :
    (f : Text) (locs : Dict Text ℕ) (fs : List Text) (gs : List (List Text)) (ts : List ℕ)
    → 0 < length ts
    → length gs ≡ length ts
    → placed f (balance locs fs gs ts).0 ≡ times f fs + placed f gs
unfolding balance
placed-balance f locs [] gs ts pos e = omega arith
placed-balance f locs (g ∷ fs) gs ts pos e =
    let i = index (least ts) ts in
    let longer = length-add_at i (loc locs g) ts in
    let same = length-append_at g i gs in
    omega (
      arith,
      placed-balance f locs fs (append_at i g gs) (add_at i (loc locs g) ts)
          (omega (arith, longer, pos)) (omega (arith, e, longer, same)),
      placed-append_at f g i gs (omega (arith, index-least-lt ts pos, e)),
    )

pub placed-split_by_size :
    (f : Text) (fs : List Text) (n : ℕ) (locs : Dict Text ℕ)
    → placed f (split_by_size fs n locs) ≡ times f fs
unfolding split_by_size
placed-split_by_size f fs n locs =
    let ordered = sort_by (heavier locs) fs in
    let loop = balance locs ordered (empty_buckets n) (zeros n) in
    ground (
      arith,
      placed-split_by_count f fs n,
      placed-filled f loop.0,
      placed-balance f locs ordered (empty_buckets n) (zeros n),
      length-zeros n,
      length-empty_buckets n,
      placed-empty_buckets f n,
      times-sort_by (heavier locs) f fs,
    )
