-- ===== src/Agents/PrSplit/Balance.antt =====
-- How evenly the size strategy spreads the lines.
use harness_solomon.Base.{
  ℕ, zero, suc, ◌+◌, ◌≤◌, ◌≡◌, refl, sym, subst, ap, ◌∙◌, true, List, [], ◌∷◌, ◌++◌, map, inl, inr,
  leb, nat_eq, Bool-cases, All, arith,
}
use harness_solomon.Base.Text.{Text}
use harness_solomon.Base.Dict.{Dict, get}
use harness_solomon.Base.Sort.{sort_by, All-sort_by}
use harness_solomon.Agents.PrSplit.Group.{
  empty_buckets, append_at, deal, filled, loc, heavier, least, index, add_at, zeros, balance,
  is_empty, split_by_size,
}

-- The lines of a group.
abbrev pub weight : Dict Text ℕ → List Text → ℕ
weight locs [] = 0
weight locs (f ∷ fs) = loc locs f + weight locs fs

weight-append :
    (locs : Dict Text ℕ) (f : Text) (fs : List Text)
    → weight locs (fs ++ f ∷ []) ≡ weight locs fs + loc locs f
weight-append locs f [] = omega arith
weight-append locs f (g ∷ fs) = omega (arith, weight-append locs f fs)

weights-append_at :
    (locs : Dict Text ℕ) (i : ℕ) (f : Text) (gs : List (List Text))
    → map (weight locs) (append_at i f gs) ≡ add_at i (loc locs f) (map (weight locs) gs)
unfolding append_at add_at
weights-append_at locs i f [] = refl
weights-append_at locs zero f (g ∷ gs) = ap (λ w. w ∷ map (weight locs) gs) (weight-append locs f g)
weights-append_at locs (suc i) f (g ∷ gs) =
    ap (λ ws. weight locs g ∷ ws) (weights-append_at locs i f gs)

weights-empty_buckets : (locs : Dict Text ℕ) (n : ℕ) → map (weight locs) (empty_buckets n) ≡ zeros n
weights-empty_buckets locs zero = refl
weights-empty_buckets locs (suc n) = ap (λ ws. 0 ∷ ws) (weights-empty_buckets locs n)

-- The totals of the loop are the lines of the buckets.
balance-totals :
    (locs : Dict Text ℕ) (fs : List Text) (gs : List (List Text)) (ts : List ℕ)
    → map (weight locs) gs ≡ ts
    → map (weight locs) (balance locs fs gs ts).0 ≡ (balance locs fs gs ts).1
unfolding balance
balance-totals locs [] gs ts e = e
balance-totals locs (f ∷ fs) gs ts e =
    let i = index (least ts) ts in
    balance-totals locs fs (append_at i f gs) (add_at i (loc locs f) ts)
      (weights-append_at locs i f gs ∙ ap (add_at i (loc locs f)) e)

-- No total is more than `w` above the least.
abbrev Within : ℕ → ℕ → List ℕ → Type 0
Within w m ts = All (λ t. t ≤ m + w) ts

Within-mono : (w m n : ℕ) (ts : List ℕ) → m ≤ n → Within w m ts → Within w n ts
Within-mono w m n [] h ts = tt
Within-mono w m n (t ∷ ts) h (b, bs) = (omega arith, Within-mono w m n ts h bs)

least-add_at : (i w : ℕ) (ts : List ℕ) → least ts ≤ least (add_at i w ts)
unfolding add_at
least-add_at i w [] = omega arith
least-add_at zero w (t ∷ []) = omega arith
least-add_at (suc i) w (t ∷ []) = omega arith
least-add_at zero w (t ∷ u ∷ ts) = omega arith
least-add_at (suc zero) w (t ∷ u ∷ ts) = omega (arith, least-add_at zero w (u ∷ ts))
least-add_at (suc (suc i)) w (t ∷ u ∷ ts) = omega (arith, least-add_at (suc i) w (u ∷ ts))

-- Adding to the first total that is `m`.
Within-add_at :
    (w v m : ℕ) (ts : List ℕ) → v ≤ w → Within w m ts → Within w m (add_at (index m ts) v ts)
unfolding add_at
Within-add_at w v m [] h b = tt
Within-add_at w v m (t ∷ ts) h (b, bs) = ground (arith, Within-add_at w v m ts h bs)

balance-Within :
    (locs : Dict Text ℕ) (w : ℕ) (fs : List Text) (gs : List (List Text)) (ts : List ℕ)
    → All (λ f. loc locs f ≤ w) fs
    → Within w (least ts) ts
    → Within w (least (balance locs fs gs ts).1) (balance locs fs gs ts).1
unfolding balance
balance-Within locs w [] gs ts h b = b
balance-Within locs w (f ∷ fs) gs ts (h, hs) b =
    let m = least ts in
    let i = index m ts in
    let next = add_at i (loc locs f) ts in
    balance-Within locs w fs (append_at i f gs) next hs (
      Within-mono w m (least next) next (least-add_at i (loc locs f) ts)
        (Within-add_at w (loc locs f) m ts h b))

least-le : (m : ℕ) (ts : List ℕ) → m ≤ least ts → All (λ t. m ≤ t) ts
least-le m [] h = tt
least-le m (t ∷ []) h = (omega arith, tt)
least-le m (t ∷ u ∷ ts) h = (omega arith, least-le m (u ∷ ts) (omega arith))

All-filled :
    (locs : Dict Text ℕ) (P : ℕ → Type 0) (gs : List (List Text))
    → All P (map (weight locs) gs)
    → All (λ g. P (weight locs g)) (filled gs)
All-filled locs P [] h = tt
All-filled locs P ([] ∷ gs) (h, hs) = All-filled locs P gs hs
All-filled locs P ((f ∷ fs) ∷ gs) (h, hs) = (h, All-filled locs P gs hs)

-- No group of these has more than `w` lines more than any of those.
abbrev pub Spread : Dict Text ℕ → ℕ → List (List Text) → List (List Text) → Type 0
Spread locs w gs hs = All (λ g. All (λ h. weight locs g ≤ weight locs h + w) hs) gs

above :
    (locs : Dict Text ℕ) (w m v : ℕ) (hs : List (List Text))
    → v ≤ m + w
    → All (λ h. m ≤ weight locs h) hs
    → All (λ h. v ≤ weight locs h + w) hs
above locs w m v [] h b = tt
above locs w m v (k ∷ hs) h (b, bs) = (omega arith, above locs w m v hs h bs)

spread :
    (locs : Dict Text ℕ) (w m : ℕ) (gs hs : List (List Text))
    → All (λ g. weight locs g ≤ m + w) gs
    → All (λ h. m ≤ weight locs h) hs
    → Spread locs w gs hs
spread locs w m [] hs a b = tt
spread locs w m (g ∷ gs) hs (a, rest) b =
    (above locs w m (weight locs g) hs a b, spread locs w m gs hs rest b)

weight-none : (fs : List Text) → weight [] fs ≡ 0
unfolding loc get
weight-none [] = refl
weight-none (f ∷ fs) = omega (arith, weight-none fs)

All-any : (P : List Text → Type 0) (gs : List (List Text)) → ((g : List Text) → P g) → All P gs
All-any P [] h = tt
All-any P (g ∷ gs) h = (h g, All-any P gs h)

split_by_count-Spread :
    (w : ℕ) (locs : Dict Text ℕ) (gs : List (List Text))
    → is_empty locs ≡ true
    → Spread locs w gs gs
split_by_count-Spread w [] gs e =
    spread [] w 0 gs gs (All-any (λ g. weight [] g ≤ 0 + w) gs λ g. omega (arith, weight-none g))
      (All-any (λ g. 0 ≤ weight [] g) gs λ g. omega arith)
split_by_count-Spread w (l ∷ locs) gs e = ground arith

Within-zeros : (w m n : ℕ) → Within w m (zeros n)
Within-zeros w m zero = tt
Within-zeros w m (suc n) = (omega arith, Within-zeros w m n)

balance-Spread :
    (w : ℕ) (locs : Dict Text ℕ) (fs : List Text) (n : ℕ)
    → All (λ f. loc locs f ≤ w) fs
    → let gs = filled (balance locs fs (empty_buckets n) (zeros n)).0 in Spread locs w gs gs
balance-Spread w locs fs n h =
    let (gs, ts) = balance locs fs (empty_buckets n) (zeros n) in
    let m = least ts in
    let same = balance-totals locs fs (empty_buckets n) (zeros n) (weights-empty_buckets locs n) in
    let within =
      balance-Within locs w fs (empty_buckets n) (zeros n) h (Within-zeros w (least (zeros n)) n) in
    spread locs w m (filled gs) (filled gs)
      (All-filled locs (λ t. t ≤ m + w) gs (subst (Within w m) (sym same) within))
      (All-filled locs (λ t. m ≤ t) gs
        (subst (All λ t. m ≤ t) (sym same) (least-le m ts (omega arith))))

-- If no file has more than `w` lines, no slice of the size strategy has more than `w` lines more than
-- another of its slices.
pub split_by_size-Spread :
    (w : ℕ) (locs : Dict Text ℕ) (fs : List Text) (n : ℕ)
    → All (λ f. loc locs f ≤ w) fs
    → Spread locs w (split_by_size fs n locs) (split_by_size fs n locs)
unfolding split_by_size
split_by_size-Spread w locs fs n h = elim (Bool-cases (leb n 1)) [
  | inl e ↦ rw e ((omega arith, tt), tt)
  | inr e ↦ elim (Bool-cases (is_empty locs)) [
    | inl e0 ↦ rw (e, e0) (split_by_count-Spread w locs (filled (deal n 0 fs (empty_buckets n))) e0)
    | inr e0 ↦
        rw (e, e0)
          (balance-Spread w locs (sort_by (heavier locs) fs) n
            (All-sort_by (heavier locs) (λ f. loc locs f ≤ w) fs h))
  ]
]
