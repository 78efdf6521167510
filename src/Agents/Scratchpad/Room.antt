-- ===== src/Agents/Scratchpad/Room.antt =====
-- harness/agents/scratchpad_store.py: the loop that makes room in L0.
use harness_solomon.Base.{
  ℕ, zero, suc, ◌+◌, ◌≤◌, ◌<◌, false, Option, none, some, [], ◌∷◌, ◌++◌, ltb, ◌==◌, nat_eq,
  string_eq, if◌then◌else◌, if-ind, length, ◌≡◌, refl, arith,
}
use harness_solomon.Base.Dict.{Dict, put, pop}
use harness_solomon.Agents.Scratchpad.{
  Note, ScratchpadStore, is_hot, hot_bytes, l0_size_bytes, is_before, older, oldest_l0,
  delete_found, prune_oldest_l0, prune_until,
}

pub size-pop :
    (v : ScratchpadStore) (i : ℕ) (rows : Dict ℕ Note)
    → l0_size_bytes v (pop i rows) ≤ l0_size_bytes v rows
unfolding pop
size-pop v i [] = omega arith
size-pop v i ((j, n) ∷ rows) =
    if-ind (λ (r : Dict ℕ Note). l0_size_bytes v r ≤ hot_bytes v n + l0_size_bytes v rows) (j == i)
      (λ _. omega (arith, size-pop v i rows)) (λ _. omega (arith, size-pop v i rows))

length-pop : (i : ℕ) (rows : Dict ℕ Note) → length (pop i rows) ≤ length rows
unfolding pop
length-pop i [] = omega arith
length-pop i ((j, n) ∷ rows) = ground (arith, length-pop i rows)

pub size-append :
    (v : ScratchpadStore) (rows : Dict ℕ Note) (i : ℕ) (n : Note)
    → l0_size_bytes v (rows ++ (i, n) ∷ []) ≡ l0_size_bytes v rows + hot_bytes v n
size-append v [] i n = omega arith
size-append v ((j, m) ∷ rows) i n = omega (arith, size-append v rows i n)

pub size-put :
    (v : ScratchpadStore) (rows : Dict ℕ Note) (i : ℕ) (n : Note)
    → l0_size_bytes v (put i n rows) ≤ l0_size_bytes v rows + hot_bytes v n
unfolding put
size-put v [] i n = omega arith
size-put v ((j, m) ∷ rows) i n =
    if-ind
      (λ (r : Dict ℕ Note).
        l0_size_bytes v r ≤ hot_bytes v m + l0_size_bytes v rows + hot_bytes v n)
      (j == i) (λ _. omega arith) (λ _. omega (arith, size-put v rows i n))

-- What a step of the loop deletes; without a note to delete there is nothing in L0.
abbrev Deletes : ScratchpadStore → Dict ℕ Note → Option (Dict ℕ Note) → Type 0
Deletes s rows none = l0_size_bytes s rows ≡ 0
Deletes s rows (some fewer) =
    (length fewer < length rows)
    × ((v : ScratchpadStore) → l0_size_bytes v fewer ≤ l0_size_bytes v rows)

abbrev IsRow : ScratchpadStore → Dict ℕ Note → Option (ℕ × Note) → Type 0
IsRow s rows none = l0_size_bytes s rows ≡ 0
IsRow s rows (some (i, n)) = length (pop i rows) < length rows

IsRow-later :
    (s : ScratchpadStore) (i : ℕ) (n : Note) (rows : Dict ℕ Note) (o : Option (ℕ × Note))
    → IsRow s rows o
    → is_hot s n ≡ false
    → IsRow s ((i, n) ∷ rows) o
unfolding pop
IsRow-later s i n rows none h cold = ground arith
IsRow-later s i n rows (some (j, m)) h cold = ground (arith, length-pop j rows)

IsRow-older :
    (s : ScratchpadStore) (i : ℕ) (n : Note) (rows : Dict ℕ Note) (o : Option (ℕ × Note))
    → IsRow s rows o
    → IsRow s ((i, n) ∷ rows) (older (i, n) o)
unfolding pop
IsRow-older s i n rows none h = ground (arith, length-pop i rows)
IsRow-older s i n rows (some (j, m)) h =
    if-ind (λ (o : Option (ℕ × Note)). IsRow s ((i, n) ∷ rows) o) (is_before n m)
      (λ _. ground (arith, length-pop i rows)) (λ _. ground (arith, length-pop j rows))

oldest-IsRow : (s : ScratchpadStore) (rows : Dict ℕ Note) → IsRow s rows (oldest_l0 s rows)
unfolding oldest_l0
oldest-IsRow s [] = refl
oldest-IsRow s ((i, n) ∷ rows) =
    if-ind (λ (o : Option (ℕ × Note)). IsRow s ((i, n) ∷ rows) o) (is_hot s n)
      (λ _. IsRow-older s i n rows (oldest_l0 s rows) (oldest-IsRow s rows))
      (λ cold. IsRow-later s i n rows (oldest_l0 s rows) (oldest-IsRow s rows) cold)

prune-Deletes : (s : ScratchpadStore) (rows : Dict ℕ Note) → Deletes s rows (prune_oldest_l0 s rows)
unfolding prune_oldest_l0
prune-Deletes s rows = found (oldest_l0 s rows) (oldest-IsRow s rows)
  where
    found : (o : Option (ℕ × Note)) → IsRow s rows o → Deletes s rows (delete_found rows o)
    found none h = h
    found (some (i, n)) h = (h, λ v. size-pop v i rows)

-- With as much fuel as there are rows the note fits in the end.
pub prune-fits :
    (fuel : ℕ) (s : ScratchpadStore) (incoming : ℕ) (rows : Dict ℕ Note)
    → length rows ≤ fuel
    → incoming ≤ s.l0_max_bytes
    → l0_size_bytes s (prune_until fuel s incoming rows) + incoming ≤ s.l0_max_bytes
unfolding prune_until
prune-fits zero s incoming [] h fits = omega (arith, fits)
prune-fits zero s incoming (r ∷ rows) h fits = absurd (omega (arith, h))
prune-fits (suc fuel) s incoming rows h fits =
    step (prune_oldest_l0 s rows) (prune-Deletes s rows)
      (λ fewer le. prune-fits fuel s incoming fewer le fits)
  where
    step :
        (o : Option (Dict ℕ Note))
        → Deletes s rows o
        → ((fewer : Dict ℕ Note)
            → length fewer ≤ fuel
            → l0_size_bytes s (prune_until fuel s incoming fewer) + incoming ≤ s.l0_max_bytes)
        → l0_size_bytes s (elim o [
          | none ↦ rows
          | some fewer ↦
              if ltb s.l0_max_bytes (l0_size_bytes s rows + incoming)
              then prune_until fuel s incoming fewer
              else rows
        ])
            + incoming
          ≤ s.l0_max_bytes
    step none empty next = omega (arith, empty, fits)
    step (some fewer) (less, smaller) next =
        if-ind (λ (r : Dict ℕ Note). l0_size_bytes s r + incoming ≤ s.l0_max_bytes)
          (ltb s.l0_max_bytes (l0_size_bytes s rows + incoming))
          (λ _. next fewer (omega (arith, less, h))) (λ under. ground (arith, under))

pub prune-le :
    (fuel : ℕ) (s v : ScratchpadStore) (incoming : ℕ) (rows : Dict ℕ Note)
    → l0_size_bytes v (prune_until fuel s incoming rows) ≤ l0_size_bytes v rows
unfolding prune_until
prune-le zero s v incoming rows = omega arith
prune-le (suc fuel) s v incoming rows =
    step (prune_oldest_l0 s rows) (prune-Deletes s rows) (λ fewer. prune-le fuel s v incoming fewer)
  where
    step :
        (o : Option (Dict ℕ Note))
        → Deletes s rows o
        → ((fewer : Dict ℕ Note)
            → l0_size_bytes v (prune_until fuel s incoming fewer) ≤ l0_size_bytes v fewer)
        → l0_size_bytes v (elim o [
          | none ↦ rows
          | some fewer ↦
              if ltb s.l0_max_bytes (l0_size_bytes s rows + incoming)
              then prune_until fuel s incoming fewer
              else rows
        ])
          ≤ l0_size_bytes v rows
    step none empty next = omega arith
    step (some fewer) (less, smaller) next =
        if-ind (λ (r : Dict ℕ Note). l0_size_bytes v r ≤ l0_size_bytes v rows)
          (ltb s.l0_max_bytes (l0_size_bytes s rows + incoming))
          (λ _. omega (arith, next fewer, smaller v)) (λ _. omega arith)
