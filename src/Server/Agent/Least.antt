-- ===== src/Server/Agent/Least.antt =====
-- harness/server/llm/router.py: the tool call that comes first, of those that the pieces come to.
use harness_solomon.Base.{
  ℕ, min, Bool, true, false, Option, none, some, List, [], ◌∷◌, ◌==◌, nat_eq, nat_beq_iff,
  if◌then◌else◌, if-ind, map, leb, ◌≡◌, refl, sym, ap, ◌∙◌, inl, inr, Bool-cases, arith,
}
use harness_solomon.Base.Dict.{Dict, get, put}
use harness_solomon.Base.Sort.{insert_by, sort_by}
use harness_solomon.Server.Agent.Loop.{one_call}
use harness_solomon.Server.Agent.Stream.{
  ToolCall, Slot, CallDelta, new_slot, slot_or_new, stitched, stitch, stitch_all, call_of,
  tool_calls_final, first,
}
use harness_solomon.Server.Agent.Whole.{
  whole_call, of_index, least, first_call, slot_after, get-stitch_all, extended,
  slot_after-extended, call_of-extended,
}

-- The first entry of a least key.
better : ℕ × Slot → Option (ℕ × Slot) → ℕ × Slot
better e none = e
better e (some f) = if leb e.0 f.0 then e else f

min_entry : Dict ℕ Slot → Option (ℕ × Slot)
min_entry [] = none
min_entry (e ∷ m) = some (better e (min_entry m))

first-insert_by :
    (e : ℕ × Slot) (m : Dict ℕ Slot)
    → first (insert_by (λ (d f : ℕ × Slot). leb d.0 f.0) e m) ≡ some (better e (first m))
unfolding insert_by better
first-insert_by e [] = refl
first-insert_by e (f ∷ m) = split (leb e.0 f.0)
  where
    split :
        (b : Bool)
        → first (if b then e ∷ f ∷ m else f ∷ insert_by (λ (d g : ℕ × Slot). leb d.0 g.0) e m)
          ≡ some (if b then e else f)
    split true = refl
    split false = refl

first-sort_by :
    (m : Dict ℕ Slot) → first (sort_by (λ (d f : ℕ × Slot). leb d.0 f.0) m) ≡ min_entry m
unfolding sort_by min_entry
first-sort_by [] = refl
first-sort_by (e ∷ m) =
    first-insert_by e (sort_by (λ (d f : ℕ × Slot). leb d.0 f.0) m)
    ∙ ap (λ (o : Option (ℕ × Slot)). some (better e o)) (first-sort_by m)

-- Its key finds it.
IsFirst : Dict ℕ Slot → Option (ℕ × Slot) → Type 0
IsFirst m none = Unit
IsFirst m (some (k, c)) = get k m ≡ some c

better-IsFirst :
    (j : ℕ) (d : Slot) (m : Dict ℕ Slot) (o : Option (ℕ × Slot))
    → IsFirst m o
    → IsFirst ((j, d) ∷ m) (some (better (j, d) o))
unfolding get better IsFirst
better-IsFirst j d m none h = ground (arith, nat_beq_iff j j)
better-IsFirst j d m (some (k, c)) h =
    if-ind (λ (e : ℕ × Slot). (if j == e.0 then some d else get e.0 m) ≡ some e.1) (leb j k)
      (λ _. ground (arith, nat_beq_iff j j)) (λ after. ground (arith, h, nat_beq_iff j k, after))

min_entry-IsFirst : (m : Dict ℕ Slot) → IsFirst m (min_entry m)
unfolding min_entry IsFirst
min_entry-IsFirst [] = tt
min_entry-IsFirst ((j, d) ∷ m) = better-IsFirst j d m (min_entry m) (min_entry-IsFirst m)

-- The least key.
abbrev joined : Option ℕ → Option ℕ → Option ℕ
joined none o = o
joined (some i) none = some i
joined (some i) (some j) = some (min i j)

least_key : Dict ℕ Slot → Option ℕ
least_key [] = none
least_key ((k, c) ∷ m) = joined (some k) (least_key m)

joined_assoc : (o p q : Option ℕ) → joined (joined o p) q ≡ joined o (joined p q)
joined_assoc none p q = refl
joined_assoc (some i) none q = refl
joined_assoc (some i) (some j) none = refl
joined_assoc (some i) (some j) (some k) = ap (λ (n : ℕ). some n) (omega arith)

joined_swap : (o p q : Option ℕ) → joined o (joined p q) ≡ joined p (joined o q)
joined_swap none p q = refl
joined_swap (some i) none q = refl
joined_swap (some i) (some j) none = ap (λ (n : ℕ). some n) (omega arith)
joined_swap (some i) (some j) (some k) = ap (λ (n : ℕ). some n) (omega arith)

joined_twice : (i : ℕ) (o : Option ℕ) → joined (some i) (joined (some i) o) ≡ joined (some i) o
joined_twice i none = ap (λ (n : ℕ). some n) (omega arith)
joined_twice i (some j) = ap (λ (n : ℕ). some n) (omega arith)

least_key-put :
    (k : ℕ) (c : Slot) (m : Dict ℕ Slot) → least_key (put k c m) ≡ joined (some k) (least_key m)
unfolding put least_key
least_key-put k c [] = refl
least_key-put k c ((j, d) ∷ m) = elim (Bool-cases (j == k)) [
  | inl e ↦ rw e (
      sym (joined_twice j (least_key m))
      ∙ ap (λ (i : ℕ). joined (some i) (joined (some j) (least_key m))) ((nat_beq_iff j k).0 e))
  | inr e ↦
      rw e
        (ap (joined (some j)) (least_key-put k c m) ∙ joined_swap (some j) (some k) (least_key m))
]

least-joined :
    (d : CallDelta) (ds : List CallDelta) → least (d ∷ ds) ≡ joined (some d.index) (least ds)
least-joined d ds = by_rest (least ds)
  where
    by_rest :
        (o : Option ℕ)
        → Path
            (Option ℕ)
            (some (elim o [ none ↦ d.index | some i ↦ min d.index i ]))
            (joined (some d.index) o)
    by_rest none = refl
    by_rest (some i) = refl

least_key-stitch_all :
    (buf : Dict ℕ Slot) (ds : List CallDelta)
    → least_key (stitch_all buf ds) ≡ joined (least_key buf) (least ds)
unfolding stitch_all
least_key-stitch_all buf [] = unit (least_key buf)
  where
    unit : (o : Option ℕ) → o ≡ joined o none
    unit none = refl
    unit (some i) = refl
least_key-stitch_all buf (d ∷ ds) =
    least_key-stitch_all (stitch buf d) ds
    ∙ ap (λ (o : Option ℕ). joined o (least ds))
        (least_key-put d.index (stitched d (slot_or_new (get d.index buf))) buf)
    ∙ joined_assoc (some d.index) (least_key buf) (least ds)
    ∙ joined_swap (some d.index) (least_key buf) (least ds)
    ∙ ap (joined (least_key buf)) (sym (least-joined d ds))

abbrev key_of : Option (ℕ × Slot) → Option ℕ
key_of none = none
key_of (some e) = some e.0

min_entry-key : (m : Dict ℕ Slot) → key_of (min_entry m) ≡ least_key m
unfolding min_entry least_key
min_entry-key [] = refl
min_entry-key (e ∷ m) = of_better (min_entry m) ∙ ap (joined (some e.0)) (min_entry-key m)
  where
    of_better : (o : Option (ℕ × Slot)) → key_of (some (better e o)) ≡ joined (some e.0) (key_of o)
    of_better none = unfold better in refl
    of_better (some f) =
        unfold better in
        if-ind (λ (g : ℕ × Slot). Path (Option ℕ) (some g.0) (some (min e.0 f.0))) (leb e.0 f.0)
          (λ b. ap (λ (n : ℕ). some n) (ground (arith, b)))
          (λ b. ap (λ (n : ℕ). some n) (ground (arith, b)))

calls_of : Option (ℕ × Slot) → List ToolCall
calls_of none = []
calls_of (some e) = call_of e.1 ∷ []

one_call-map :
    (m : Dict ℕ Slot)
    → one_call (first (map (λ (e : ℕ × Slot). call_of e.1) m)) ≡ calls_of (first m)
unfolding calls_of
one_call-map [] = refl
one_call-map (e ∷ m) = refl

-- A slot that some pieces have made.
slot_after-whole :
    (ds : List CallDelta) (c : Slot) → slot_after none ds ≡ some c → call_of c ≡ whole_call ds
unfolding slot_after
slot_after-whole [] c h = absurd cc
slot_after-whole (d ∷ ds) c h =
    let q : some (extended new_slot (d ∷ ds)) ≡ some c =
      sym (slot_after-extended new_slot (d ∷ ds)) ∙ h in
    let same : extended new_slot (d ∷ ds) ≡ c = cc in
    ap call_of (sym same) ∙ call_of-extended (d ∷ ds)

calls_of-first_call :
    (ds : List CallDelta) (o : Option (ℕ × Slot))
    → IsFirst (stitch_all [] ds) o
    → key_of o ≡ least ds
    → calls_of o ≡ first_call ds
unfolding calls_of IsFirst get
calls_of-first_call ds none h k =
    ap
      (λ (o : Option ℕ). elim o as (λ _. List ToolCall) [
        | none ↦ []
        | some i ↦ whole_call (of_index i ds) ∷ []
      ])
      k
calls_of-first_call ds (some (i, c)) h k =
    ap (λ (t : ToolCall). t ∷ [])
      (slot_after-whole (of_index i ds) c (sym (get-stitch_all i [] ds) ∙ h))
    ∙ ap
        (λ (o : Option ℕ). elim o as (λ _. List ToolCall) [
          | none ↦ []
          | some j ↦ whole_call (of_index j ds) ∷ []
        ])
        k

-- Of the calls that the pieces come to, the one that the loop gets.
pub one_call-first_call :
    (ds : List CallDelta) → one_call (first (tool_calls_final (stitch_all [] ds))) ≡ first_call ds
unfolding tool_calls_final least_key
one_call-first_call ds =
    let buf = stitch_all [] ds in
    one_call-map (sort_by (λ (d e : ℕ × Slot). leb d.0 e.0) buf)
    ∙ ap calls_of (first-sort_by buf)
    ∙ calls_of-first_call ds (min_entry buf) (min_entry-IsFirst buf)
        (min_entry-key buf ∙ least_key-stitch_all [] ds)
