-- ===== src/Server/Agent/Whole.antt =====
-- harness/server/llm/router.py: the tool call that the pieces of an answer come to.
use harness_solomon.Base.{
  ℕ, min, Option, none, some, List, [], ◌∷◌, ◌++◌, ◌==◌, nat_eq, nat_beq_iff, keep, ◌≡◌, refl, sym,
  ap, ◌∙◌, inl, inr, Bool-cases,
}
use harness_solomon.Base.Text.{Text, codes}
use harness_solomon.Base.Dict.{Dict, get, get-put}
use mathlib.Core.List.{append_assoc, append-nil}
use harness_solomon.Server.Agent.Stream.{
  ToolCall, Slot, CallDelta, new_slot, slot_or_new, or_old, type_or_old, stitched, stitch,
  stitch_all, call_of,
}

-- The last text of a field that is not empty, or the empty text.
abbrev pub last_text : (CallDelta → Text) → List CallDelta → Text
last_text f [] = []
last_text f (d ∷ ds) = elim (last_text f ds) [ [] ↦ f d | c ∷ s ↦ c ∷ s ]

abbrev pub all_arguments : List CallDelta → Text
all_arguments [] = []
all_arguments (d ∷ ds) = d.arguments ++ all_arguments ds

abbrev pub filled : Text → Option Text
filled [] = none
filled (c ∷ s) = some (c ∷ s)

-- The call of some pieces: the last id, type and name that is given, the type being "function" if none is,
-- and the arguments one behind the other.
abbrev pub whole_call : List CallDelta → ToolCall
whole_call ds = record {
  id = filled (last_text (λ d. d.id) ds);
  type = elim (last_text (λ d. d.type) ds) [ [] ↦ codes "function" | c ∷ s ↦ c ∷ s ];
  function =
      some (record { name = filled (last_text (λ d. d.name) ds); arguments = all_arguments ds });
}

abbrev pub of_index : ℕ → List CallDelta → List CallDelta
of_index i = keep (λ d. d.index == i)

abbrev pub least : List CallDelta → Option ℕ
least [] = none
least (d ∷ ds) = some (elim (least ds) [ none ↦ d.index | some i ↦ min d.index i ])

-- Of the calls the one of the least index.
abbrev pub first_call : List CallDelta → List ToolCall
first_call ds = elim (least ds) [ none ↦ [] | some i ↦ whole_call (of_index i ds) ∷ [] ]

-- The pieces of one index, one after another.
unfoldable pub slot_after : Option Slot → List CallDelta → Option Slot
slot_after o [] = o
slot_after o (d ∷ ds) = slot_after (some (stitched d (slot_or_new o))) ds

pub get-stitch_all :
    (i : ℕ) (buf : Dict ℕ Slot) (ds : List CallDelta)
    → get i (stitch_all buf ds) ≡ slot_after (get i buf) (of_index i ds)
unfolding stitch_all slot_after
get-stitch_all i buf [] = refl
get-stitch_all i buf (d ∷ ds) =
    let slot = stitched d (slot_or_new (get d.index buf)) in
    get-stitch_all i (stitch buf d) ds
    ∙ ap (λ (o : Option Slot). slot_after o (of_index i ds)) (get-put d.index i slot buf)
    ∙ elim (Bool-cases (d.index == i)) [
      | inl e ↦ rw e (
          ap (λ (k : ℕ). slot_after (some (stitched d (slot_or_new (get k buf)))) (of_index i ds))
            ((nat_beq_iff d.index i).0 e))
      | inr e ↦ rw e refl
    ]

-- A slot with some more pieces.
pub extended : Slot → List CallDelta → Slot
extended c ds = record {
  id = or_old (last_text (λ d. d.id) ds) c.id;
  type = type_or_old (last_text (λ d. d.type) ds) c.type;
  name = or_old (last_text (λ d. d.name) ds) c.name;
  arguments = c.arguments ++ all_arguments ds;
}

or_old-last :
    (t u : Text) (o : Option Text)
    → or_old t (or_old u o) ≡ or_old (elim t as (λ _. Text) [ [] ↦ u | c ∷ s ↦ c ∷ s ]) o
or_old-last [] u o = refl
or_old-last (c ∷ t) u o = refl

type_or_old-last :
    (t u o : Text)
    → type_or_old t (type_or_old u o)
      ≡ type_or_old (elim t as (λ _. Text) [ [] ↦ u | c ∷ s ↦ c ∷ s ]) o
type_or_old-last [] u o = refl
type_or_old-last (c ∷ t) u o = refl

slot_of : Option Text → Text → Option Text → Text → Slot
slot_of i t n a = record { id = i; type = t; name = n; arguments = a }

slot_eq :
    {i j : Option Text} {t u : Text} {n m : Option Text} {a b : Text}
    → i ≡ j
    → t ≡ u
    → n ≡ m
    → a ≡ b
    → slot_of i t n a ≡ slot_of j u m b
slot_eq p q r s = cc

pub slot_after-extended :
    (c : Slot) (ds : List CallDelta) → slot_after (some c) ds ≡ some (extended c ds)
unfolding slot_after extended slot_of
slot_after-extended c [] =
    ap (λ (a : Text). some (slot_of c.id c.type c.name a)) (sym (append-nil c.arguments))
slot_after-extended c (d ∷ ds) =
    slot_after-extended (stitched d c) ds
    ∙ ap (λ (x : Slot). some x)
        (slot_eq (or_old-last (last_text (λ e. e.id) ds) d.id c.id)
          (type_or_old-last (last_text (λ e. e.type) ds) d.type c.type)
          (or_old-last (last_text (λ e. e.name) ds) d.name c.name)
          (append_assoc c.arguments d.arguments (all_arguments ds)))

pub call_of-extended : (ds : List CallDelta) → call_of (extended new_slot ds) ≡ whole_call ds
unfolding extended
call_of-extended ds =
    parts (last_text (λ d. d.id) ds) (last_text (λ d. d.type) ds) (last_text (λ d. d.name) ds)
      (all_arguments ds)
  where
    id_part : (t : Text) → or_old t none ≡ filled t
    id_part [] = refl
    id_part (c ∷ t) = refl

    type_part :
        (t : Text)
        → type_or_old t (codes "function")
          ≡ (elim t as (λ _. Text) [ [] ↦ codes "function" | c ∷ s ↦ c ∷ s ])
    type_part [] = refl
    type_part (c ∷ t) = refl

    parts :
        (i t n a : Text)
        → call_of (record {
          id = or_old i none;
          type = type_or_old t (codes "function");
          name = or_old n none;
          arguments = a;
        })
          ≡ record {
            id = filled i;
            type = elim t [ [] ↦ codes "function" | c ∷ s ↦ c ∷ s ];
            function = some (record { name = filled n; arguments = a });
          }
    parts i t n a =
        ap
          (λ (o : Option Text). call_of (record {
            id = o;
            type = type_or_old t (codes "function");
            name = or_old n none;
            arguments = a;
          }))
          (id_part i)
        ∙ ap
            (λ (u : Text).
              call_of (record { id = filled i; type = u; name = or_old n none; arguments = a }))
            (type_part t)
        ∙ ap
            (λ (o : Option Text). call_of (record {
              id = filled i;
              type = elim t [ [] ↦ codes "function" | c ∷ s ↦ c ∷ s ];
              name = o;
              arguments = a;
            }))
            (id_part n)
