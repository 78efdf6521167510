-- ===== src/Base/Glob.antt =====
-- Python's fnmatch.fnmatchcase: a glob pattern is read into tokens, and these are matched.
use Prim.Native.Nat.{ℕ, zero, suc}
use mathlib.Core.Path.{◌≡◌, refl}
use mathlib.Core.Logic.{◌↔◌, inl, inr}
use mathlib.Core.Bool.{Bool, true, false, not, ◌&&◌}
use mathlib.Core.Option.{Option, none, some}
use mathlib.Core.List.{List, [], ◌∷◌}
use native.Mathlib.Omega.{arith}
use harness_solomon.Base.Tests.{◌==◌, nat_eq, leb, if◌then◌else◌, Bool-cases}
use harness_solomon.Base.Lists.{any, length}
use harness_solomon.Base.Text.{Text}

pub data Item : Type 0 where
  one : ℕ → Item
  range : ℕ → ℕ → Item

pub data Token : Type 0 where
  star any_one : Token
  lit : ℕ → Token
  set : Bool → List Item → Token

abbrev in_item : ℕ → Item → Bool
in_item c (one d) = c == d
in_item c (range lo hi) = leb lo c && leb c hi

abbrev pub fits : Token → ℕ → Bool
fits star c = false
fits any_one c = true
fits (lit d) c = c == d
fits (set negated items) c = if negated then not (any (in_item c) items) else any (in_item c) items

-- The inside of `[...]`.
items : Text → List Item
items [] = []
items (a ∷ []) = one a ∷ []
items (a ∷ h ∷ []) = one a ∷ one h ∷ []
items (a ∷ h ∷ b ∷ s) = elim (h == b'-') [
  | true ↦ range a b ∷ items s
  | false ↦ one a ∷ items (h ∷ b ∷ s)
]

-- The text up to the next `]`, and the text behind it.
until_close : Text → Option (Text × Text)
until_close [] = none
until_close (c ∷ s) =
    let rest = until_close s in
    if c == b']'
    then some ([], s)
    else elim rest [ none ↦ none | some (inside, after) ↦ some (c ∷ inside, after) ]

-- A `]` that comes first stands for itself.
first_close : Text → Option (Text × Text)
unfolding until_close
first_close [] = none
first_close (c ∷ s) =
    if c == b']'
    then elim (until_close s) [ none ↦ none | some (inside, after) ↦ some (c ∷ inside, after) ]
    else until_close (c ∷ s)

read_set : Text → Option (Token × Text)
unfolding first_close items
read_set [] = none
read_set (c ∷ s) =
    if c == b'!'
    then elim (first_close s) [ none ↦ none | some (t, after) ↦ some (set true (items t), after) ]
    else elim (first_close (c ∷ s)) [
      | none ↦ none
      | some (t, after) ↦ some (set false (items t), after)
    ]

-- Each round reads a character at least, so the pattern's length is fuel enough.
tokens_fuel : ℕ → Text → List Token
unfolding read_set
tokens_fuel zero p = []
tokens_fuel (suc fuel) [] = []
tokens_fuel (suc fuel) (c ∷ p) =
    let next = tokens_fuel fuel p in
    let set_next : List Token = elim (read_set p) [
      | none ↦ lit c ∷ next
      | some (token, after) ↦ token ∷ tokens_fuel fuel after
    ] in
    if c == b'*'
    then star ∷ next
    else if c == b'?'
    then any_one ∷ next
    else if c == b'['
    then set_next
    else lit c ∷ next

unfoldable pub tokens : Text → List Token
unfolding tokens_fuel
tokens p = tokens_fuel (length p) p

unfoldable pub match_tokens : List Token → Text → Bool
match_tokens [] [] = true
match_tokens [] (c ∷ s) = false
match_tokens (star ∷ ts) [] = match_tokens ts []
match_tokens (star ∷ ts) (c ∷ s) = elim (match_tokens ts (c ∷ s)) [
  | true ↦ true
  | false ↦ match_tokens (star ∷ ts) s
]
match_tokens (t ∷ ts) [] = false
match_tokens (t ∷ ts) (c ∷ s) = let rest = match_tokens ts s in if fits t c then rest else false

-- `fnmatch.fnmatchcase(value, pattern)`.
unfoldable pub fnmatchcase : Text → Text → Bool
unfolding tokens match_tokens
fnmatchcase value pattern = match_tokens (tokens pattern) value

-- What a row of tokens means: a star stands for any text, any other token for one character.
pub data Matches : List Token → Text → Type 0 where
  done : Matches [] []
  skip : {ts : List Token} {s : Text} → Matches ts s → Matches (star ∷ ts) s
  grow : {ts : List Token} {c : ℕ} {s : Text} → Matches (star ∷ ts) s → Matches (star ∷ ts) (c ∷ s)
  char :
      {t : Token} {ts : List Token} {c : ℕ} {s : Text}
      → fits t c ≡ true
      → Matches ts s
      → Matches (t ∷ ts) (c ∷ s)

glob_sound : (ts : List Token) (s : Text) → match_tokens ts s ≡ true → Matches ts s
unfolding match_tokens
glob_sound [] [] h = done
glob_sound [] (c ∷ s) h = cc
glob_sound (star ∷ ts) [] h = skip (glob_sound ts [] h)
glob_sound (star ∷ ts) (c ∷ s) h = elim (Bool-cases (match_tokens ts (c ∷ s))) [
  | inl e ↦ skip (glob_sound ts (c ∷ s) e)
  | inr e ↦ grow (glob_sound (star ∷ ts) s (rw e at h))
]
glob_sound (t ∷ ts) [] h = cc
glob_sound (t ∷ ts) (c ∷ s) h = char (ground arith) (glob_sound ts s (ground arith))

match_tokens-star :
    (ts : List Token) (s : Text) → match_tokens ts s ≡ true → match_tokens (star ∷ ts) s ≡ true
unfolding match_tokens
match_tokens-star ts [] h = h
match_tokens-star ts (c ∷ s) h = rw h

match_tokens-char :
    (t : Token) (ts : List Token) (c : ℕ) (s : Text)
    → fits t c ≡ true
    → match_tokens ts s ≡ true
    → match_tokens (t ∷ ts) (c ∷ s) ≡ true
unfolding match_tokens
match_tokens-char star ts c s f h = cc
match_tokens-char _ ts c s f h = ground arith

glob_complete : (ts : List Token) (s : Text) → Matches ts s → match_tokens ts s ≡ true
unfolding match_tokens
glob_complete _ _ done = refl
glob_complete _ _ (skip {ts} {s} m) = match_tokens-star ts s (glob_complete ts s m)
glob_complete _ _ (grow {ts} {c} {s} m) = ground (arith, glob_complete (star ∷ ts) s m)
glob_complete _ _ (char {t} {ts} {c} {s} f m) = match_tokens-char t ts c s f (glob_complete ts s m)

-- The matcher accepts a text exactly if the tokens mean it.
pub match_tokens_iff : (ts : List Token) (s : Text) → (match_tokens ts s ≡ true) ↔ Matches ts s
match_tokens_iff ts s = (glob_sound ts s, glob_complete ts s)
