-- ===== src/Agents/PrSplit/Directories.antt =====
-- The directory strategy: grouping by directory loses no file.
use harness_solomon.Base.{
  ℕ, ◌+◌, ◌≡◌, refl, Bool, true, false, List, [], ◌∷◌, ◌++◌, map, ◌==◌, ==_refl, if◌then◌else◌, any,
  arith,
}
use harness_solomon.Base.Text.{Text, text_eq, text_beq_iff}
use harness_solomon.Base.Dict.{Dict, get, put}
use harness_solomon.Base.Sort.{insert_by, sort_by, text_leb, times, times-sort_by}
use harness_solomon.Agents.PrSplit.Group.{
  sorted, top, or_empty, keys, root_first, bucket_all, split_by_directory,
}
use harness_solomon.Agents.PrSplit.Partition.{placed, times-append}

-- Whether the key is one of these.
abbrev pub among : Text → List Text → Bool
among k = any λ j. j == k

abbrev IsDistinct : List Text → Type 0
IsDistinct [] = Unit
IsDistinct (k ∷ ks) = (among k ks ≡ false) × IsDistinct ks

-- How often the file stands in the buckets.
abbrev held : Text → Dict Text (List Text) → ℕ
held f [] = 0
held f ((k, fs) ∷ m) = times f fs + held f m

held-put :
    (f k : Text) (fs : List Text) (m : Dict Text (List Text))
    → held f (put k fs m) + times f (or_empty (get k m)) ≡ held f m + times f fs
unfolding put get
held-put f k fs [] = omega arith
held-put f k fs ((j, gs) ∷ m) = ground (arith, held-put f k fs m)

among-put :
    (j k : Text) (fs : List Text) (m : Dict Text (List Text))
    → among j (keys (put k fs m)) ≡ (if k == j then true else among j (keys m))
unfolding put
among-put j k fs [] = refl
among-put j k fs ((i, gs) ∷ m) =
    ground (arith, among-put j k fs m, text_beq_iff i k, text_beq_iff k j, text_beq_iff i j)

put-IsDistinct :
    (k : Text) (fs : List Text) (m : Dict Text (List Text))
    → IsDistinct (keys m)
    → IsDistinct (keys (put k fs m))
unfolding put
put-IsDistinct k fs [] h = ground arith
put-IsDistinct k fs ((i, gs) ∷ m) h =
    ground (arith, put-IsDistinct k fs m, among-put i k fs m, text_beq_iff i k, text_beq_iff k i)

bucket_all-IsDistinct :
    (fs : List Text) (m : Dict Text (List Text))
    → IsDistinct (keys m)
    → IsDistinct (keys (bucket_all fs m))
unfolding bucket_all
bucket_all-IsDistinct [] m h = h
bucket_all-IsDistinct (f ∷ fs) m h =
    let gs = or_empty (get (top f) m) ++ f ∷ [] in
    bucket_all-IsDistinct fs (put (top f) gs m) (put-IsDistinct (top f) gs m h)

held-bucket_all :
    (f : Text) (fs : List Text) (m : Dict Text (List Text))
    → held f (bucket_all fs m) ≡ times f fs + held f m
unfolding bucket_all
held-bucket_all f [] m = omega arith
held-bucket_all f (g ∷ fs) m =
    let old = or_empty (get (top g) m) in
    omega (
      arith,
      held-bucket_all f fs (put (top g) (old ++ g ∷ []) m),
      held-put f (top g) (old ++ g ∷ []) m,
      times-append f old (g ∷ []),
    )

module _ (f : Text) (group : Text → List Text) where
  placed-map-insert_by :
      (k : Text) (ks : List Text)
      → placed f (map group (insert_by root_first k ks))
        ≡ times f (group k) + placed f (map group ks)
  unfolding insert_by
  placed-map-insert_by k [] = refl
  placed-map-insert_by k (j ∷ ks) = ground (arith, placed-map-insert_by k ks)

  placed-map-sort_by :
      (ks : List Text) → placed f (map group (sort_by root_first ks)) ≡ placed f (map group ks)
  unfolding sort_by
  placed-map-sort_by [] = refl
  placed-map-sort_by (k ∷ ks) =
      omega (arith, placed-map-insert_by k (sort_by root_first ks), placed-map-sort_by ks)

abbrev pub bucket_of : Dict Text (List Text) → Text → List Text
bucket_of m k = sorted (or_empty (get k m))

placed-other :
    (f k : Text) (gs : List Text) (m : Dict Text (List Text)) (ks : List Text)
    → among k ks ≡ false
    → placed f (map (bucket_of ((k, gs) ∷ m)) ks) ≡ placed f (map (bucket_of m) ks)
unfolding get
placed-other f k gs m [] h = refl
placed-other f k gs m (j ∷ ks) h =
    ground (arith, placed-other f k gs m ks, text_beq_iff j k, text_beq_iff k j)

times-own :
    (f k : Text) (gs : List Text) (m : Dict Text (List Text))
    → times f (bucket_of ((k, gs) ∷ m) k) ≡ times f gs
unfolding get
times-own f k gs m = rw (==_refl k) (times-sort_by text_leb f gs)

placed-buckets :
    (f : Text) (m : Dict Text (List Text))
    → IsDistinct (keys m)
    → placed f (map (bucket_of m) (keys m)) ≡ held f m
placed-buckets f [] h = refl
placed-buckets f ((k, gs) ∷ m) h =
    omega (arith, times-own f k gs m, placed-other f k gs m (keys m) h.0, placed-buckets f m h.1)

pub placed-split_by_directory :
    (f : Text) (fs : List Text) → placed f (split_by_directory fs) ≡ times f fs
unfolding split_by_directory
placed-split_by_directory f fs =
    let m = bucket_all fs [] in
    omega (
      arith,
      placed-map-sort_by f (bucket_of m) (keys m),
      placed-buckets f m (bucket_all-IsDistinct fs [] tt),
      held-bucket_all f fs [],
    )
