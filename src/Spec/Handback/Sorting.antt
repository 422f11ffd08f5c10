-- ===== src/Spec/Handback/Sorting.antt =====
-- The samples of a sub-run in order of time: the sort keeps them all, and its last one is the latest.
use minisforum_n5pro_fan_pro.Prelude.{
  ℕ, ◌≤◌, ◌≡◌, refl, ◌↔◌, ◌⊎◌, inl, inr, List, [], ◌∷◌, All, Any, All-map, Any-map, arith, leb,
  Bool-cases,
}
use minisforum_n5pro_fan_pro.Spec.Handback.Defs.{DcrSample, insert_by_time, sort_by_time, last_time}

abbrev pub IsSorted : List DcrSample → Type 0
IsSorted [] = Unit
IsSorted (x ∷ xs) = All (λ y. x.t ≤ y.t) xs × IsSorted xs

module _ (P : DcrSample → Type 0) where
  insert-All : (x : DcrSample) (ys : List DcrSample) → P x → All P ys → All P (insert_by_time x ys)
  unfolding insert_by_time
  insert-All x [] p h = (p, tt)
  insert-All x (y ∷ ys) p h = ground (arith, insert-All x ys p h.1)

  insert-Any : (x : DcrSample) (ys : List DcrSample) → P x ⊎ Any P ys → Any P (insert_by_time x ys)
  unfolding insert_by_time
  insert-Any x [] h = h
  insert-Any x (y ∷ ys) h = ground (arith, insert-Any x ys)

  Any-insert : (x : DcrSample) (ys : List DcrSample) → Any P (insert_by_time x ys) → P x ⊎ Any P ys
  unfolding insert_by_time
  Any-insert x [] h = h
  Any-insert x (y ∷ ys) h = ground (arith, Any-insert x ys)

  pub sort-All : (xs : List DcrSample) → All P xs → All P (sort_by_time xs)
  unfolding sort_by_time
  sort-All [] h = h
  sort-All (x ∷ xs) h = insert-All x (sort_by_time xs) h.0 (sort-All xs h.1)

  pub sort-Any : (xs : List DcrSample) → Any P xs → Any P (sort_by_time xs)
  unfolding sort_by_time
  sort-Any [] h = h
  sort-Any (x ∷ xs) (inl p) = insert-Any x (sort_by_time xs) (inl p)
  sort-Any (x ∷ xs) (inr p) = insert-Any x (sort_by_time xs) (inr (sort-Any xs p))

  pub Any-sort : (xs : List DcrSample) → Any P (sort_by_time xs) → Any P xs
  unfolding sort_by_time
  Any-sort [] h = h
  Any-sort (x ∷ xs) h = elim (Any-insert x (sort_by_time xs) h) [
    | inl p ↦ inl p
    | inr p ↦ inr (Any-sort xs p)
  ]

  All-insert : (x : DcrSample) (ys : List DcrSample) → All P (insert_by_time x ys) → P x × All P ys
  unfolding insert_by_time
  All-insert x [] h = h
  All-insert x (y ∷ ys) h = ground (arith, All-insert x ys)

  pub All-sort : (xs : List DcrSample) → All P (sort_by_time xs) → All P xs
  unfolding sort_by_time
  All-sort [] h = h
  All-sort (x ∷ xs) h = let (p, r) = All-insert x (sort_by_time xs) h in (p, All-sort xs r)

insert-IsSorted :
    (x : DcrSample) (ys : List DcrSample) → IsSorted ys → IsSorted (insert_by_time x ys)
unfolding insert_by_time
insert-IsSorted x [] s = (tt, tt)
insert-IsSorted x (y ∷ ys) s = elim (Bool-cases (leb x.t y.t)) [
  | inl le ↦ rw le ((ground arith, All-map (λ z (h : y.t ≤ z.t). ground arith) ys s.0), s)
  | inr gt ↦ rw gt (insert-All (λ z. y.t ≤ z.t) x ys (ground arith) s.0, insert-IsSorted x ys s.1)
]

pub sort-IsSorted : (xs : List DcrSample) → IsSorted (sort_by_time xs)
unfolding sort_by_time
sort-IsSorted [] = tt
sort-IsSorted (x ∷ xs) = insert-IsSorted x (sort_by_time xs) (sort-IsSorted xs)

pub le-last_time :
    (x : DcrSample) (xs : List DcrSample) → IsSorted (x ∷ xs) → x.t ≤ last_time x.t xs
unfolding last_time
le-last_time x [] s = omega arith
le-last_time x (y ∷ ys) s = omega (arith, le-last_time y ys s.1, s.0.0)

pub All-le-last_time :
    (x : DcrSample) (xs : List DcrSample)
    → IsSorted (x ∷ xs)
    → All (λ y. y.t ≤ last_time x.t xs) (x ∷ xs)
unfolding last_time
All-le-last_time x [] s = (omega arith, tt)
All-le-last_time x (y ∷ ys) s =
    (omega (arith, le-last_time y ys s.1, s.0.0), All-le-last_time y ys s.1)

pub last_time-Any :
    (x : DcrSample) (xs : List DcrSample) → Any (λ y. y.t ≡ last_time x.t xs) (x ∷ xs)
unfolding last_time
last_time-Any x [] = inl refl
last_time-Any x (y ∷ ys) = inr (last_time-Any y ys)

-- The last time reaches `n` exactly when some sample does.
pub le-last_time_iff :
    (n : ℕ) (x : DcrSample) (xs : List DcrSample)
    → IsSorted (x ∷ xs)
    → (n ≤ last_time x.t xs) ↔ Any (λ y. n ≤ y.t) (x ∷ xs)
le-last_time_iff n x xs s = (
  λ h. Any-map (λ y (e : y.t ≡ last_time x.t xs). ground arith) (x ∷ xs) (last_time-Any x xs),
  λ h. witness (x ∷ xs) (All-le-last_time x xs s) h,
)
  where
    witness :
        (ys : List DcrSample)
        → All (λ y. y.t ≤ last_time x.t xs) ys
        → Any (λ y. n ≤ y.t) ys
        → n ≤ last_time x.t xs
    witness [] a h = absurd h
    witness (y ∷ ys) a (inl p) = omega (arith, a.0)
    witness (y ∷ ys) a (inr p) = witness ys a.1 p
