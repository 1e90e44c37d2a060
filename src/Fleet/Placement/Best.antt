-- ===== src/Fleet/Placement/Best.antt =====
-- The choice of placement against what it should be (src/fleet/placement.ts).
use platform_core.Base.{
  ℕ, ◌≡◌, inl, inr, refl, Bool, true, false, not, ◌&&◌, Option, none, some, List, [], ◌∷◌, filter,
  head?, includes, if◌then◌else◌, nat_eq, All, arith, Bool-cases,
}
use platform_core.Base.Int.{ℤ, ltb_ℤ, ◌≤ℤ◌}
use platform_core.Fleet.Placement.{
  NodeInput, available, has_room, insert_node_sorted, sort_by_available, result_of, find_placement,
  find_placement_excluding,
}

-- A node that has room and is not excluded.
abbrev pub is_candidate : List ℕ → ℤ → NodeInput → Bool
is_candidate excluded required n = has_room required n && not (includes excluded n.id)

pub data IsIn (b : NodeInput) : List NodeInput → Type 0 where
  here : {ns : List NodeInput} → IsIn b (b ∷ ns)
  there : {n : NodeInput} {ns : List NodeInput} → IsIn b ns → IsIn b (n ∷ ns)

-- What placement should choose: nothing if no node is a candidate, and otherwise a candidate that no
-- candidate has more room than.
abbrev pub IsBest : (NodeInput → Bool) → List NodeInput → Option NodeInput → Type 0
IsBest p ns none = All (λ (n : NodeInput). p n ≡ false) ns
IsBest p ns (some b) =
    IsIn b ns × (p b ≡ true) × All (λ (n : NodeInput). p n ≡ true → available n ≤ℤ available b) ns

-- The earlier of two nodes, unless the later has more room.
abbrev pub most_room : NodeInput → Option NodeInput → NodeInput
most_room n none = n
most_room n (some m) = if ltb_ℤ (available n) (available m) then m else n

head?-insert_node_sorted :
    (n : NodeInput) (ms : List NodeInput)
    → head? (insert_node_sorted n ms) ≡ some (most_room n (head? ms))
unfolding insert_node_sorted
head?-insert_node_sorted n [] = refl
head?-insert_node_sorted n (m ∷ ms) = elim (Bool-cases (ltb_ℤ (available n) (available m))) [
  | inl b ↦ rw b refl
  | inr b ↦ rw b refl
]

filter-and :
    (p q : NodeInput → Bool) (ns : List NodeInput)
    → filter p (filter q ns) ≡ filter (λ n. p n && q n) ns
filter-and p q [] = refl
filter-and p q (n ∷ ns) = elim (Bool-cases (q n)) [
  | inl b ↦ elim (Bool-cases (p n)) [
    | inl c ↦ rw (b, c, filter-and p q ns) refl
    | inr c ↦ rw (b, c, filter-and p q ns) refl
  ]
  | inr b ↦ elim (Bool-cases (p n)) [
    | inl c ↦ rw (b, c, filter-and p q ns) refl
    | inr c ↦ rw (b, c, filter-and p q ns) refl
  ]
]

no_candidate_below :
    (p : NodeInput → Bool) (a : ℤ) (ns : List NodeInput)
    → All (λ (n : NodeInput). p n ≡ false) ns
    → All (λ (n : NodeInput). p n ≡ true → available n ≤ℤ a) ns
no_candidate_below p a [] h = tt
no_candidate_below p a (n ∷ ns) (f, h) = (λ t. absurd cc, no_candidate_below p a ns h)

All-below :
    (p : NodeInput → Bool) (a b : ℤ) (ns : List NodeInput)
    → a ≤ℤ b
    → All (λ (n : NodeInput). p n ≡ true → available n ≤ℤ a) ns
    → All (λ (n : NodeInput). p n ≡ true → available n ≤ℤ b) ns
All-below p a b [] le h = tt
All-below p a b (n ∷ ns) le (f, h) = (λ t. below (f t), All-below p a b ns le h)
  where
    below : available n ≤ℤ a → available n ≤ℤ b
    below k = omega arith

ltb-le : (a b : ℤ) → ltb_ℤ a b ≡ true → a ≤ℤ b
ltb-le a b h = ground arith

ltb-ge : (a b : ℤ) → ltb_ℤ a b ≡ false → b ≤ℤ a
ltb-ge a b h = ground arith

le_refl : (a : ℤ) → a ≤ℤ a
le_refl a = omega arith

IsBest-step :
    (p : NodeInput → Bool) (n : NodeInput) (ns : List NodeInput) (o : Option NodeInput)
    → p n ≡ true
    → IsBest p ns o
    → IsBest p (n ∷ ns) (some (most_room n o))
IsBest-step p n ns none h best =
    (here, h, ((λ _. le_refl (available n)), no_candidate_below p (available n) ns best))
IsBest-step p n ns (some b) h (mem, pb, all) = split (ltb_ℤ (available n) (available b)) refl
  where
    split :
        (c : Bool)
        → ltb_ℤ (available n) (available b) ≡ c
        → IsBest p (n ∷ ns) (some (if c then b else n))
    split true c = (there mem, pb, ((λ _. ltb-le (available n) (available b) c), all))
    split false c = (
      here,
      h,
      (
        (λ _. le_refl (available n)),
        All-below p (available b) (available n) ns (ltb-ge (available n) (available b) c) all,
      ),
    )

IsBest-skip :
    (p : NodeInput → Bool) (n : NodeInput) (ns : List NodeInput) (o : Option NodeInput)
    → p n ≡ false
    → IsBest p ns o
    → IsBest p (n ∷ ns) o
IsBest-skip p n ns none h best = (h, best)
IsBest-skip p n ns (some b) h (mem, pb, all) = (there mem, pb, ((λ t. absurd cc), all))

sort_by_available-IsBest :
    (p : NodeInput → Bool) (ns : List NodeInput)
    → IsBest p ns (head? (sort_by_available (filter p ns)))
unfolding sort_by_available
sort_by_available-IsBest p [] = tt
sort_by_available-IsBest p (n ∷ ns) = elim (Bool-cases (p n)) [
  | inl b ↦
      rw (b, head?-insert_node_sorted n (sort_by_available (filter p ns)))
        (IsBest-step p n ns (head? (sort_by_available (filter p ns))) b
          (sort_by_available-IsBest p ns))
  | inr b ↦ rw b (
      IsBest-skip p n ns (head? (sort_by_available (filter p ns))) b
        (sort_by_available-IsBest p ns))
]

-- Placement returns null exactly if no active node outside the excluded ones has the memory that is
-- required free; else it returns the id, the host and the free memory of such a node of the list, and
-- no such node has more free memory.
pub find_placement_excluding-IsBest :
    (ns : List NodeInput) (excluded : List ℕ) (required : ℤ)
    → (o : Option NodeInput) × (find_placement_excluding ns excluded required ≡ result_of o)
      × IsBest (is_candidate excluded required) ns o
unfolding find_placement_excluding find_placement
find_placement_excluding-IsBest ns [] required =
    (_, rw (filter_same ns) refl, sort_by_available-IsBest (is_candidate [] required) ns)
  where
    filter_same :
        (ms : List NodeInput) → filter (has_room required) ms ≡ filter (is_candidate [] required) ms
    filter_same [] = refl
    filter_same (m ∷ ms) = elim (Bool-cases (has_room required m)) [
      | inl b ↦ rw (b, filter_same ms) refl
      | inr b ↦ rw (b, filter_same ms) refl
    ]
find_placement_excluding-IsBest ns (i ∷ is) required = (
  _,
  rw (filter-and (has_room required) (λ (n : NodeInput). not (includes (i ∷ is) n.id)) ns) refl,
  sort_by_available-IsBest (is_candidate (i ∷ is) required) ns,
)
