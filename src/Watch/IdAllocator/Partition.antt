-- ===== src/Watch/IdAllocator/Partition.antt =====
-- The ids from 0 to the maximum are split between those available and those allocated.
use apiserver_runtime_exampl.Base.{
  ℕ, zero, suc, ◌+◌, ◌≤◌, ◌≡◌, refl, ap, Bool, true, false, List, [], ◌∷◌, ◌++◌, arith, leb,
  if◌then◌else◌, ok, err, is_ok, count, count-append, ◌≟◌, lookup-nil, lookup-insert, lookup-erase,
  nat_eq,
}
use apiserver_runtime_exampl.Watch.IdAllocator.{
  IdAllocator, IdError, fill, new_id_allocator, is_exhausted, allocate_first, allocate_id,
  is_allocated, release_id,
}

-- Each id up to the maximum is available once or allocated, and no other id is either.
abbrev pub IsPartition : IdAllocator → Type 0
IsPartition r =
    (i : ℕ)
    → count i r.available_ids + (if is_allocated r i then 1 else 0)
      ≡ (if leb i r.max_id then 1 else 0)

count-fill :
    (rounds i j : ℕ) (ids : List ℕ)
    → count j (fill rounds i ids)
      ≡ count j ids + (if leb i j then (if leb (i + rounds) j then 0 else 1) else 0)
unfolding fill
count-fill zero i j ids = ground arith
count-fill (suc rounds) i j ids =
    ground (arith, count-fill rounds (i + 1) j (ids ++ i ∷ []), count-append j ids (i ∷ []))

pub new_id_allocator-IsPartition : (max_id : ℕ) → IsPartition (new_id_allocator max_id)
unfolding new_id_allocator is_allocated
new_id_allocator-IsPartition max_id i =
    ground (arith, count-fill (max_id + 1) 0 i [], lookup-nil {V = Bool} i)

allocate_first-IsPartition :
    (r : IdAllocator) (ids : List ℕ)
    → r.available_ids ≡ ids
    → IsPartition r
    → IsPartition (allocate_first r ids).0
unfolding allocate_first is_allocated
allocate_first-IsPartition r [] e v i = v i
allocate_first-IsPartition r (id ∷ rest) e v i =
    ground (arith, v i, ap (count i) e, lookup-insert id i true r.allocated_ids)

pub allocate_id-IsPartition : (r : IdAllocator) → IsPartition r → IsPartition (allocate_id r).0
unfolding allocate_id
allocate_id-IsPartition r v = allocate_first-IsPartition r r.available_ids refl v

-- Releasing keeps each id up to the maximum either available once or allocated, also when it
-- fails.
pub release_id-IsPartition :
    (r : IdAllocator) (id : ℕ) → IsPartition r → IsPartition (release_id r id).0
unfolding release_id
release_id-IsPartition r id v i =
    ground (arith, v i, count-append i r.available_ids (id ∷ []), lookup-erase id i r.allocated_ids)

allocate_first_fresh :
    (r : IdAllocator) (ids : List ℕ) (id : ℕ)
    → r.available_ids ≡ ids
    → IsPartition r
    → (allocate_first r ids).1 ≡ ok id
    → (is_allocated r id ≡ false)
      × (id ≤ r.max_id)
      × ((j : ℕ)
          → is_allocated (allocate_first r ids).0 j ≡ (if id ≟ j then true else is_allocated r j))
unfolding allocate_first is_allocated
allocate_first_fresh r [] id e v given = cc
allocate_first_fresh r (first ∷ rest) id e v given = (
  ground (arith, v id, ap (count id) e),
  ground (arith, v id, ap (count id) e),
  λ j. ground (arith, lookup-insert first j true r.allocated_ids),
)

-- If each id up to the maximum is either available once or allocated, an id that is handed out was
-- free, is not above the maximum, and is the only one whose state
-- changes.
pub allocate_id_fresh :
    (r : IdAllocator) (id : ℕ)
    → IsPartition r
    → (allocate_id r).1 ≡ ok id
    → (is_allocated r id ≡ false)
      × (id ≤ r.max_id)
      × ((j : ℕ) → is_allocated (allocate_id r).0 j ≡ (if id ≟ j then true else is_allocated r j))
unfolding allocate_id
allocate_id_fresh r id v given = allocate_first_fresh r r.available_ids id refl v given

allocate_first_exhausted :
    (r : IdAllocator) (ids : List ℕ)
    → r.available_ids ≡ ids
    → IsPartition r
    → is_ok (allocate_first r ids).1 ≡ false
    → (i : ℕ) → is_allocated r i ≡ leb i r.max_id
unfolding allocate_first
allocate_first_exhausted r [] e v failed i = ground (arith, v i, ap (count i) e)
allocate_first_exhausted r (id ∷ rest) e v failed i = cc

-- If each id up to the maximum is either available once or allocated, allocation fails only when every id up to the maximum is allocated.
pub allocate_id_exhausted :
    (r : IdAllocator)
    → IsPartition r
    → is_ok (allocate_id r).1 ≡ false
    → (i : ℕ) → is_allocated r i ≡ leb i r.max_id
unfolding allocate_id
allocate_id_exhausted r v failed = allocate_first_exhausted r r.available_ids refl v failed

-- Releasing fails on the ids that are not allocated, and then changes nothing; of an allocated one
-- it makes that id free again and leaves the others.
pub release_id_lem :
    (r : IdAllocator) (id : ℕ)
    → (is_ok (release_id r id).1 ≡ is_allocated r id)
      × (is_allocated r id ≡ false → (release_id r id).0 ≡ r)
      × ((j : ℕ)
          → is_allocated (release_id r id).0 j ≡ (if id ≟ j then false else is_allocated r j))
unfolding release_id
release_id_lem r id =
    (ground arith, λ free. ground arith, λ j. ground (arith, lookup-erase id j r.allocated_ids))

allocate_first_failed :
    (r : IdAllocator) (ids : List ℕ) (x : IdError)
    → (allocate_first r ids).1 ≡ err x
    → (allocate_first r ids).0 ≡ r
unfolding allocate_first
allocate_first_failed r [] x failed = refl
allocate_first_failed r (id ∷ rest) x failed = cc

pub allocate_id_failed :
    (r : IdAllocator) (x : IdError) → (allocate_id r).1 ≡ err x → (allocate_id r).0 ≡ r
unfolding allocate_id
allocate_id_failed r = allocate_first_failed r r.available_ids

allocate_first-returns :
    (r : IdAllocator) (ids : List ℕ)
    → r.available_ids ≡ ids
    → is_exhausted r ≡ false
    → (id : ℕ) × ((allocate_first r ids).1 ≡ ok id)
unfolding allocate_first is_exhausted
allocate_first-returns r [] e some_left = absurd (ground arith)
allocate_first-returns r (id ∷ rest) e some_left = (id, refl)

-- An allocator that is not exhausted hands out an id.
pub allocate_id-returns :
    (r : IdAllocator) → is_exhausted r ≡ false → (id : ℕ) × ((allocate_id r).1 ≡ ok id)
unfolding allocate_id
allocate_id-returns r = allocate_first-returns r r.available_ids refl
