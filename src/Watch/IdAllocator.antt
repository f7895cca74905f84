-- ===== src/Watch/IdAllocator.antt =====
-- pkg/store/watch/id_allocator.go: ids from 0 to a maximum are handed out first come, first served.
pub mod Partition
use apiserver_runtime_exampl.Base.{
  ℕ, zero, suc, ◌+◌, Bool, true, false, not, Option, none, some, List, [], ◌∷◌, ◌++◌, if◌then◌else◌,
  Result, ok, err, Dict, lookup, insert, erase, nat_eq,
}

pub record IdAllocator : Type 0 where
  pub max_id : ℕ
  pub available_ids : List ℕ
  pub allocated_ids : Dict ℕ Bool

pub data IdError : Type 0 where
  max_available_reached : ℕ → IdError
  not_allocated : ℕ → IdError

-- `for i := 0; i <= maxID; i++`, by the rounds that are left.
pub fill : ℕ → ℕ → List ℕ → List ℕ
fill zero i ids = ids
fill (suc rounds) i ids = fill rounds (i + 1) (ids ++ i ∷ [])

unfoldable pub new_id_allocator : ℕ → IdAllocator
unfolding fill
new_id_allocator max_id = record {
  max_id = max_id;
  available_ids = fill (max_id + 1) 0 [];
  allocated_ids = [];
}

unfoldable pub is_exhausted : IdAllocator → Bool
is_exhausted r = elim r.available_ids [ [] ↦ true | _ ∷ _ ↦ false ]

-- The two loads and stores on the first available id.
allocate_first : IdAllocator → List ℕ → IdAllocator × Result IdError ℕ
allocate_first r [] = (r, err (max_available_reached r.max_id))
allocate_first r (id ∷ rest) =
    (record r { available_ids = rest; allocated_ids = insert id true r.allocated_ids }, ok id)

unfoldable pub allocate_id : IdAllocator → IdAllocator × Result IdError ℕ
unfolding allocate_first
allocate_id r = allocate_first r r.available_ids

-- `allocatedIDs[id]`, false where the key is missing.
abbrev pub flag : Option Bool → Bool
flag none = false
flag (some b) = b

unfoldable pub is_allocated : IdAllocator → ℕ → Bool
is_allocated r id = flag (lookup id r.allocated_ids)

unfoldable pub release_id : IdAllocator → ℕ → IdAllocator × Result IdError (Unit {0})
unfolding is_allocated
release_id r id = if not (is_allocated r id) then (r, err (not_allocated id)) else (
  record r { available_ids = r.available_ids ++ id ∷ []; allocated_ids = erase id r.allocated_ids },
  ok tt,
)
