-- ===== src/Tables/DatatypeLaws.antt =====
-- src/backend/datatype.c: adding, finding and freeing a datatype.
use e_salsa_mpi.Prelude.{
  ℕ, ◌-◌, ◌≤◌, ◌<◌, ltb, leb, ◌==◌, tests, Bool, true, false, Option, none, some, pos, ◌≡◌, ◌≢◌,
  ◌⊎◌, inl, inr, refl, ap, ◌∙◌, arith,
}
use e_salsa_mpi.Codes.{ok, max_datatypes}
use e_salsa_mpi.Tables.Slots.{put_slot, find_slot}
use e_salsa_mpi.Tables.SlotLaws.{Finds, find_slot-Finds}
use e_salsa_mpi.Tables.Datatypes.{
  Types, defined_datatypes, add_at_free, intern_add_datatype, add_found, added, add_datatype,
  free_pointed, free_datatype, handle_to_datatype, is_derived_datatype,
}

-- What add_datatype does: an entry of the derived datatypes that was free gets the type and its index as
-- handle; handle_to_datatype finds it by this, and free_datatype gives the table back. Or NULL is
-- returned and the table left alone: there is no memory, or the derived datatypes are all in use.
abbrev pub Derives : Bool → ℕ → Types → Option ℕ × Types → Type 0
Derives memory mtype types (none, types') =
    ((j : ℕ) → types' j ≡ types j)
    × ((memory ≡ false) ⊎ ((j : ℕ) → defined_datatypes ≤ j → j < max_datatypes → types j ≢ none))
Derives memory mtype types (some k, types') =
    (is_derived_datatype (pos k) ≡ true)
    × (types k ≡ none)
    × (handle_to_datatype (pos k) types' ≡ some (some (record { handle = k; content = mtype })))
    × ((j : ℕ) → j ≢ k → types' j ≡ types j)
    × (free_datatype (some k) types' ≡ some (ok tt, types))

-- The lookup of an entry of the derived datatypes, and the free of one.
module _ (mtype : ℕ) (types : Types) (k : ℕ) where
  abbrev with_type : Types
  with_type = put_slot types k (some (record { handle = k; content = mtype }))

  at_self : with_type k ≡ some (record { handle = k; content = mtype })
  at_self = grind tests

  handle_to_datatype-found :
      k < max_datatypes
      → handle_to_datatype (pos k) with_type ≡ some (some (record { handle = k; content = mtype }))
  unfolding handle_to_datatype
  handle_to_datatype-found q =
      let low : ltb max_datatypes k ≡ false = ground (arith, q) in
      let not_end : (k == max_datatypes) ≡ false = ground (arith, q) in
      rw (low, not_end) (ap some at_self)

  restored : types k ≡ none → put_slot with_type k none ≡ types
  restored free = λ i j. by j i
    where
      by : (j : ℕ) → put_slot with_type k none j ≡ types j
      by j = grind (tests, free)

  free_datatype-restores :
      defined_datatypes ≤ k
      → k < max_datatypes
      → types k ≡ none
      → free_datatype (some k) with_type ≡ some (ok tt, types)
  unfolding free_datatype
  free_datatype-restores p q free =
      let low : ltb max_datatypes k ≡ false = ground (arith, q) in
      let derived : ltb k defined_datatypes ≡ false = ground (arith, p) in
      let not_end : (k == max_datatypes) ≡ false = ground (arith, q) in
      let same : (k == k) ≡ true = ground arith in
      ap (free_pointed k with_type) at_self
      ∙ rw (low, derived, not_end, same) (ap (λ t. some (ok tt, t)) (restored free))

at_free-Derives :
    (memory : Bool) (mtype : ℕ) (types : Types) (k : ℕ)
    → defined_datatypes ≤ k
    → k < max_datatypes
    → types k ≡ none
    → Derives memory mtype types (added k (add_at_free memory k mtype types none))
unfolding is_derived_datatype
at_free-Derives false mtype types k p q free = ((λ j. refl), inl refl)
at_free-Derives true mtype types k p q free = (
  ground (arith, p),
  free,
  handle_to_datatype-found mtype types k q,
  (λ j ne. grind tests),
  free_datatype-restores mtype types k p q free,
)

-- On any table add_datatype either adds the type to a free entry of the derived datatypes, where
-- handle_to_datatype finds it and from where free_datatype takes it out, which gives the table back; or
-- it returns NULL and leaves the table alone, and there is no memory or no such entry is free.
pub add_datatype-Derives :
    (memory : Bool) (mtype : ℕ) (types : Types)
    → Derives memory mtype types (add_datatype memory mtype types)
unfolding add_datatype intern_add_datatype
add_datatype-Derives memory mtype types =
    by memory (find_slot types (max_datatypes - defined_datatypes) defined_datatypes)
      (find_slot-Finds types (max_datatypes - defined_datatypes) defined_datatypes)
  where
    by :
        (m : Bool) (o : Option ℕ)
        → Finds types (max_datatypes - defined_datatypes) defined_datatypes o
        → Derives m mtype types (add_found m mtype types o)
    by m none h = ((λ j. refl), inr (λ j p q. h j p (omega arith)))
    by m (some k) (p, q, free) =
        let within : leb max_datatypes k ≡ false = ground (arith, q) in
        rw (within, free) (at_free-Derives m mtype types k p (omega arith) free)
