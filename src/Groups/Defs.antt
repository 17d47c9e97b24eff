-- ===== src/Groups/Defs.antt =====
-- src/backend/group.c: the table of groups and the operations that make a group from others.
--
-- A `group *` is the index of its entry in the table; a function that only reads a group takes its
-- record. What malloc returns is a parameter: NULL (`none`, `false`) or a block, which for a group
-- has the contents that malloc found there.
use e_salsa_mpi.Prelude.{
  ℕ, zero, suc, ◌+◌, ◌==◌, ltb, leb, if◌then◌else◌, Bool, true, false, not, ◌&&◌, Option, none,
  some, List, [], ◌∷◌, ◌++◌, length, get_or, take, ℤ, pos, negsuc, ◌==ℤ◌, pos_part,
}
use e_salsa_mpi.Codes.{
  err_comm, err_rank, err_group, err_intern, Result, ok, err, max_groups, undefined,
}

-- `members` are the entries written so far; `size` counts them once the group is made.
pub record Group : Type 0 where
  pub handle : ℤ
  pub rank : ℤ
  pub size : ℕ
  pub members : List ℕ

-- The static variables `groups` and `next_group`.
pub record Groups : Type 0 where
  pub groups : ℕ → Option Group
  pub next_group : ℕ

-- EMPI_GROUP_NULL, EMPI_GROUP_EMPTY
abbrev pub group_null : ℕ
group_null = 0

abbrev pub group_empty : ℕ
group_empty = 1

abbrev pub set_group : Groups → ℕ → Option Group → Groups
set_group s k g = record s { groups = λ j. if j == k then g else s.groups j }

-- The code does not set the handle of EMPI_GROUP_EMPTY.
unfoldable pub init_groups : Option Group → Result (Unit {0}) × Groups
init_groups none = (err err_intern, record { groups = λ j. none; next_group = 2 })
init_groups (some block) = (
  ok tt,
  set_group (record { groups = λ j. none; next_group = 2 }) group_empty
      (some (record block { size = 0; rank = negsuc 0; members = [] })),
)

-- `none` is -1.
unfoldable pub add_group : Groups → Group → Option ℕ × Groups
add_group s g = if leb max_groups s.next_group then (none, s) else (
  some s.next_group,
  record (set_group s s.next_group (some g)) { next_group = suc s.next_group },
)

unfoldable pub handle_to_group : Groups → ℤ → Option Group
handle_to_group s (pos k) = if leb max_groups k then none else s.groups k
handle_to_group s (negsuc k) = none

unfoldable pub group_to_handle : Option Group → ℤ
group_to_handle none = pos group_null
group_to_handle (some g) = g.handle

-- The results of malloc in one call: a temporary array, the group, its member array.
pub record Mallocs : Type 0 where
  pub temporary : Bool
  pub block : Option Group
  pub array : Bool

-- add_group for the block, whose handle is then set; `none` is NULL.
abbrev pub create_added : Groups → Group → Option ℕ × Groups → Option ℕ × Groups
create_added s g (none, s') = (none, s)
create_added s g (some k, s') =
    (some k, set_group s' k (some (record g { handle = pos k; members = [] })))

abbrev pub create_block : Mallocs → Groups → Option Group → Option ℕ × Groups
create_block mem s none = (none, s)
create_block mem s (some g) = if mem.array then create_added s g (add_group s g) else (none, s)

unfoldable pub create_group : Mallocs → ℤ → Groups → Option ℕ × Groups
create_group mem (negsuc n) s = (none, s)
create_group mem (pos zero) s =
    (elim (s.groups group_empty) [ none ↦ none | some g ↦ some group_empty ], s)
create_group mem (pos (suc n)) s = create_block mem s mem.block

-- delete_group on the entry at `k`, which the table holds at its own handle.
unfoldable pub delete_group : ℕ → Groups → Groups
delete_group k s = if k == group_empty then s else set_group s k none

-- What the group operations return: the code with the new group, and the table.
abbrev pub Made : Type 0
Made = Result ℕ × Groups

-- Where filling the new group fails, the code deletes it again.
unfoldable pub fill_result : Groups → ℕ → Result Group → Made
fill_result s k (ok g) = (ok k, set_group s k (some g))
fill_result s k (err e) = (err e, delete_group k s)

abbrev pub fill_entry : Groups → ℕ → (Group → Result Group) → Option Group → Made
fill_entry s k f none = (err err_intern, s)
fill_entry s k f (some g) = fill_result s k (f g)

-- The lines that fill the new group, `f`, on what create_group returns.
unfoldable pub fill_group : Option ℕ × Groups → (Group → Result Group) → Made
fill_group (none, s) f = (err err_intern, s)
fill_group (some k, s) f = fill_entry s k f (s.groups k)

-- group_rank: EMPI_UNDEFINED where this process is not in the group.
unfoldable pub group_rank : Option Group → Result ℤ
group_rank none = err err_group
group_rank (some g) = ok (if g.rank ==ℤ negsuc 0 then undefined else g.rank)

unfoldable pub group_size : Option Group → Result ℕ
group_size none = err err_group
group_size (some g) = ok g.size

-- group_comm_group on a communicator's global_rank and members, which are its global_size many.
unfoldable pub group_comm_group : Mallocs → Option (ℤ × List ℕ) → Groups → Made
group_comm_group mem none s = (err err_comm, s)
group_comm_group mem (some (global_rank, members)) s =
    fill_group (create_group mem (pos (length members)) s)
      (λ res. ok (record res { size = length members; rank = global_rank; members = members }))

-- The inner loop of group_union: is `current` among the members?
unfoldable pub found : ℕ → List ℕ → Bool
found current [] = false
found current (m ∷ ms) = if current == m then true else found current ms

abbrev pub members_of : Group → List ℕ
members_of g = take g.size g.members

-- The `elif` on the ranks at the end of group_union.
abbrev pub union_rank : ℤ → ℤ → ℤ → ℤ
union_rank r₁ r₂ rank = if r₁ ==ℤ negsuc 0 then (if r₂ ==ℤ negsuc 0 then negsuc 0 else rank) else r₁

-- `my_pid` is the global variable of that name.
module _ (my_pid : ℕ) where
  -- The loop over the second group, with `rank` and the members so far.
  unfoldable pub union_loop : List ℕ → List ℕ → ℤ → List ℕ → ℤ × List ℕ
  union_loop first [] rank members = (rank, members)
  union_loop first (current ∷ ms) rank members =
      if found current first
      then union_loop first ms rank members
      else union_loop first ms (if current == my_pid then pos (length members) else rank)
          (members ++ current ∷ [])

  unfoldable pub union_members : Group → Group → ℤ × List ℕ
  union_members in₁ in₂ = union_loop (members_of in₁) (members_of in₂) (negsuc 0) (members_of in₁)

  unfoldable pub group_union : Mallocs → Group → Group → Groups → Made
  group_union mem in₁ in₂ s =
      let u = union_members in₁ in₂ in
      if ltb 0 (in₁.size + in₂.size) && not mem.temporary
      then (err err_intern, s)
      else fill_group (create_group mem (pos (length u.1)) s) (λ res.
        ok (record res {
          size = length u.1;
          rank = union_rank in₁.rank in₂.rank u.0;
          members = u.1;
        }))

  -- The loop of group_incl from index `i` on; the list holds the ranks from there to `n`.
  unfoldable pub incl_loop : Group → ℕ → List ℤ → Group → Result Group
  incl_loop input i [] res = ok res
  incl_loop input i (negsuc k ∷ ranks) res = err err_rank
  incl_loop input i (pos next ∷ ranks) res =
      if leb input.size next
      then err err_rank
      else let m = get_or input.members next 0 in
        incl_loop input (suc i) ranks (record res {
          members = res.members ++ m ∷ [];
          rank = if m == my_pid then pos i else res.rank;
        })

  -- The array `ranks` has at least `n` entries.
  unfoldable pub group_incl : Mallocs → Option Group → ℤ → List ℤ → Groups → Made
  group_incl mem none n ranks s = (err err_group, s)
  group_incl mem (some input) n ranks s = fill_group (create_group mem n s) (λ res.
      incl_loop input 0 (take (pos_part n) ranks)
        (record res { size = pos_part n; rank = negsuc 0 }))

-- The four operations that the code leaves unimplemented: no group is made.
unfoldable group_intersection : Option Group → Option Group → Groups → Made
group_intersection in₁ in₂ s = (err err_group, s)

unfoldable group_difference : Option Group → Option Group → Groups → Made
group_difference in₁ in₂ s = (err err_group, s)

unfoldable group_excl : Option Group → ℤ → List ℤ → Groups → Made
group_excl input n ranks s = (err err_group, s)

unfoldable group_range_excl : Option Group → List (ℤ × ℤ × ℤ) → Groups → Made
group_range_excl input ranges s = (err err_group, s)
