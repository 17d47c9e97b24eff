-- ===== src/Groups/Init.antt =====
-- init_groups, group_comm_group and the handles of groups.
use e_salsa_mpi.Prelude.{
  ℕ, ◌≤◌, ◌==◌, leb, if◌then◌else◌, Bool, true, false, none, some, List, [], length, ◌≡◌, ◌≢◌, ◌⊎◌,
  ◌∙◌, refl, sym, ap, subst, inl, inr, arith, ℤ, pos, negsuc, Bool-cases,
}
use e_salsa_mpi.Codes.{ok, max_groups}
use e_salsa_mpi.Groups.Defs.{
  Group, Groups, group_empty, Mallocs, init_groups, handle_to_group, group_to_handle,
  group_comm_group, found,
}
use e_salsa_mpi.Groups.Table.{RankOf, IsGroup, IsTable, MadeBy, room, fill_group-Makes}

none≢some : {g : Group} → none ≢ some g
none≢some e = cc

some-injective : {g g' : Group} → some g ≡ some g' → g ≡ g'
some-injective e = cc

-- Where malloc gives a block, init_groups returns EMPI_SUCCESS and a well-formed table.
pub init_groups-IsTable :
    (my_pid : ℕ) (block : Group)
    → let r = init_groups (some block) in (r.0 ≡ ok tt) × IsTable my_pid r.1
unfolding init_groups found
init_groups-IsTable my_pid block = (
  refl,
  record {
    next = (omega arith, omega arith);
    empty = (_, refl, refl);
    entries = λ k g h. entry k g (Bool-cases (k == group_empty)) h;
    handles = λ k g le h. absurd (later k g le h);
    free = λ k le. rw (other k le) refl;
  },
)
  where
    first : Group
    first = record block { size = 0; rank = negsuc 0; members = [] }

    other : (k : ℕ) → 2 ≤ k → (k == group_empty) ≡ false
    other k le = ground arith

    later :
        (k : ℕ) (g : Group) → 2 ≤ k → (if k == group_empty then some first else none) ≡ some g → ⊥
    later k g le h = none≢some (sym (rw (other k le) refl) ∙ h)

    entry :
        (k : ℕ) (g : Group)
        → ((k == group_empty) ≡ true) ⊎ ((k == group_empty) ≡ false)
        → (if k == group_empty then some first else none) ≡ some g
        → IsGroup my_pid g
    entry k g (inl same) h =
        subst (IsGroup my_pid) (some-injective (sym (test_true same) ∙ h)) (refl, (refl, refl))
      where
        test_true : {b : Bool} → b ≡ true → (if b then some first else none) ≡ some first
        test_true e = rw e refl
    entry k g (inr other') h = absurd (none≢some (sym (test_false other') ∙ h))
      where
        test_false : {b : Bool} → b ≡ false → (if b then some first else none) ≡ none
        test_false e = rw e refl

-- In a well-formed table the handle of a group that handle_to_group finds is the handle it was found
-- by, for every group but EMPI_GROUP_EMPTY.
pub handle_to_group_roundtrip :
    (my_pid : ℕ) (s : Groups) (handle : ℤ) (g : Group)
    → IsTable my_pid s
    → handle ≢ pos 0
    → handle ≢ pos group_empty
    → handle_to_group s handle ≡ some g
    → group_to_handle (some g) ≡ handle
unfolding handle_to_group group_to_handle
handle_to_group_roundtrip my_pid s (negsuc k) g t no_null no_empty h = absurd (none≢some h)
handle_to_group_roundtrip my_pid s (pos k) g t no_null no_empty h =
    elim (Bool-cases (leb max_groups k)) [
      | inl beyond ↦ absurd (none≢some (sym (rw beyond refl) ∙ h))
      | inr within ↦
          t.handles k g (two k (λ e. no_null (ap pos e)) (λ e. no_empty (ap pos e)))
            (sym (rw within refl) ∙ h)
    ]
  where
    two : (n : ℕ) → n ≢ 0 → n ≢ 1 → 2 ≤ n
    two n a b = ground arith

-- In a well-formed table group_comm_group, on a communicator with members in which this process has
-- the rank `global_rank`, puts a well-formed group with the members of the communicator into the
-- table and leaves all other groups alone; or, if there is no room, returns EMPI_ERR_INTERN and
-- leaves all groups alone. The table stays well-formed.
pub group_comm_group-Copies :
    (my_pid : ℕ) (mem : Mallocs) (global_rank : ℤ) (members : List ℕ) (s : Groups)
    → IsTable my_pid s
    → RankOf my_pid members global_rank
    → MadeBy my_pid s
        (room mem (pos (length members)) s)
        (λ g. g.members ≡ members)
        (λ e. ⊥)
        (group_comm_group mem (some (global_rank, members)) s)
unfolding group_comm_group
group_comm_group-Copies my_pid mem global_rank members s t h =
    fill_group-Makes my_pid s t mem (pos (length members)) _ _ _
      (λ g empty. ((refl, h), refl, refl, refl))
