-- ===== src/Groups/Examples.antt =====
-- The process with pid 11 makes groups from one of the processes 10, 11 and 12.
use e_salsa_mpi.Prelude.{true, false, none, some, [], ◌∷◌, take, ◌≡◌, refl, arith, pos, negsuc}
use e_salsa_mpi.Codes.{err_rank}
use e_salsa_mpi.Groups.Defs.{
  Group, Groups, Mallocs, init_groups, handle_to_group, group_comm_group, group_incl, group_union,
  found, create_group, add_group, fill_group, fill_result,
}
use e_salsa_mpi.Groups.Table.{IsGroup, IsTable, MadeBy, room}
use e_salsa_mpi.Groups.Incl.{select, group_incl-Selects}
use e_salsa_mpi.Groups.Union.{group_union-Joins}
use e_salsa_mpi.Groups.Range.{
  overflow, past_end, get_range, range_loops, forward_range, made, group_range_incl,
  group_translate_ranks,
}
use e_salsa_mpi.Groups.RangeIncl.{group_range_incl-group_incl}
use e_salsa_mpi.Groups.Init.{init_groups-IsTable, group_comm_group-Copies}
use e_salsa_mpi.Groups.Translate.{group_translate_ranks_past_end}

abbrev block : Group
block = record { handle = pos 77; rank = pos 5; size = 9; members = [] }

abbrev memory : Mallocs
memory = record { temporary = true; block = some block; array = true }

abbrev three : Group
three = record { handle = pos 2; rank = pos 1; size = 3; members = 10 ∷ 11 ∷ 12 ∷ [] }

abbrev other : Group
other = record { handle = pos 3; rank = negsuc 0; size = 2; members = 12 ∷ 14 ∷ [] }

three-IsGroup : IsGroup 11 three
three-IsGroup = (omega arith, refl)

other-IsGroup : IsGroup 11 other
unfolding found
other-IsGroup = (omega arith, (refl, refl))

abbrev start : Groups
unfolding init_groups
start = (init_groups (some block)).1

start-IsTable : IsTable 11 start
unfolding init_groups
start-IsTable = (init_groups-IsTable 11 block).1

group_incl-Selects_example :
    MadeBy 11 start
      (room memory (pos 2) start)
      (λ g. select (10 ∷ 11 ∷ 12 ∷ []) (take 2 (pos 2 ∷ pos 0 ∷ [])) ≡ some g.members)
      (λ e. (e ≡ err_rank) × (select (10 ∷ 11 ∷ 12 ∷ []) (take 2 (pos 2 ∷ pos 0 ∷ [])) ≡ none))
      (group_incl 11 memory (some three) (pos 2) (pos 2 ∷ pos 0 ∷ []) start)
group_incl-Selects_example =
    group_incl-Selects 11 memory three (pos 2) (pos 2 ∷ pos 0 ∷ []) start start-IsTable
      three-IsGroup (omega arith)

group_union-Joins_example :
    MadeBy 11 start
      (room memory (pos 4) start)
      (λ g. g.members ≡ 10 ∷ 11 ∷ 12 ∷ 14 ∷ [])
      (λ e. ⊥)
      (group_union 11 memory three other start)
group_union-Joins_example =
    group_union-Joins 11 memory three other start start-IsTable three-IsGroup other-IsGroup refl

group_range_incl-group_incl_example :
    group_range_incl 11 memory (some three) ((pos 0, pos 2, pos 2) ∷ []) start
    ≡ made (group_incl 11 memory (some three) (pos 2) (pos 0 ∷ pos 2 ∷ []) start)
group_range_incl-group_incl_example =
    group_range_incl-group_incl three 11 memory ((pos 0, pos 2, pos 2) ∷ []) (0 ∷ 2 ∷ []) start
      (omega arith) refl
      (
        0,
        (
          2,
          0 ∷ 2 ∷ [],
          [],
          refl,
          refl,
          omega arith,
          omega arith,
          omega arith,
          (omega arith, (1, refl, omega arith, omega arith)),
          refl,
          refl,
        ),
      )
      (omega arith)

abbrev world : Groups
unfolding group_comm_group fill_group create_group add_group fill_result init_groups
world = (group_comm_group memory (some (pos 1, 10 ∷ 11 ∷ 12 ∷ [])) start).1

world-IsTable : IsTable 11 world
unfolding group_comm_group fill_group create_group add_group fill_result init_groups
world-IsTable =
    (group_comm_group-Copies 11 memory (pos 1) (10 ∷ 11 ∷ 12 ∷ []) start start-IsTable refl).0

stored_group_found : handle_to_group world (pos 2) ≡ some three
unfolding handle_to_group group_comm_group fill_group create_group add_group fill_result init_groups
stored_group_found = refl

-- A stride that takes the index beyond the largest int.
stride_overflow : get_range three [] (pos 1) (pos 1) (pos 2147483647) ≡ overflow
unfolding get_range range_loops forward_range
stride_overflow = refl

absent_14 : found 10 (12 ∷ 14 ∷ []) ≡ false
unfolding found
absent_14 = refl

group_translate_ranks_past_end_example : group_translate_ranks three (pos 0 ∷ []) other ≡ past_end
group_translate_ranks_past_end_example =
    group_translate_ranks_past_end 11 three other 0 [] other-IsGroup (omega arith) (omega arith)
      absent_14
