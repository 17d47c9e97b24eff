-- ===== src/Tables/Examples.antt =====
-- The first entry of an empty table.
use e_salsa_mpi.Prelude.{true, none, some, ◌≡◌, refl, arith, pos}
use e_salsa_mpi.Tables.Slots.{add_slot, remove_slot, handle_to_slot}
use e_salsa_mpi.Tables.Infos.{Infos, add_info, handle_to_info, remove_info}
use e_salsa_mpi.Tables.Datatypes.{add_datatype, handle_to_datatype}
use e_salsa_mpi.Tables.DatatypeLaws.{Derives, add_datatype-Derives}
use e_salsa_mpi.Tables.SlotLaws.{IsSlots, Adds, add_slot-Adds}

abbrev empty : Infos
empty = record { entries = λ j. none; next = 0 }

empty-IsSlots : IsSlots 64 empty
empty-IsSlots = record { bound = omega arith; unused = λ j h. refl; numbered = λ j e h. cc }

add_slot-Adds_example : Adds 64 true (some 9) empty (add_slot 64 true (some 9) empty)
add_slot-Adds_example = add_slot-Adds 64 true (some 9) empty empty-IsSlots

removed : handle_to_info (remove_info (pos 0) (add_info true (some 9) empty).1) (pos 0) ≡ none
unfolding handle_to_slot remove_slot add_slot
removed = refl

add_datatype-Derives_example : Derives true 5 (λ j. none) (add_datatype true 5 (λ j. none))
add_datatype-Derives_example = add_datatype-Derives true 5 (λ j. none)

-- The handle that is one too large.
behind_table : handle_to_datatype (pos 10240) (λ j. none) ≡ none
unfolding handle_to_datatype
behind_table = refl
