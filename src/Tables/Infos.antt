-- ===== src/Tables/Infos.antt =====
-- src/backend/info.c and src/backend/file.c. An MPI_Info and an MPI_File are numbers.
use e_salsa_mpi.Prelude.{ℕ, Bool, Option, ℤ}
use e_salsa_mpi.Codes.{max_infos}
use e_salsa_mpi.Tables.Slots.{
  Entry, Slots, init_slots, handle_to_slot, slot_to_handle, add_slot, remove_slot,
}

abbrev pub Infos : Type 0
Infos = Slots ℕ

-- A file holds its communicator, by its handle, and MPI's file.
abbrev pub Files : Type 0
Files = Slots (ℤ × ℕ)

abbrev pub max_files : ℕ
max_files = 64

abbrev pub init_infos : Infos → Infos
init_infos = init_slots max_infos

abbrev pub handle_to_info : Infos → ℤ → Option (Entry ℕ)
handle_to_info = handle_to_slot max_infos

abbrev pub info_to_handle : Option (Entry ℕ) → ℤ
info_to_handle = slot_to_handle max_infos

abbrev pub add_info : Bool → Option ℕ → Infos → Option ℕ × Infos
add_info = add_slot max_infos

abbrev pub remove_info : ℤ → Infos → Infos
remove_info = remove_slot max_infos

abbrev pub init_files : Files → Files
init_files = init_slots max_files

abbrev pub handle_to_file : Files → ℤ → Option (Entry (ℤ × ℕ))
handle_to_file = handle_to_slot max_files

abbrev pub file_to_handle : Option (Entry (ℤ × ℕ)) → ℤ
file_to_handle = slot_to_handle max_files

abbrev pub add_file : Bool → Option (ℤ × ℕ) → Files → Option ℕ × Files
add_file = add_slot max_files

abbrev pub remove_file : ℤ → Files → Files
remove_file = remove_slot max_files
