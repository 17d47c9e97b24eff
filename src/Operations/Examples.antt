-- ===== src/Operations/Examples.antt =====
-- The first user-defined operation, and the first one behind the table.
use e_salsa_mpi.Prelude.{true, none, ◌≡◌, refl}
use e_salsa_mpi.Codes.{max_operations}
use e_salsa_mpi.Operations.Defs.{
  Operations, Outcome, done, init_all, init_operation, init_operations, Created, create_operation,
}
use e_salsa_mpi.Operations.Laws.{IsTable, Creates, create_operation-Creates, init_operations-Keeps}

abbrev nothing : Operations
nothing = record { ops = λ j. none; next_operation = 0 }

abbrev table_of : Outcome → Operations
table_of (done r s) = s
table_of Outcome.fault = nothing

abbrev start : Operations
unfolding init_operations init_all init_operation
start = table_of (init_operations (λ k. true) (λ k. k) (λ k. k) nothing)

start-IsTable : IsTable start
unfolding init_operations init_all init_operation
start-IsTable = init_operations-Keeps (λ k. true) (λ k. k) (λ k. k) nothing

next_start : start.next_operation ≡ 13
unfolding start
next_start = refl

create_operation-Creates_example :
    Creates true 7 8 true start (create_operation true 7 8 true start)
create_operation-Creates_example = create_operation-Creates true 7 8 true start start-IsTable

behind_table :
    create_operation true 7 8 true (record { ops = λ j. none; next_operation = max_operations })
    ≡ Created.fault
unfolding create_operation init_operation
behind_table = refl
