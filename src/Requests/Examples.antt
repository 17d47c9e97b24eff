-- ===== src/Requests/Examples.antt =====
-- A request that takes the second entry of the table.
use e_salsa_mpi.Prelude.{◌==◌, if◌then◌else◌, true, false, none, some, ◌≡◌, refl, pos}
use e_salsa_mpi.Requests.Defs.{
  Call, Table, request_of, create_request, add_request, find_free, request_get_comm,
  handle_to_request,
}
use e_salsa_mpi.Requests.Laws.{Creates, create_request-Creates}

abbrev call : Call
call = record {
  flags = record {
    active = true;
    persistent = false;
    completed = false;
    local = false;
    send = false;
    receive = true;
    unpacked = false;
  };
  buf = 4096;
  count = pos 8;
  type = 1;
  dest = pos 2;
  tag = pos 5;
  comm = pos 0;
}

abbrev one_request : Table
one_request j = if j == 0 then some (request_of call (pos 0)) else none

create_request-Creates_example :
    Creates true call one_request (create_request true call one_request)
create_request-Creates_example = create_request-Creates true call one_request

second_entry : (create_request true call one_request).0 ≡ some 1
unfolding create_request add_request find_free
second_entry = refl

default_comm : request_get_comm (some (pos 7)) (pos 3) one_request ≡ pos 3
unfolding request_get_comm handle_to_request
default_comm = refl
