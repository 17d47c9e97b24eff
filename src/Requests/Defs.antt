-- ===== src/Requests/Defs.antt =====
-- src/backend/request.c: the table of requests.
--
-- A `request *` is the index of its entry in the table `reqs`. Pointers to buffers, datatypes and
-- MPI's own requests are numbers that the code only passes on; a communicator is its handle.
use e_salsa_mpi.Prelude.{
  ℕ, zero, suc, ◌==◌, leb, if◌then◌else◌, Bool, true, false, Option, none, some, ℤ, pos, negsuc,
}
use e_salsa_mpi.Codes.{max_requests, Result, ok}
use e_salsa_mpi.Messaging.Defs.{DataMessage}

-- The flags REQUEST_FLAG_ are Booleans.
pub record RequestFlags : Type 0 where
  pub active : Bool
  pub persistent : Bool
  pub completed : Bool
  pub local : Bool
  pub send : Bool
  pub receive : Bool
  pub unpacked : Bool

-- The arguments of create_request.
pub record Call : Type 0 where
  pub flags : RequestFlags
  pub buf : ℕ
  pub count : ℤ
  pub type : ℕ
  pub dest : ℤ
  pub tag : ℤ
  pub comm : ℤ

-- `req` is `none` for MPI_REQUEST_NULL. `message` is `none` until messaging_probe_receive sets it; the
-- code does not read it before.
pub record Request : Type 0 where
  pub flags : RequestFlags
  pub buf : ℕ
  pub type : ℕ
  pub count : ℤ
  pub source_or_dest : ℤ
  pub tag : ℤ
  pub comm : ℤ
  pub error : Result (Unit {0})
  pub handle : ℤ
  pub req : Option ℕ
  pub message : Option DataMessage

abbrev pub Table : Type 0
Table = ℕ → Option Request

abbrev pub put : Table → ℕ → Option Request → Table
put reqs k r j = if j == k then r else reqs j

-- The loop that looks for a free entry, from `i` on for `n` rounds.
abbrev pub free_entry : (ℕ → Option ℕ) → ℕ → Option Request → Option ℕ
free_entry go i none = some i
free_entry go i (some r) = go (suc i)

unfoldable pub find_free : Table → ℕ → ℕ → Option ℕ
find_free reqs zero i = none
find_free reqs (suc n) i = free_entry (find_free reqs n) i (reqs i)

-- `none` is -1.
abbrev pub add_at : Table → Request → Option ℕ → Option ℕ × Table
add_at reqs req none = (none, reqs)
add_at reqs req (some i) = (some i, put reqs i (some req))

unfoldable pub add_request : Request → Table → Option ℕ × Table
add_request req reqs = add_at reqs req (find_free reqs max_requests 0)

-- The table after `r->handle = add_request(r)`, and the pointer that is returned, `none` for NULL.
abbrev pub set_handle : Request → Option ℕ × Table → Option ℕ × Table
set_handle r (none, reqs) = (none, reqs)
set_handle r (some i, reqs) = (some i, put reqs i (some (record r { handle = pos i })))

abbrev pub request_of : Call → ℤ → Request
request_of c handle = record {
  flags = c.flags;
  buf = c.buf;
  type = c.type;
  count = c.count;
  source_or_dest = c.dest;
  tag = c.tag;
  comm = c.comm;
  error = ok tt;
  handle = handle;
  req = none;
  message = none;
}

-- The first argument is whether malloc gives a block. The handle is not set before add_request.
unfoldable pub create_request : Bool → Call → Table → Option ℕ × Table
create_request false c reqs = (none, reqs)
create_request true c reqs =
    set_handle (request_of c (negsuc 0)) (add_request (request_of c (negsuc 0)) reqs)

-- `reqs[handle] = NULL` for a handle of the table.
abbrev pub clear : ℤ → Table → Table
clear (pos k) reqs = put reqs k none
clear (negsuc k) reqs = reqs

-- The MPI request that PMPI_Request_free is called on, if it is, and the table.
unfoldable pub free_request : Option Request → Table → Option ℕ × Table
free_request none reqs = (none, reqs)
free_request (some r) reqs = (r.req, clear r.handle reqs)

unfoldable pub handle_to_request : ℤ → Table → Option Request
handle_to_request (pos k) reqs = if leb max_requests k then none else reqs k
handle_to_request (negsuc k) reqs = none

unfoldable pub request_to_handle : Option Request → ℤ
request_to_handle none = negsuc 0
request_to_handle (some r) = r.handle

abbrev pub comm_of : ℤ → Option Request → ℤ
comm_of def none = def
comm_of def (some r) = r.comm

-- The first argument is the handle that the caller's pointer points to, `none` for NULL.
unfoldable pub request_get_comm : Option ℤ → ℤ → Table → ℤ
request_get_comm none def reqs = def
request_get_comm (some handle) def reqs = comm_of def (handle_to_request handle reqs)
