-- ===== src/Gateway/Examples.antt =====
-- Two messages of a peer, one of them a header only, that arrive in four pieces.
use e_salsa_mpi.Prelude.{ℕ, true, List, [], ◌∷◌, ◌≡◌, refl, arith}
use e_salsa_mpi.Gateway.Socket.{ready, peer, init_socket_info, length_field}
use e_salsa_mpi.Gateway.Read.{
  Memory, Socket, Outcome, returned, invalid, nonblock_read_message, nonblock_read_messages, fill,
  fill_null, read_null, started, started_at, read_full, read_filled, grown, queue_message,
}
use e_salsa_mpi.Gateway.Assembly.{joined, AllMessages}
use e_salsa_mpi.Gateway.Messages.{KeptBy, init_socket_info-Assembles, nonblock_read_messages-Keeps}

-- There is memory.
abbrev memory : Memory
memory = record { header = λ n. true; node = λ n. true; realloc = λ n. true }

abbrev short : List ℕ
short = 50 ∷ 0 ∷ 0 ∷ 0 ∷ 1 ∷ 0 ∷ 0 ∷ 0 ∷ 2 ∷ 0 ∷ 0 ∷ 0 ∷ 16 ∷ 0 ∷ 0 ∷ 0 ∷ []

abbrev long : List ℕ
long = 50 ∷ 0 ∷ 0 ∷ 0 ∷ 1 ∷ 0 ∷ 0 ∷ 0 ∷ 2 ∷ 0 ∷ 0 ∷ 0 ∷ 20 ∷ 0 ∷ 0 ∷ 0 ∷ 7 ∷ 8 ∷ 9 ∷ 10 ∷ []

abbrev two : List (List ℕ)
two = long ∷ short ∷ []

two-AllMessages : AllMessages peer two
unfolding length_field
two-AllMessages = ((omega arith, refl), ((omega arith, refl), tt))

abbrev arriving : Socket
arriving = record { events = ready 4 ∷ ready 99 ∷ ready 1 ∷ ready 99 ∷ []; stream = joined two }

nonblock_read_messages-Keeps_example :
    KeptBy two (nonblock_read_messages memory 2 (init_socket_info peer) arriving)
nonblock_read_messages-Keeps_example =
    nonblock_read_messages-Keeps memory (λ k. refl) 0 two (init_socket_info peer) arriving
      (init_socket_info-Assembles peer two two-AllMessages)

abbrev queue_of : Outcome → List (List ℕ)
queue_of (returned r) = r.info.in_queue
queue_of _ = []

first_message :
    queue_of (nonblock_read_message memory 2 (init_socket_info peer) arriving) ≡ long ∷ []
unfolding nonblock_read_message fill fill_null read_null started started_at read_full read_filled
    grown queue_message init_socket_info length_field
first_message = refl

-- A header with a length of 8 makes the block of the header smaller than a header, and the next
-- lines read behind it.
abbrev cut : List ℕ
cut = 50 ∷ 0 ∷ 0 ∷ 0 ∷ 1 ∷ 0 ∷ 0 ∷ 0 ∷ 2 ∷ 0 ∷ 0 ∷ 0 ∷ 8 ∷ 0 ∷ 0 ∷ 0 ∷ []

short_length :
    nonblock_read_message memory 2
      (init_socket_info peer)
      (record { events = ready 99 ∷ []; stream = cut })
    ≡ invalid
unfolding nonblock_read_message fill fill_null read_null started started_at read_full read_filled
    grown queue_message init_socket_info length_field
short_length = refl
