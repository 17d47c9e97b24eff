-- ===== src/Calls/Laws.antt =====
-- src/backend/empi.c: the communicators that a split and a duplication register.
use e_salsa_mpi.Prelude.{
  ℕ, ◌≤◌, ◌<◌, leb, ltb, if◌then◌else◌, true, false, none, some, List, ℤ, pos, negsuc, ◌≡◌, refl,
  ap, ap₂, subst, sym, ◌∙◌, arith, ltb_ℤ, ◌≢◌, eq→==, ne→==, ◌==ℤ◌, pos_part,
}
use e_salsa_mpi.Codes.{Result, ok, err, undefined, max_communicators}
use e_salsa_mpi.Communicator.Defs.{
  Communicator, Table, put, set_fields, add_communicator, create_communicator,
  handle_to_communicator,
}
use e_salsa_mpi.Communicator.Laws.{Stored, set_fields-Stored}
use e_salsa_mpi.Wire.Words.{Access, value, ◌>>=◌}
use e_salsa_mpi.Wire.Replies.{SplitReply, write_split_reply, messaging_comm_split_receive}
use mathlib.Core.Option.{some-injective}
use e_salsa_mpi.Wire.Requests.{Sent, messaging_comm_split_send, send_server_request}
use e_salsa_mpi.Wire.Layout.{kept}
use e_salsa_mpi.Wire.Arrays.{of_members}
use e_salsa_mpi.Wire.RoundTrip.{undisturbed, IsSplitReply, comm_reply_of, split_reply-roundtrip}
use e_salsa_mpi.Calls.Defs.{
  flags_of, entries, Registry, created, register, of_result, after_request,
}
use e_salsa_mpi.Calls.Split.{
  SplitCalls, split_new, split_named, split_locally, split_found, comm_split,
}

-- A handle that the server may give to a new communicator: it is not reserved, it is in the table, and
-- no communicator has it.
pub record IsFree (comms : Table) (k : ℕ) : Type 0 where
  pub not_reserved : 3 ≤ k
  pub below : k < max_communicators
  pub entry : comms k ≡ none

-- The table with a new communicator, as add_communicator fills its fields.
abbrev pub with_new : ℕ → ℕ → ℕ → Communicator → Table → Table
with_new cluster_rank garbage k c comms = put comms k (some (set_fields cluster_rank garbage k c))

pub create_communicator-new :
    (cluster_rank garbage k : ℕ) (c : Communicator) (comms : Table)
    → IsFree comms k
    → create_communicator cluster_rank (some garbage) (pos k) c comms
      ≡ (ok k, with_new cluster_rank garbage k c comms)
unfolding create_communicator add_communicator
create_communicator-new cluster_rank garbage k c comms h = rw (within, usual, h.entry) refl
  where
    within : leb max_communicators k ≡ false
    within = ground (arith, h.below)

    usual : ltb k 3 ≡ false
    usual = ground (arith, h.not_reserved)

-- A split in which the calls of MPI and malloc succeed: the reply is the server's message, and
-- PMPI_Comm_split gives the communicator `tmp` of the given rank and size.
pub record Succeeds (calls : SplitCalls) (words : List ℕ) (color key : ℤ) (tmp rank size : ℕ)
    : Type 0 where
  pub sent : calls.send_error ≡ 0
  pub replied : calls.receive ≡ undisturbed words
  pub memory : calls.memory ≡ (λ i. true)
  pub made : calls.comm_split color key ≡ ok (some tmp)
  pub rank_of : calls.comm_rank ≡ ok rank
  pub size_of : calls.comm_size ≡ ok size

-- The communicator that the server describes in its reply, with an MPI communicator, the rank in it and
-- its size. The arrays hold the 32-bit words of the server's numbers.
abbrev pub reply_communicator : ℕ → ℕ → ℕ → SplitReply → Communicator
reply_communicator tmp rank size r = record {
  handle = negsuc 0;
  comm = tmp;
  flags = flags_of r.flags;
  local_rank = rank;
  local_size = size;
  global_rank = pos_part r.rank;
  global_size = r.distribution.size;
  cluster_count = r.distribution.cluster_count;
  my_coordinator = 0;
  coordinators = kept r.distribution.cluster_count r.distribution.coordinators;
  cluster_sizes = kept r.distribution.cluster_count r.distribution.cluster_sizes;
  members = entries (of_members r.distribution.size r.distribution.members);
  cluster_ranks = kept r.distribution.cluster_count r.distribution.cluster_ranks;
  member_cluster_index =
      entries (of_members r.distribution.size r.distribution.member_cluster_index);
  local_ranks = entries (of_members r.distribution.size r.distribution.local_ranks);
}

-- What split_locally gives for this reply.
split_locally-made :
    (calls : SplitCalls) (words : List ℕ) (r : SplitReply) (n tmp rank size : ℕ)
    → r.color ≡ pos n
    → Succeeds calls words r.color r.key tmp rank size
    → split_locally calls (comm_reply_of r)
      ≡ value (some (r.new_comm, reply_communicator tmp rank size r))
unfolding split_locally
split_locally-made calls words r n tmp rank size positive s =
    ap
      (λ b.
        of_result (calls.comm_split (if b then undefined else r.color) (if b then pos 0 else r.key))
        >>= split_new calls (comm_reply_of r))
      not_away
    ∙ ap (λ x. of_result x >>= split_new calls (comm_reply_of r)) s.made
    ∙ ap₂ (split_named (comm_reply_of r) tmp) s.rank_of s.size_of
  where
    not_away : ltb_ℤ r.color (pos 0) ≡ false
    not_away = rw positive (ground arith)

-- The request for a split is sent where PMPI_Send succeeds.
split_send-ok :
    (calls : SplitCalls) (c : Communicator) (color key : ℤ)
    → calls.send_error ≡ 0
    → (messaging_comm_split_send calls.send_error calls.ids c color key).1 ≡ ok tt
unfolding messaging_comm_split_send send_server_request
split_send-ok calls c color key e = rw e refl

-- What a call receives of the server's message.
receive-split :
    (calls : SplitCalls) (words : List ℕ) (r : SplitReply) (tmp rank size : ℕ)
    → IsSplitReply r
    → write_split_reply r ≡ some words
    → Succeeds calls words r.color r.key tmp rank size
    → messaging_comm_split_receive calls.mpi_err_intern calls.receive calls.memory
      ≡ value (comm_reply_of r)
receive-split calls words r tmp rank size h written s =
    by (split_reply-roundtrip calls.mpi_err_intern r h)
  where
    by :
        (words' : List ℕ) × (write_split_reply r ≡ some words')
          × (messaging_comm_split_receive calls.mpi_err_intern (undisturbed words') (λ _. true)
              ≡ value (comm_reply_of r))
        → messaging_comm_split_receive calls.mpi_err_intern calls.receive calls.memory
          ≡ value (comm_reply_of r)
    by (words', written', e) =
        ap (λ v. messaging_comm_split_receive calls.mpi_err_intern v calls.memory)
          (s.replied ∙ ap undisturbed (some-injective words words' (sym written ∙ written')))
        ∙ ap (messaging_comm_split_receive calls.mpi_err_intern (undisturbed words')) s.memory
        ∙ e

abbrev IsOk : Result (Unit {0}) → Type 0
IsOk (ok u) = Unit {0}
IsOk (err e) = ⊥

pub after_request-ok :
    {A : Type 0} (sent : Sent) (next : Access A) → sent.1 ≡ ok tt → after_request sent next ≡ next
after_request-ok (buf, ok u) next e = refl
after_request-ok (buf, err c) next e = absurd (subst IsOk (sym e) tt)

-- A call that gives `result` and puts one new communicator into the table, which holds `given`.
abbrev pub Registers : {A : Type 0} → ℕ → ℕ → Communicator → Table → A → A × Table → Type 0
Registers cluster_rank k given comms result outcome =
    (s : Communicator) × Stored cluster_rank k given s
    × (handle_to_communicator (pos k) outcome.1 ≡ some s)
    × ((j : ℕ) → j ≢ k → outcome.1 j ≡ comms j)
    × (outcome.0 ≡ result)

pub with_new-Registers :
    {A : Type 0} (cluster_rank garbage k : ℕ) (given : Communicator) (comms : Table) (result : A)
    → k < max_communicators
    → Registers cluster_rank k given comms result
        (result, with_new cluster_rank garbage k given comms)
unfolding handle_to_communicator
with_new-Registers cluster_rank garbage k given comms result h = (
  set_fields cluster_rank garbage k given,
  set_fields-Stored cluster_rank garbage k given,
  rw (within k h, eq→== k k refl) refl,
  (λ j ne. rw (ne→== j k ne) refl),
  refl,
)
  where
    within : (n : ℕ) → n < max_communicators → leb max_communicators n ≡ false
    within n lt = ground arith

-- EMPI_Comm_split on a communicator of the table, for a reply of the server with a color that is not
-- negative, where SplitReply.write gives the message that is received, the number of the new
-- communicator is at least 3, below MAX_COMMUNICATORS and not in use, and the calls of MPI and malloc
-- succeed: `*newcomm` is this number, and in the table it is the communicator with the reply's rank,
-- size, flags and arrays, the MPI communicator that PMPI_Comm_split gives on the reply's color and key,
-- and the coordinator of the own cluster. Nothing else in the table changes.
pub comm_split-Registers :
    (calls : SplitCalls) (cluster_rank garbage : ℕ) (comms : Table) (comm color key : ℤ)
    (c : Communicator) (r : SplitReply) (words : List ℕ) (k n tmp rank size : ℕ)
    → handle_to_communicator comm comms ≡ some c
    → IsSplitReply r
    → write_split_reply r ≡ some words
    → r.new_comm ≡ pos k
    → r.color ≡ pos n
    → IsFree comms k
    → Succeeds calls words r.color r.key tmp rank size
    → Registers cluster_rank k (reply_communicator tmp rank size r) comms (value (pos k)) (
        comm_split calls
          (record { cluster_rank = cluster_rank; malloc = some garbage; comms = comms })
          comm
          color
          key)
unfolding comm_split register
comm_split-Registers calls cluster_rank garbage comms comm color key c r words k n tmp rank size
      found h written number positive free s =
    subst (Registers cluster_rank k (reply_communicator tmp rank size r) comms (value (pos k)))
      (sym made)
      (with_new-Registers cluster_rank garbage k (reply_communicator tmp rank size r) comms
        (value (pos k)) free.below)
  where
    reg : Registry
    reg = record { cluster_rank = cluster_rank; malloc = some garbage; comms = comms }

    sent_color : ℤ
    sent_color = if color ==ℤ calls.mpi_undefined then negsuc 0 else color

    sent_key : ℤ
    sent_key = if color ==ℤ calls.mpi_undefined then negsuc 0 else key

    made : comm_split calls reg comm color key ≡ (
      value (pos k),
      with_new cluster_rank garbage k (reply_communicator tmp rank size r) comms,
    )
    made =
        ap (split_found calls reg color key) found
        ∙ ap (register reg) (
            after_request-ok
              (messaging_comm_split_send calls.send_error calls.ids c sent_color sent_key) _
              (split_send-ok calls c sent_color sent_key s.sent)
            ∙ ap (λ x. x >>= split_locally calls)
                (receive-split calls words r tmp rank size h written s)
            ∙ split_locally-made calls words r n tmp rank size positive s)
        ∙ ap
            (λ m. created (
              create_communicator cluster_rank (some garbage) m (reply_communicator tmp rank size r)
                comms))
            number
        ∙ ap created (
            create_communicator-new cluster_rank garbage k (reply_communicator tmp rank size r)
              comms free)
