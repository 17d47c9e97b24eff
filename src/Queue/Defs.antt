-- ===== src/Queue/Defs.antt =====
-- src/backend/message_queue.c: a singly linked list of `message_info` nodes with a head and a tail
-- pointer. A pointer is an `Option`, NULL is `none`. A function returns `none` (a fault) where the
-- C code would follow a pointer that is NULL or points to no node. `malloc` is a parameter: its
-- result, NULL or an address, is an argument of `message_enqueue`.
use Prim.Native.Nat.{ℕ, zero, suc}
use e_salsa_mpi.Prelude.{◌==◌, if◌then◌else◌, Bool, true, false, Option, none, some, ℤ, pos, negsuc}

abbrev pub Ptr : Type 0
Ptr = Option ℕ

-- the test `p == q` on pointers
abbrev pub ptr_eq : Ptr → Ptr → Bool
ptr_eq none none = true
ptr_eq none (some b) = false
ptr_eq (some a) none = false
ptr_eq (some a) (some b) = a == b

-- `message_info`; what a message is does not matter to the queue.
pub record MessageInfo (M : Type 0) : Type 0 where
  pub next : Ptr
  pub message : M

abbrev pub Heap : Type 0 → Type 0
Heap M = ℕ → Option (MessageInfo M)

unfoldable pub write : {M : Type 0} → Heap M → ℕ → Option (MessageInfo M) → Heap M
write h p c a = if a == p then c else h a

-- `message_queue`, with the memory that its nodes live in.
pub record MessageQueue (M : Type 0) : Type 0 where
  pub head : Ptr
  pub tail : Ptr
  pub heap : Heap M

infixl 5 ◌>>=◌
abbrev pub ◌>>=◌ : {A B : Type 0} → Option A → (A → Option B) → Option B
none >>= f = none
some a >>= f = f a

module _ {M : Type 0} where
  -- `*p`
  abbrev pub load : Heap M → Ptr → Option (MessageInfo M)
  load h none = none
  load h (some a) = h a

  -- `p->next = n`
  abbrev pub set_next : Heap M → Ptr → Ptr → Option (Heap M)
  set_next h none n = none
  set_next h (some a) n = do info ← h a; some (write h a (some (record info { next = n })))

  -- `free(p)`
  abbrev pub free : Heap M → Ptr → Option (Heap M)
  free h none = some h
  free h (some a) = do info ← h a; some (write h a none)

  -- The argument is the pointer `q`.
  unfoldable pub message_queue_init : Option (MessageQueue M) → ℤ × Option (MessageQueue M)
  message_queue_init none = (negsuc 0, none)
  message_queue_init (some q) = (pos 0, some (record q { head = none; tail = none }))

  -- `info` is what malloc returned.
  unfoldable pub message_enqueue : Option ℕ → M → MessageQueue M → Option (ℤ × MessageQueue M)
  message_enqueue none m q = some (negsuc 0, q)
  message_enqueue (some info) m q =
      let h : Heap M = write q.heap info (some (record { next = none; message = m })) in
      elim q.head [
        | none ↦ some (pos 0, record { head = some info; tail = some info; heap = h })
        | some _ ↦ do
          h' ← set_next h q.tail (some info)
          some (pos 0, record q { tail = some info; heap = h' })
      ]

  -- The message is `none` where the code returns NULL.
  unfoldable pub message_dequeue : MessageQueue M → Option (Option M × MessageQueue M)
  message_dequeue q = elim q.head [
    | none ↦ some (none, q)
    | some current ↦ do
      info ← load q.heap (some current)
      let rest =
          (if ptr_eq (some current) q.tail
            then record q { head = none; tail = none }
            else record q { head = info.next })
      h ← free q.heap (some current)
      some (some info.message, record rest { heap = h })
  ]

  unfoldable pub message_queue_empty : MessageQueue M → Bool
  message_queue_empty q = ptr_eq q.head none

  -- The three branches that take the node `curr`, behind the node `prev`, out of the list.
  unfoldable pub unlink : Ptr → Ptr → MessageInfo M → MessageQueue M → Option (MessageQueue M)
  unlink prev curr info q =
      if ptr_eq curr q.head
      then some (
          if ptr_eq q.head q.tail
          then record q { head = none; tail = none }
          else record q { head = info.next })
      else if ptr_eq curr q.tail
      then set_next q.heap prev none >>= (λ h. some (record q { tail = prev; heap = h }))
      else set_next q.heap prev info.next >>= (λ h. some (record q { heap = h }))

  -- The body of the loop's `if`: the node `c` leaves the list and is freed, its message is returned.
  unfoldable pub take_out :
      Ptr → ℕ → MessageInfo M → MessageQueue M → Option (Option M × MessageQueue M)
  unfolding unlink
  take_out prev c info q = do
    q' ← unlink prev (some c) info q
    h ← set_next q'.heap (some c) none
    h' ← free h (some c)
    some (some info.message, record q' { heap = h' })

  -- The `while` loop, with fuel for its rounds.
  unfoldable pub dequeue_loop :
      (M → Bool) → ℕ → Ptr → Ptr → MessageQueue M → Option (Option M × MessageQueue M)
  dequeue_loop test fuel prev none q = some (none, q)
  dequeue_loop test zero prev (some c) q = none
  dequeue_loop test (suc fuel) prev (some c) q = do
    info ← load q.heap (some c)
    let further = dequeue_loop test fuel (some c) info.next q
    if test info.message then take_out prev c info q else further

  -- data_message_dequeue_matching from the head pointer on: an empty queue has no match.
  unfoldable pub dequeue_from :
      (M → Bool) → ℕ → Ptr → MessageQueue M → Option (Option M × MessageQueue M)
  dequeue_from test fuel none q = some (none, q)
  dequeue_from test fuel (some c) q = dequeue_loop test fuel none (some c) q

  -- `test` is `match_message` at the caller's comm, source and tag.
  unfoldable pub dequeue_matching :
      (M → Bool) → ℕ → MessageQueue M → Option (Option M × MessageQueue M)
  unfolding dequeue_from
  dequeue_matching test fuel q = dequeue_from test fuel q.head q
