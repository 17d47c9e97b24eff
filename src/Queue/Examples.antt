-- ===== src/Queue/Examples.antt =====
-- A queue of numbers, its nodes at the addresses 5, 6 and 7.
use Prim.Native.Nat.{ℕ}
use e_salsa_mpi.Prelude.{
  ◌==◌, if◌then◌else◌, none, some, List, [], ◌∷◌, ◌≡◌, refl, arith, pos, negsuc,
}
use e_salsa_mpi.Queue.Defs.{
  MessageQueue, message_enqueue, message_dequeue, dequeue_matching, dequeue_from, dequeue_loop,
  take_out, write,
}
use e_salsa_mpi.Queue.Spec.{take_first, take_oldest}
use e_salsa_mpi.Queue.Chain.{node}
use e_salsa_mpi.Queue.Fifo.{Holds}
use e_salsa_mpi.Queue.Session.{
  Call, put, get, match, code, message, Allocates, replies, session, session_refines,
}

abbrev empty : MessageQueue ℕ
empty = record { head = none; tail = none; heap = λ _. none }

abbrev three : MessageQueue ℕ
three = record {
  head = some 5;
  tail = some 7;
  heap = λ a.
      if a == 5
      then some (node 10 (some 6))
      else if a == 6
      then some (node 20 (some 7))
      else if a == 7
      then some (node 30 none)
      else none;
}

three-Holds : Holds three (10 ∷ 20 ∷ 30 ∷ [])
three-Holds = (
  (5, 10) ∷ (6, 20) ∷ (7, 30) ∷ [],
  record { head_is = refl; tail_is = refl; chain = (refl, refl, (refl, refl, (refl, refl, tt))) },
  refl,
)

abbrev script : List (Call ℕ)
script =
    put (some 5) 10
    ∷ put none 11
    ∷ put (some 6) 20
    ∷ put (some 7) 30
    ∷ match (λ m. m == 20)
    ∷ get
    ∷ match (λ m. m == 99)
    ∷ []

script-Allocates : Allocates 9 empty script
unfolding message_enqueue message_dequeue dequeue_matching dequeue_from dequeue_loop take_out write
script-Allocates = (refl, (refl, (refl, tt)))

session_refines_example :
    session 9 empty script
    ≡ some (
        code (pos 0)
        ∷ code (negsuc 0)
        ∷ code (pos 0)
        ∷ code (pos 0)
        ∷ message (some 20)
        ∷ message (some 10)
        ∷ message none
        ∷ [])
unfolding replies take_first take_oldest
session_refines_example =
    session_refines 9 empty [] script
      ([], record { head_is = refl; tail_is = refl; chain = tt }, refl) script-Allocates
      (omega arith)
