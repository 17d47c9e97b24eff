-- ===== src/Operations/Laws.antt =====
-- Creating operations.
use e_salsa_mpi.Prelude.{
  ℕ, suc, ◌≤◌, ◌<◌, ◌==◌, eq→==, ne→==, ==→eq, ltb, leb, ltb→lt, if◌then◌else◌, Bool, true, false,
  Option, none, some, List, [], ◌∷◌, ◌≡◌, ◌≢◌, ◌⊎◌, ◌∙◌, refl, sym, ap, inl, inr, arith, pos,
  Bool-cases,
}
use e_salsa_mpi.Codes.{ok, err, max_operations}
use e_salsa_mpi.Operations.Defs.{
  Operation, Operations, Outcome, done, store, init_entry, init_operation, init_all,
  init_operations, predefined, and_then, handle_to_operation, operation_to_handle, Created, created,
  returned, create_operation,
}

-- The entries from next_operation on are free, and every operation knows its handle.
pub record IsTable (s : Operations) : Type 0 where
  pub free : (k : ℕ) → s.next_operation ≤ k → s.ops k ≡ none
  pub handles : (k : ℕ) (o : Operation) → s.ops k ≡ some o → o.handle ≡ pos k

none≢some : {o : Operation} → none ≢ some o
none≢some e = cc

some-injective : {o o' : Operation} → some o ≡ some o' → o ≡ o'
some-injective e = cc

store-IsTable :
    (s : Operations) (k : ℕ) (o : Operation) → IsTable s → o.handle ≡ pos k → IsTable (store k o s)
store-IsTable s k o t h = record {
  free = λ j le. rw (ne→== j k (beyond j le)) (t.free j (later j le));
  handles = λ j o' e. entry j o' e (Bool-cases (j == k));
}
  where
    later :
        (j : ℕ)
        → (if leb s.next_operation k then suc k else s.next_operation) ≤ j
        → s.next_operation ≤ j
    later j le = ground arith

    beyond : (j : ℕ) → (if leb s.next_operation k then suc k else s.next_operation) ≤ j → j ≢ k
    beyond j le = ground arith

    hit : {b : Bool} (x : Option Operation) → b ≡ true → (if b then some o else x) ≡ some o
    hit x e = rw e refl

    miss : {b : Bool} (x : Option Operation) → b ≡ false → (if b then some o else x) ≡ x
    miss x e = rw e refl

    entry :
        (j : ℕ) (o' : Operation)
        → (store k o s).ops j ≡ some o'
        → ((j == k) ≡ true) ⊎ ((j == k) ≡ false)
        → o'.handle ≡ pos j
    entry j o' e (inl same) =
        ap (λ (x : Operation). x.handle) (some-injective (sym e ∙ hit _ same))
        ∙ h
        ∙ ap pos (sym (==→eq j k same))
    entry j o' e (inr other) = t.handles j o' (sym (miss _ other) ∙ e)

-- What a call of create_operation does.
abbrev pub Creates : Bool → ℕ → ℕ → Bool → Operations → Created → Type 0
Creates malloc function op commute s (created (some k) s') =
    (k ≡ s.next_operation)
    × (k < max_operations)
    × IsTable s'
    × ((o : Operation) × (handle_to_operation (pos k) s' ≡ some o)
        × (operation_to_handle (some o) ≡ pos k)
        × (o.function ≡ function)
        × (o.op ≡ op)
        × (o.commute ≡ commute))
    × (s'.next_operation ≡ suc k)
    × ((j : ℕ) → j ≢ k → s'.ops j ≡ s.ops j)
Creates malloc function op commute s (created none s') =
    IsTable s'
    × ((malloc ≡ false) ⊎ (max_operations < s.next_operation))
    × ((j : ℕ) → s'.ops j ≡ s.ops j)
Creates malloc function op commute s Created.fault = s.next_operation ≡ max_operations

-- In a well-formed table create_operation puts an operation with the given function, MPI operation
-- and commute flag into the entry next_operation, where handle_to_operation finds it by its
-- handle, counts it, and leaves all other entries alone; or, if malloc gives no memory or
-- next_operation is above MAX_OPERATIONS, it returns NULL and leaves all entries alone. In both
-- cases the table stays well-formed. If next_operation is MAX_OPERATIONS, it accesses the table
-- behind its end.
pub create_operation-Creates :
    (malloc : Bool) (function op : ℕ) (commute : Bool) (s : Operations)
    → IsTable s
    → Creates malloc function op commute s (create_operation malloc function op commute s)
unfolding create_operation init_operation handle_to_operation operation_to_handle
create_operation-Creates malloc function op commute s t =
    elim (Bool-cases (ltb max_operations s.next_operation)) [
      | inl above ↦
          rw above (counted, inr (ltb→lt max_operations s.next_operation above), λ j. refl)
      | inr within ↦ elim (Bool-cases (s.next_operation == max_operations)) [
        | inl full ↦ rw (within, full) (==→eq s.next_operation max_operations full)
        | inr place ↦
            rw (within, place, t.free s.next_operation (omega arith)) (entry malloc within place)
      ]
    ]
  where
    one_more : Operations
    one_more = record s { next_operation = suc s.next_operation }

    counted : IsTable one_more
    counted = record { free = λ k le. t.free k (omega arith); handles = t.handles }

    below :
        (n : ℕ) → ltb max_operations n ≡ false → (n == max_operations) ≡ false → n < max_operations
    below n h k = ground arith

    inside : (n : ℕ) → n < max_operations → leb max_operations n ≡ false
    inside n h = ground arith

    counted_once : (n : ℕ) → (if leb (suc n) n then suc n else suc n) ≡ suc n
    counted_once n = ground arith

    new : Operation
    new = record { handle = pos s.next_operation; function = function; commute = commute; op = op }

    entry :
        (m : Bool)
        → ltb max_operations s.next_operation ≡ false
        → (s.next_operation == max_operations) ≡ false
        → Creates m function op commute s
            (returned s.next_operation (init_entry m s.next_operation new one_more none))
    entry false within place = (counted, inl refl, λ j. refl)
    entry true within place = (
      refl,
      below s.next_operation within place,
      store-IsTable one_more s.next_operation new counted refl,
      (
        new,
        rw
            (
              inside s.next_operation (below s.next_operation within place),
              eq→== s.next_operation s.next_operation refl,
            )
            refl,
        refl,
        refl,
        refl,
        refl,
      ),
      counted_once s.next_operation,
      λ j ne. rw (ne→== j s.next_operation ne) refl,
    )

-- No fault, and the table is well-formed.
abbrev pub Keeps : Outcome → Type 0
Keeps (done r s) = IsTable s
Keeps Outcome.fault = ⊥

init_entry-Keeps :
    (m : Bool) (k : ℕ) (o : Operation) (s : Operations) (x : Option Operation)
    → IsTable s
    → o.handle ≡ pos k
    → Keeps (init_entry m k o s x)
init_entry-Keeps m k o s (some old) t h = t
init_entry-Keeps false k o s none t h = t
init_entry-Keeps true k o s none t h = store-IsTable s k o t h

init_operation-Keeps :
    (m : Bool) (k function op : ℕ) (s : Operations)
    → k < max_operations
    → IsTable s
    → Keeps (init_operation m (pos k) function op true s)
unfolding init_operation
init_operation-Keeps m k function op s h t =
    rw (not_above k h, ne→== k max_operations (omega arith))
      (init_entry-Keeps m k _ s (s.ops k) t refl)
  where
    not_above : (n : ℕ) → n < max_operations → ltb max_operations n ≡ false
    not_above n h' = ground arith

abbrev AllBelow : List ℕ → Type 0
AllBelow [] = Unit {0}
AllBelow (k ∷ ks) = (k < max_operations) × AllBelow ks

init_all-Keeps :
    (malloc : ℕ → Bool) (function op : ℕ → ℕ) (ks : List ℕ) (s : Operations)
    → AllBelow ks
    → IsTable s
    → Keeps (init_all malloc function op ks s)
unfolding init_all
init_all-Keeps malloc function op [] s b t = t
init_all-Keeps malloc function op (k ∷ ks) s (lt, b) t =
    continue (init_operation (malloc k) (pos k) (function k) (op k) true s)
      (init_operation-Keeps (malloc k) k (function k) (op k) s lt t)
      (λ s' t'. init_all-Keeps malloc function op ks s' b t')
  where
    continue :
        (o : Outcome)
        → Keeps o
        → ((s' : Operations) → IsTable s' → Keeps (init_all malloc function op ks s'))
        → Keeps (and_then o (init_all malloc function op ks))
    continue (done (ok _) s') h further = further s' h
    continue (done (err e) s') h further = h
    continue Outcome.fault h further = h

-- init_operations, whatever malloc gives, does not access the table behind its end, and leaves a
-- well-formed table.
pub init_operations-Keeps :
    (malloc : ℕ → Bool) (function op : ℕ → ℕ) (s : Operations)
    → Keeps (init_operations malloc function op s)
unfolding init_operations
init_operations-Keeps malloc function op s =
    init_all-Keeps malloc function op predefined _
      (
        omega arith,
        (
          omega arith,
          (
            omega arith,
            (
              omega arith,
              (
                omega arith,
                (
                  omega arith,
                  (
                    omega arith,
                    (
                      omega arith,
                      (omega arith, (omega arith, (omega arith, (omega arith, (omega arith, tt))))),
                    ),
                  ),
                ),
              ),
            ),
          ),
        ),
      )
      (record { free = λ k le. refl; handles = λ k o e. absurd (none≢some e) })
