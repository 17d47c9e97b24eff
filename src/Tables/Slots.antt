-- ===== src/Tables/Slots.antt =====
-- src/backend/info.c and src/backend/file.c: a table of handles with a counter of the entries that were
-- never used, which the two files have alike. Infos names its operations for each of them.
--
-- A pointer to an entry is the entry's index.
use e_salsa_mpi.Prelude.{
  ℕ, zero, suc, ltb, leb, ◌==◌, if◌then◌else◌, Bool, true, false, Option, none, some, ℤ, pos,
  negsuc,
}

-- An entry's `handle`, and what else it holds.
pub record Entry (P : Type 0) : Type 0 where
  pub handle : ℕ
  pub content : P

pub record Slots (P : Type 0) : Type 0 where
  pub entries : ℕ → Option (Entry P)
  pub next : ℕ

abbrev pub put_slot :
    {P : Type 0} → (ℕ → Option (Entry P)) → ℕ → Option (Entry P) → ℕ → Option (Entry P)
put_slot entries k e j = if j == k then e else entries j

-- The search for a free entry from `i` on, for `n` rounds.
abbrev pub free_or : {P : Type 0} → (ℕ → Option ℕ) → ℕ → Option (Entry P) → Option ℕ
free_or go i none = some i
free_or go i (some e) = go (suc i)

unfoldable pub find_slot : {P : Type 0} → (ℕ → Option (Entry P)) → ℕ → ℕ → Option ℕ
find_slot entries zero i = none
find_slot entries (suc n) i = free_or (find_slot entries n) i (entries i)

module _ {P : Type 0} (max : ℕ) where
  -- The static variables at the start, and behind the function.
  unfoldable pub init_slots : Slots P → Slots P
  init_slots s = record s { entries = λ j. if ltb j max then none else s.entries j }

  unfoldable pub handle_to_slot : Slots P → ℤ → Option (Entry P)
  handle_to_slot s (pos k) = if leb max k then none else s.entries k
  handle_to_slot s (negsuc k) = none

  -- `none` for NULL gives the null handle, -1.
  unfoldable pub slot_to_handle : Option (Entry P) → ℤ
  slot_to_handle none = negsuc 0
  slot_to_handle (some e) = pos e.handle

  abbrev pub pick : Slots P → Option ℕ
  pick s = if ltb s.next max then some s.next else find_slot s.entries max 0

  -- The new entry; `memory` is whether malloc gives it.
  abbrev pub place : Bool → P → Slots P → Option ℕ → Option ℕ × Slots P
  place memory p s none = (none, s)
  place false p s (some k) = (none, record s { entries = put_slot s.entries k none })
  place true p s (some k) = (
    some k,
    record {
      entries = put_slot s.entries k (some (record { handle = k; content = p }));
      next = if leb s.next k then suc s.next else s.next;
    },
  )

  -- A content of `none` is MPI's null handle.
  unfoldable pub add_slot : Bool → Option P → Slots P → Option ℕ × Slots P
  add_slot memory none s = (none, s)
  add_slot memory (some p) s = place memory p s (pick s)

  abbrev pub free_at : ℕ → Slots P → Option (Entry P) → Slots P
  free_at k s none = s
  free_at k s (some e) = record s { entries = put_slot s.entries k none }

  unfoldable pub remove_slot : ℤ → Slots P → Slots P
  remove_slot (negsuc k) s = s
  remove_slot (pos k) s = if leb max k then s else free_at k s (s.entries k)
