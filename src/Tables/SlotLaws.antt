-- ===== src/Tables/SlotLaws.antt =====
-- src/backend/info.c and src/backend/file.c: no entry in use is ever overwritten.
use e_salsa_mpi.Prelude.{
  ℕ, zero, suc, ◌+◌, ◌≤◌, ◌<◌, ltb, leb, tests, if◌then◌else◌, Bool, true, false, Option, none,
  some, ◌≡◌, ◌≢◌, ◌⊎◌, inl, inr, refl, arith, ne→==,
}
use e_salsa_mpi.Tables.Slots.{Entry, Slots, put_slot, free_or, find_slot, pick, place, add_slot}

-- The entries from `next` on have never been used, `next` is in bounds, and every entry holds its index.
pub record IsSlots {P : Type 0} (max : ℕ) (s : Slots P) : Type 0 where
  pub bound : s.next ≤ max
  pub unused : (j : ℕ) → s.next ≤ j → s.entries j ≡ none
  pub numbered : (j : ℕ) (e : Entry P) → s.entries j ≡ some e → e.handle ≡ j

-- What a search over `n` entries from `i` on finds: a free entry, or that none is free.
abbrev pub Finds : {P : Type 0} → (ℕ → Option (Entry P)) → ℕ → ℕ → Option ℕ → Type 0
Finds entries n i none = (j : ℕ) → i ≤ j → j < i + n → entries j ≢ none
Finds entries n i (some k) = (i ≤ k) × (k < i + n) × (entries k ≡ none)

-- What an addition does: it gives a free entry the content, or there is no content, the table is full, or
-- there is no memory.
abbrev pub Adds : {P : Type 0} → ℕ → Bool → Option P → Slots P → Option ℕ × Slots P → Type 0
Adds max memory content s (none, s') =
    ((j : ℕ) → s'.entries j ≡ s.entries j)
    × (s'.next ≡ s.next)
    × ((content ≡ none) ⊎ (memory ≡ false) ⊎ ((j : ℕ) → j < max → s.entries j ≢ none))
Adds {P} max memory content s (some k, s') =
    (k < max)
    × (s.entries k ≡ none)
    × ((p : P) × (content ≡ some p) × (s'.entries k ≡ some (record { handle = k; content = p })))
    × ((j : ℕ) → j ≢ k → s'.entries j ≡ s.entries j)
    × IsSlots max s'

module _ {P : Type 0} where
  pub find_slot-Finds :
      (entries : ℕ → Option (Entry P)) (n i : ℕ) → Finds entries n i (find_slot entries n i)
  unfolding find_slot
  find_slot-Finds entries zero i = λ j p q. absurd (omega arith)
  find_slot-Finds entries (suc n) i =
      by (entries i) refl (find_slot entries n (suc i)) (find_slot-Finds entries n (suc i))
    where
      further :
          (e : Entry P)
          → entries i ≡ some e
          → (o : Option ℕ) → Finds entries n (suc i) o
          → Finds entries (suc n) i o
      further e used none h = λ j p q. grind (tests, h j)
      further e used (some k) (p, q, r) = (omega arith, omega arith, r)

      by :
          (x : Option (Entry P))
          → entries i ≡ x
          → (o : Option ℕ) → Finds entries n (suc i) o
          → Finds entries (suc n) i (free_or (λ j. o) i x)
      by none e o h = (omega arith, omega arith, e)
      by (some x) e o h = further x e o h

  -- What `pick` gives: a free entry that is not behind the first unused one, or a table that is full.
  Picks : ℕ → Slots P → Option ℕ → Type 0
  Picks max s none = (j : ℕ) → j < max → s.entries j ≢ none
  Picks max s (some k) = (k < max) × (k ≤ s.next) × (s.entries k ≡ none)

  pick-Picks : (max : ℕ) (s : Slots P) → IsSlots max s → Picks max s (pick max s)
  unfolding Picks
  pick-Picks max s h =
      by (ltb s.next max) refl (find_slot s.entries max 0) (find_slot-Finds s.entries max 0)
    where
      by :
          (b : Bool)
          → ltb s.next max ≡ b
          → (o : Option ℕ) → Finds s.entries max 0 o
          → Picks max s (if b then some s.next else o)
      by true e o f = (ground (arith, e), omega arith, h.unused s.next (omega arith))
      by false e none f = λ j p. f j (omega arith) (omega arith)
      by false e (some k) (p, q, r) =
          let full : max ≤ s.next = ground (arith, e) in (omega arith, omega (arith, full), r)

  place-Adds :
      (max : ℕ) (memory : Bool) (p : P) (s : Slots P) (o : Option ℕ)
      → IsSlots max s
      → Picks max s o
      → Adds max memory (some p) s (place max memory p s o)
  unfolding Picks
  place-Adds max memory p s none h full = ((λ j. refl), refl, inr (inr full))
  place-Adds max false p s (some k) h (below, near, free) =
      ((λ j. grind (tests, free)), refl, inr (inl refl))
  place-Adds max true p s (some k) h (below, near, free) = (
    below,
    free,
    (p, refl, grind tests),
    (λ j ne. grind tests),
    record {
      bound = ground (arith, below, near, h.bound);
      unused = λ j e. behind j e (h.unused j);
      numbered = λ j e f. grind (tests, h.numbered j e);
    },
  )
    where
      behind :
          (j : ℕ)
          → (if leb s.next k then suc s.next else s.next) ≤ j
          → (s.next ≤ j → s.entries j ≡ none)
          → put_slot s.entries k (some (record { handle = k; content = p })) j ≡ none
      behind j e u =
          let past : s.next ≤ j = ground (arith, e) in
          let other : j ≢ k = λ same. ground (arith, e, same, near) in rw (ne→== j k other) (u past)

-- add_info and add_file, also on MPI's null handle, on a well-formed table: the new entry is one
-- that was free and holds its handle and the content, no other entry changes, and the table is
-- well-formed; or NULL is returned, the table is left alone, and the content is the null handle,
-- there is no memory, or every entry is in use.
pub add_slot-Adds :
    {P : Type 0} (max : ℕ) (memory : Bool) (content : Option P) (s : Slots P)
    → IsSlots max s
    → Adds max memory content s (add_slot max memory content s)
unfolding add_slot
add_slot-Adds max memory none s h = ((λ j. refl), refl, inl refl)
add_slot-Adds max memory (some p) s h =
    place-Adds max memory p s (pick max s) h (pick-Picks max s h)
