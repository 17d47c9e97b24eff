-- ===== src/Groups/Table.antt =====
-- The invariant of the table of groups, and what every operation that makes a group does to it.
use e_salsa_mpi.Prelude.{
  ℕ, zero, suc, ◌≤◌, ◌<◌, ◌==◌, ltb, leb, eq→==, ne→==, ==→eq, Bool, true, false, ◌&&◌, Option,
  none, some, List, [], ◌∷◌, length, get_elem?, ◌≡◌, ◌≢◌, ◌⊎◌, ◌∙◌, refl, sym, ap, subst, inl, inr,
  arith, ℤ, pos, negsuc, pos_part, Bool-cases,
}
use e_salsa_mpi.Codes.{Code, err_intern, Result, ok, err, max_groups}
use e_salsa_mpi.Groups.Defs.{
  Group, Groups, group_empty, set_group, add_group, Mallocs, create_group, create_block,
  create_added, delete_group, Made, fill_group, fill_result, found,
}

-- `rank` is the rank of `pid` among the members, -1 if it is not there.
abbrev pub RankOf : ℕ → List ℕ → ℤ → Type 0
RankOf pid ms (pos r) = get_elem? ms r ≡ some pid
RankOf pid ms (negsuc r) = (r ≡ 0) × (found pid ms ≡ false)

-- A well-formed group in the process `my_pid`.
abbrev pub IsGroup : ℕ → Group → Type 0
IsGroup my_pid g = (g.size ≡ length g.members) × RankOf my_pid g.members g.rank

-- EMPI_GROUP_EMPTY exists and has no members, every group is well-formed and knows its entry, and
-- the entries from `next_group` on are free.
pub record IsTable (my_pid : ℕ) (s : Groups) : Type 0 where
  pub next : (2 ≤ s.next_group) × (s.next_group ≤ max_groups)
  pub empty : (g : Group) × (s.groups group_empty ≡ some g) × (g.members ≡ [])
  pub entries : (k : ℕ) (g : Group) → s.groups k ≡ some g → IsGroup my_pid g
  pub handles : (k : ℕ) (g : Group) → 2 ≤ k → s.groups k ≡ some g → g.handle ≡ pos k
  pub free : (k : ℕ) → s.next_group ≤ k → s.groups k ≡ none

-- Is there a place and memory for a group of `n` members?
abbrev pub room : Mallocs → ℤ → Groups → Bool
room mem (negsuc n) s = false
room mem (pos zero) s = true
room mem (pos (suc n)) s =
    (elim mem.block [ none ↦ false | some g ↦ true ]) && mem.array && ltb s.next_group max_groups

-- The lines that fill a group make a well-formed one of `n` members with the property `Q`, or fail
-- with an error that has the property `F`.
abbrev pub Filled : ℕ → ℕ → (Group → Type 0) → (Code → Type 0) → Group → Result Group → Type 0
Filled my_pid n Q F g (ok g') =
    IsGroup my_pid g' × (length g'.members ≡ n) × (g'.handle ≡ g.handle) × Q g'
Filled my_pid n Q F g (err e) = (0 < n) × F e

abbrev pub Fills : ℕ → ℕ → (Group → Type 0) → (Code → Type 0) → (Group → Result Group) → Type 0
Fills my_pid n Q F f = (g : Group) → g.members ≡ [] → Filled my_pid n Q F g (f g)

-- What an operation does: it puts one well-formed group with the property `Q` into the table, or it
-- leaves the groups of the table and fails, for want of room or with the property `F`.
abbrev pub MadeBy : ℕ → Groups → Bool → (Group → Type 0) → (Code → Type 0) → Made → Type 0
MadeBy my_pid s fits Q F (ok k, s') =
    IsTable my_pid s'
    × ((g : Group) × (s'.groups k ≡ some g) × Q g)
    × ((j : ℕ) → j ≢ k → s'.groups j ≡ s.groups j)
MadeBy my_pid s fits Q F (err e, s') =
    IsTable my_pid s'
    × (((e ≡ err_intern) × (fits ≡ false)) ⊎ F e)
    × ((j : ℕ) → s'.groups j ≡ s.groups j)

set_group_same : (s : Groups) (k : ℕ) (o : Option Group) → (set_group s k o).groups k ≡ o
set_group_same s k o = rw (eq→== k k refl) refl

set_group_other :
    (s : Groups) (k j : ℕ) (o : Option Group) → j ≢ k → (set_group s k o).groups j ≡ s.groups j
set_group_other s k j o h = rw (ne→== j k h) refl

delete_group-set : (k : ℕ) (s : Groups) → 2 ≤ k → delete_group k s ≡ set_group s k none
unfolding delete_group
delete_group-set k s h = rw (ne→== k group_empty (omega arith)) refl

none≢some : {g : Group} → none ≢ some g
none≢some e = cc

some-injective : {g g' : Group} → some g ≡ some g' → g ≡ g'
some-injective e = cc

module _ (my_pid : ℕ) (s : Groups) (t : IsTable my_pid s) where
  -- The table with a well-formed group at the first free entry.
  added-IsTable :
      (s' : Groups) (g : Group)
      → s'.next_group ≡ suc s.next_group
      → s.next_group < max_groups
      → s'.groups s.next_group ≡ some g
      → g.handle ≡ pos s.next_group
      → IsGroup my_pid g
      → ((j : ℕ) → j ≢ s.next_group → s'.groups j ≡ s.groups j)
      → IsTable my_pid s'
  added-IsTable s' g n lt at handle wf other =
      let (e, he, me) = t.empty in
      record {
        next = (omega (arith, t.next.0), omega arith);
        empty = (e, other group_empty (omega (arith, t.next.0)) ∙ he, me);
        entries = λ k g' h.
            split k
              (λ same.
                subst (IsGroup my_pid) (some-injective (sym at ∙ ap s'.groups (sym same) ∙ h)) wf)
              (λ ne. t.entries k g' (sym (other k ne) ∙ h));
        handles = λ k g' le h.
            split k
              (λ same.
                ap (λ (x : Group). x.handle) (some-injective (sym h ∙ ap s'.groups same ∙ at))
                ∙ handle
                ∙ ap pos (sym same))
              (λ ne. t.handles k g' le (sym (other k ne) ∙ h));
        free = λ k le. other k (omega (arith, n)) ∙ t.free k (omega (arith, n));
      }
    where
      split : {A : Type 0} (k : ℕ) → (k ≡ s.next_group → A) → (k ≢ s.next_group → A) → A
      split k f g' = elim (Bool-cases (k == s.next_group)) [
        | inl same ↦ f (ground arith)
        | inr other' ↦ g' (ground arith)
      ]

  -- The table after a change of EMPI_GROUP_EMPTY that leaves it well-formed and without members.
  emptied-IsTable :
      (g : Group)
      → IsGroup my_pid g
      → g.members ≡ []
      → IsTable my_pid (set_group s group_empty (some g))
  emptied-IsTable g wf none_in = record {
    next = t.next;
    empty = (g, set_group_same s group_empty (some g), none_in);
    entries = λ k g' h. elim (Bool-cases (k == group_empty)) [
      | inl same ↦
          subst (IsGroup my_pid)
            (some-injective (
              sym (set_group_same s group_empty (some g))
              ∙ ap (set_group s group_empty (some g)).groups (sym (==→eq k group_empty same))
              ∙ h))
            wf
      | inr other ↦
          t.entries k g' (sym (set_group_other s group_empty k (some g) (ground arith)) ∙ h)
    ];
    handles = λ k g' le h.
        t.handles k g' le (sym (set_group_other s group_empty k (some g) (omega arith)) ∙ h);
    free = λ k le. set_group_other s group_empty k (some g) (omega (arith, t.next.0)) ∙ t.free k le;
  }

  -- Filling EMPTY, which create_group gives for no members.
  empty-Filled :
      (fits : Bool) (Q : Group → Type 0) (F : Code → Type 0) (e : Group) (r : Result Group)
      → Filled my_pid 0 Q F e r
      → MadeBy my_pid s fits Q F (fill_result s group_empty r)
  unfolding fill_result
  empty-Filled fits Q F e (ok g) (wf, len, h, q) = (
    emptied-IsTable g wf (no_members g.members len),
    (g, set_group_same s group_empty (some g), q),
    λ j ne. set_group_other s group_empty j (some g) ne,
  )
    where
      no_members : (ms : List ℕ) → length ms ≡ 0 → ms ≡ []
      no_members [] l = refl
      no_members (m ∷ ms) l = absurd (omega arith)
  empty-Filled fits Q F e (err c) (pos_n, f) = absurd (omega arith)

  -- The table with the same groups, and perhaps fewer entries left.
  same-IsTable :
      (s' : Groups)
      → s.next_group ≤ s'.next_group
      → s'.next_group ≤ max_groups
      → ((j : ℕ) → s'.groups j ≡ s.groups j)
      → IsTable my_pid s'
  same-IsTable s' le most same =
      let (e, he, me) = t.empty in
      record {
        next = (omega (arith, t.next.0), most);
        empty = (e, same group_empty ∙ he, me);
        entries = λ k g h. t.entries k g (sym (same k) ∙ h);
        handles = λ k g le' h. t.handles k g le' (sym (same k) ∙ h);
        free = λ k le'. same k ∙ t.free k (omega arith);
      }

  deleted_same :
      (s' : Groups)
      → ((j : ℕ) → j ≢ s.next_group → s'.groups j ≡ s.groups j)
      → (j : ℕ) → (set_group s' s.next_group none).groups j ≡ s.groups j
  deleted_same s' other j = elim (Bool-cases (j == s.next_group)) [
    | inl here ↦ rw here (sym (t.free j (omega (arith, ==→eq j s.next_group here))))
    | inr there ↦ rw there (other j (ground arith))
  ]

  -- Filling a group at the first free entry.
  new-Filled :
      (fits : Bool) (n : ℕ) (Q : Group → Type 0) (F : Code → Type 0) (g : Group) (r : Result Group)
      → s.next_group < max_groups
      → g.handle ≡ pos s.next_group
      → Filled my_pid n Q F g r
      → (s' : Groups) → s'.next_group ≡ suc s.next_group
      → ((j : ℕ) → j ≢ s.next_group → s'.groups j ≡ s.groups j)
      → MadeBy my_pid s fits Q F (fill_result s' s.next_group r)
  unfolding fill_result
  new-Filled fits n Q F g (ok g') lt at (wf, len, h, q) s' nx other =
      let here = set_group_same s' s.next_group (some g') in
      let rest : (j : ℕ)
          → j ≢ s.next_group
          → (set_group s' s.next_group (some g')).groups j ≡ s.groups j =
        λ j ne. set_group_other s' s.next_group j (some g') ne ∙ other j ne in
      (
        added-IsTable (set_group s' s.next_group (some g')) g' nx lt here (h ∙ at) wf rest,
        (g', here, q),
        rest,
      )
  new-Filled fits n Q F g (err c) lt at (pos_n, f) s' nx other =
      rw (delete_group-set s.next_group s' t.next.0) (
        same-IsTable (set_group s' s.next_group none) (omega (arith, nx)) (omega (arith, nx))
            (deleted_same s' other),
        inr f,
        deleted_same s' other,
      )

  added-Filled :
      (n : ℕ) (Q : Group → Type 0) (F : Code → Type 0) (f : Group → Result Group) (g : Group)
      → Fills my_pid n Q F f
      → MadeBy my_pid s
          (ltb s.next_group max_groups)
          Q
          F
          (fill_group (create_added s g (add_group s g)) f)
  unfolding fill_group add_group
  added-Filled n Q F f g fills = elim (Bool-cases (leb max_groups s.next_group)) [
    | inl no_entry ↦ rw no_entry (t, inl (refl, ground arith), λ j. refl)
    | inr entry ↦
        let new : Group = record g { handle = pos s.next_group; members = [] } in
        rw (entry, eq→== s.next_group s.next_group refl)
          (new-Filled (ltb s.next_group max_groups) n Q F new (f new) (ground arith) refl
            (fills new refl) _ refl λ j ne. rw (ne→== j s.next_group ne) refl)
  ]

  -- Creating a group of `n` members and filling it.
  pub fill_group-Makes :
      (mem : Mallocs) (n : ℤ) (Q : Group → Type 0) (F : Code → Type 0) (f : Group → Result Group)
      → Fills my_pid (pos_part n) Q F f
      → MadeBy my_pid s (room mem n s) Q F (fill_group (create_group mem n s) f)
  unfolding fill_group create_group
  fill_group-Makes mem (negsuc n) Q F f fills = (t, inl (refl, refl), λ j. refl)
  fill_group-Makes mem (pos zero) Q F f fills =
      let (e, he, me) = t.empty in rw (he) (rw (he) (empty-Filled true Q F e (f e) (fills e me)))
  fill_group-Makes mem (pos (suc n)) Q F f fills = block_case mem.block refl
    where
      fits : Option Group → Bool
      fits o = (elim o [ none ↦ false | some g ↦ true ]) && mem.array && ltb s.next_group max_groups

      made_from : Option Group → Made
      made_from o = fill_group (create_block mem s o) f

      block_case : (o : Option Group) → mem.block ≡ o → MadeBy my_pid s (fits o) Q F (made_from o)
      block_case none e = (t, inl (refl, refl), λ j. refl)
      block_case (some g) e = elim (Bool-cases mem.array) [
        | inl array ↦ rw array (added-Filled (suc n) Q F f g fills)
        | inr no_array ↦ rw no_array (t, inl (refl, refl), λ j. refl)
      ]
