-- ===== src/Groups/Union.antt =====
-- group_union.
use e_salsa_mpi.Prelude.{
  ℕ, ◌+◌, ◌==◌, ltb, if◌then◌else◌, Bool, true, false, not, ◌&&◌, List, [], ◌∷◌, ◌++◌, length,
  take-length, append-nil, append_assoc, ◌≡◌, ◌∙◌, refl, sym, ap, subst, inl, inr, arith, ℤ, pos,
  negsuc, ◌==ℤ◌, Bool-cases,
}
use e_salsa_mpi.Codes.{ok}
use e_salsa_mpi.Groups.Defs.{
  Group, Groups, Mallocs, members_of, union_loop, union_members, union_rank, group_union, found,
  fill_group, create_group,
}
use e_salsa_mpi.Groups.Table.{RankOf, IsGroup, IsTable, MadeBy, room, fill_group-Makes}
use e_salsa_mpi.Groups.Members.{RankOf-append, get_elem?-append_some}

abbrev absent : ℕ → List ℕ → Bool
absent m [] = true
absent m (x ∷ xs) = not (x == m) && absent m xs

-- The second list without what the first one has.
abbrev pub without : List ℕ → List ℕ → List ℕ
without first [] = []
without first (m ∷ ms) = if absent m first then m ∷ without first ms else without first ms

found-absent : (m : ℕ) (xs : List ℕ) → found m xs ≡ not (absent m xs)
unfolding found
found-absent m [] = refl
found-absent m (x ∷ xs) = ground (arith, found-absent m xs)

found-append_without :
    (pid : ℕ) (first ms xs : List ℕ)
    → found pid xs ≡ false
    → found pid ms ≡ false
    → found pid (xs ++ without first ms) ≡ false
unfolding found
found-append_without pid first ms [] h k = go ms k
  where
    go : (ys : List ℕ) → found pid ys ≡ false → found pid (without first ys) ≡ false
    go [] k' = refl
    go (y ∷ ys) k' = ground (arith, go ys)
found-append_without pid first ms (x ∷ xs) h k =
    ground (arith, found-append_without pid first ms xs)

pos-no_rank : (k : ℕ) → (pos k ==ℤ negsuc 0) ≡ false
pos-no_rank k = ground arith

module _ (my_pid : ℕ) where
  union_loop-members :
      (first second : List ℕ) (rank : ℤ) (members : List ℕ)
      → (union_loop my_pid first second rank members).1 ≡ members ++ without first second
  unfolding union_loop
  union_loop-members first [] rank members = sym (append-nil members)
  union_loop-members first (m ∷ ms) rank members = elim (Bool-cases (absent m first)) [
    | inl new ↦
        rw (found-absent m first, new)
          (union_loop-members first ms _ (members ++ m ∷ [])
            ∙ append_assoc members (m ∷ []) (without first ms))
    | inr old ↦ rw (found-absent m first, old) (union_loop-members first ms rank members)
  ]

  union_loop-RankOf :
      (first second : List ℕ) (rank : ℤ) (members : List ℕ)
      → RankOf my_pid members rank
      → let u = union_loop my_pid first second rank members in RankOf my_pid u.1 u.0
  unfolding union_loop
  union_loop-RankOf first [] rank members h = h
  union_loop-RankOf first (m ∷ ms) rank members h = elim (Bool-cases (found m first)) [
    | inl old ↦ rw old (union_loop-RankOf first ms rank members h)
    | inr new ↦
        rw new
          (union_loop-RankOf first ms _ (members ++ m ∷ []) (RankOf-append my_pid m members rank h))
  ]

  -- The rank that the code chooses is that of this process in the union.
  union_rank-RankOf :
      (first second : List ℕ) (r₁ r₂ : ℤ)
      → RankOf my_pid first r₁
      → RankOf my_pid second r₂
      → let u = union_loop my_pid first second (negsuc 0) first in
        RankOf my_pid u.1 (union_rank r₁ r₂ u.0)
  union_rank-RankOf first second (pos k) r₂ h₁ h₂ =
      rw (pos-no_rank k, union_loop-members first second (negsuc 0) first)
        (get_elem?-append_some first (without first second) k my_pid h₁)
  union_rank-RankOf first second (negsuc a) (pos k) (z, f) h₂ =
      rw (z, pos-no_rank k) (union_loop-RankOf first second (negsuc 0) first (refl, f))
  union_rank-RankOf first second (negsuc a) (negsuc b) (z, f) (z', f') =
      rw (z, z')
        (
          refl,
          rw (union_loop-members first second (negsuc 0) first)
              (found-append_without my_pid first second first f f'),
        )

members_of-all : (my_pid : ℕ) (g : Group) → IsGroup my_pid g → members_of g ≡ g.members
members_of-all my_pid g wf = rw wf.0 (take-length g.members)

and_not : (a b : Bool) → b ≡ true → (a && not b) ≡ false
and_not a b h = ground arith

module _ (my_pid : ℕ) (mem : Mallocs) (s : Groups) (t : IsTable my_pid s) where
  -- The end of group_union, on what its loop makes.
  filled_union :
      (u : ℤ × List ℕ) (rank : ℤ) (joined : List ℕ)
      → u.1 ≡ joined
      → RankOf my_pid u.1 rank
      → MadeBy my_pid s
          (room mem (pos (length joined)) s)
          (λ g. g.members ≡ joined)
          (λ e. ⊥)
          (fill_group
            (create_group mem (pos (length u.1)) s)
            (λ res. ok (record res { size = length u.1; rank = rank; members = u.1 })))
  filled_union u rank joined e h =
      subst
        (λ n.
          MadeBy my_pid s (room mem (pos n) s) (λ g. g.members ≡ joined) (λ e. ⊥)
            (fill_group (create_group mem (pos (length u.1)) s)
              (λ res. ok (record res { size = length u.1; rank = rank; members = u.1 }))))
        (ap (length {A = ℕ}) e)
        (fill_group-Makes my_pid s t mem (pos (length u.1)) _ _ _
          (λ g empty. ((refl, h), refl, refl, e)))

-- In a well-formed table group_union, on two well-formed groups and with memory for its temporary
-- array, puts one new well-formed group into the table, whose members are those of the first group
-- and then those of the second that are not in the first, in their order, and leaves all other
-- groups alone; or, if there is no room, returns EMPI_ERR_INTERN and leaves all groups alone. The
-- table stays well-formed.
pub group_union-Joins :
    (my_pid : ℕ) (mem : Mallocs) (in₁ in₂ : Group) (s : Groups)
    → IsTable my_pid s
    → IsGroup my_pid in₁
    → IsGroup my_pid in₂
    → mem.temporary ≡ true
    → let joined = in₁.members ++ without in₁.members in₂.members in
      MadeBy my_pid s
        (room mem (pos (length joined)) s)
        (λ g. g.members ≡ joined)
        (λ e. ⊥)
        (group_union my_pid mem in₁ in₂ s)
unfolding group_union union_members
group_union-Joins my_pid mem in₁ in₂ s t wf₁ wf₂ given =
    rw
      (
        and_not (ltb 0 (in₁.size + in₂.size)) mem.temporary given,
        members_of-all my_pid in₁ wf₁,
        members_of-all my_pid in₂ wf₂,
      )
      (filled_union my_pid mem s t
        (union_loop my_pid in₁.members in₂.members (negsuc 0) in₁.members) _ _
        (union_loop-members my_pid in₁.members in₂.members (negsuc 0) in₁.members)
        (union_rank-RankOf my_pid in₁.members in₂.members in₁.rank in₂.rank wf₁.1 wf₂.1))
