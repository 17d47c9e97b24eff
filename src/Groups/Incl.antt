-- ===== src/Groups/Incl.antt =====
-- group_incl.
use e_salsa_mpi.Prelude.{
  ℕ, zero, suc, ◌+◌, ◌≤◌, ◌<◌, ◌==◌, leb, if◌then◌else◌, true, false, Option, none, some, List, [],
  ◌∷◌, ◌++◌, length, get_elem?, get_or, get_elem?-eq-get_or, take, length-take, length-append,
  append-nil, append_assoc, ◌≡◌, ◌∙◌, refl, sym, ap, inl, inr, arith, ℤ, pos, negsuc, pos_part,
  Bool-cases,
}
use e_salsa_mpi.Codes.{err_rank, Result, ok, err}
use e_salsa_mpi.Groups.Defs.{Group, Groups, Mallocs, incl_loop, group_incl, found}
use e_salsa_mpi.Groups.Table.{
  RankOf, IsGroup, IsTable, MadeBy, Filled, Fills, room, fill_group-Makes,
}
use e_salsa_mpi.Groups.Members.{RankOf-append}

abbrev and_cons : Option ℕ → Option (List ℕ) → Option (List ℕ)
and_cons none o = none
and_cons (some m) none = none
and_cons (some m) (some xs) = some (m ∷ xs)

-- The members with the given ranks, if all these are ranks.
abbrev pub select : List ℕ → List ℤ → Option (List ℕ)
select ms [] = some []
select ms (negsuc k ∷ ranks) = none
select ms (pos k ∷ ranks) = and_cons (get_elem? ms k) (select ms ranks)

get_elem?-none : (xs : List ℕ) (k : ℕ) → length xs ≤ k → get_elem? xs k ≡ none
get_elem?-none [] k h = refl
get_elem?-none (x ∷ xs) zero h = absurd (omega arith)
get_elem?-none (x ∷ xs) (suc k) h = get_elem?-none xs k (omega arith)

module _ (my_pid : ℕ) (input : Group) (wf : IsGroup my_pid input) where
  -- What the loop makes of `res` with the ranks that are left.
  abbrev Included : Group → List ℤ → Result Group → Type 0
  Included res ranks (ok g) =
      IsGroup my_pid g
      × (length g.members ≡ length res.members + length ranks)
      × (g.handle ≡ res.handle)
      × ((xs : List ℕ) × (select input.members ranks ≡ some xs) × (g.members ≡ res.members ++ xs))
  Included res ranks (err e) =
      (0 < length ranks) × (e ≡ err_rank) × (select input.members ranks ≡ none)

  -- One more rank in front.
  Included-cons :
      (res res' : Group) (m k : ℕ) (ranks : List ℤ) (r : Result Group)
      → res'.members ≡ res.members ++ m ∷ []
      → res'.handle ≡ res.handle
      → get_elem? input.members k ≡ some m
      → Included res' ranks r
      → Included res (pos k ∷ ranks) r
  Included-cons res res' m k ranks (ok g) e h at (wf', len, h', (xs, s, app)) = (
    wf',
    omega (arith, len, ap (length {A = ℕ}) e, length-append {0} res.members (m ∷ [])),
    h' ∙ h,
    (m ∷ xs, rw (at, s) refl, app ∙ ap (λ l. l ++ xs) e ∙ append_assoc res.members (m ∷ []) xs),
  )
  Included-cons res res' m k ranks (err c) e h at (lt, ec, s) = (omega arith, ec, rw (at, s) refl)

  incl_loop-Included :
      (ranks : List ℤ) (i : ℕ) (res : Group)
      → i ≡ length res.members
      → res.size ≡ i + length ranks
      → RankOf my_pid res.members res.rank
      → Included res ranks (incl_loop my_pid input i ranks res)
  unfolding incl_loop
  incl_loop-Included [] i res at size rank =
      ((omega arith, rank), omega arith, refl, ([], refl, sym (append-nil res.members)))
  incl_loop-Included (negsuc k ∷ ranks) i res at size rank = (omega arith, refl, refl)
  incl_loop-Included (pos k ∷ ranks) i res at size rank = elim (Bool-cases (leb input.size k)) [
    | inl beyond ↦
        rw beyond (omega arith, refl, rw (get_elem?-none input.members k (bound beyond)) refl)
    | inr within ↦
        let m = get_or input.members k 0 in
        let r = if m == my_pid then pos i else res.rank in
        let res' : Group = record res { members = res.members ++ m ∷ []; rank = r } in
        rw within (
          Included-cons res res' m k ranks (incl_loop my_pid input (suc i) ranks res') refl refl
            (get_elem?-eq-get_or input.members k 0 (below within))
            (incl_loop-Included ranks (suc i) res'
              (omega (arith, length-append {0} res.members (m ∷ []))) (omega arith)
              (rw at (RankOf-append my_pid m res.members res.rank rank))))
  ]
    where
      bound : leb input.size k ≡ true → length input.members ≤ k
      bound h = ground (arith, wf.0)

      below : leb input.size k ≡ false → k < length input.members
      below h = ground (arith, wf.0)

-- In a well-formed table group_incl, on a well-formed group and an array of at least `n` ranks,
-- puts one new well-formed group into the table, whose members are those of the group with the
-- first `n` ranks in their order, and leaves all other groups alone. Otherwise it leaves all groups
-- alone and returns EMPI_ERR_INTERN, if `n` is negative or there is no room, or EMPI_ERR_RANK, if
-- one of the `n` ranks is none of the group. The table stays well-formed.
pub group_incl-Selects :
    (my_pid : ℕ) (mem : Mallocs) (input : Group) (n : ℤ) (ranks : List ℤ) (s : Groups)
    → IsTable my_pid s
    → IsGroup my_pid input
    → pos_part n ≤ length ranks
    → let chosen = select input.members (take (pos_part n) ranks) in
      MadeBy my_pid s
        (room mem n s)
        (λ g. chosen ≡ some g.members)
        (λ e. (e ≡ err_rank) × (chosen ≡ none))
        (group_incl my_pid mem (some input) n ranks s)
unfolding group_incl found
group_incl-Selects my_pid mem input n ranks s t wf enough =
    fill_group-Makes my_pid s t mem n _ _ _ fills
  where
    chosen : List ℤ
    chosen = take (pos_part n) ranks

    size : length chosen ≡ pos_part n
    size = omega (arith, length-take {0} (pos_part n) ranks)

    whole :
        (g : Group) (r : Result Group)
        → g.members ≡ []
        → Included my_pid input wf g chosen r
        → Filled my_pid
            (pos_part n)
            (λ g'. select input.members chosen ≡ some g'.members)
            (λ e. (e ≡ err_rank) × (select input.members chosen ≡ none))
            g
            r
    whole g (ok g') e (wf', len, h, (xs, p, q)) = (
      wf',
      omega (arith, len, size, ap (length {A = ℕ}) e),
      h,
      p ∙ ap some (sym (q ∙ ap (λ l. l ++ xs) e)),
    )
    whole g (err c) e (lt, p, q) = (omega (arith, size), (p, q))

    fills :
        Fills my_pid
          (pos_part n)
          (λ g'. select input.members chosen ≡ some g'.members)
          (λ e. (e ≡ err_rank) × (select input.members chosen ≡ none))
          (λ res.
            incl_loop my_pid input 0 chosen (record res { size = pos_part n; rank = negsuc 0 }))
    fills g e = whole g _ e (
        incl_loop-Included my_pid input wf chosen 0
          (record g { size = pos_part n; rank = negsuc 0 }) (sym (ap (length {A = ℕ}) e))
          (omega (arith, size)) (rw e (refl, refl)))
