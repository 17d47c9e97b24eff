-- ===== src/Groups/Range.antt =====
-- get_range and group_range_incl of src/backend/group.c, and EMPI_Group_translate_ranks of
-- src/backend/empi.c.
use e_salsa_mpi.Prelude.{
  ℕ, zero, suc, ◌+◌, ◌-◌, ◌==◌, ltb, leb, if◌then◌else◌, not, ◌&&◌, ◌||◌, Option, none, some, List,
  [], ◌∷◌, ◌++◌, length, get_or, take, ℤ, pos, negsuc,
}
use e_salsa_mpi.Codes.{Code, err_rank, err_group, err_arg, err_intern, ok, err, undefined}
use e_salsa_mpi.Groups.Defs.{Group, Groups, group_empty, Mallocs, Made, create_group, fill_group}

-- How get_range ends: with the entries of `dst` (the next index is their number), with an error
-- code, or in `i += stride` that exceeds the largest int, which C leaves undefined.
pub data Ranged : Type 0 where
  ranged : List ℕ → Ranged
  refused : Code → Ranged
  overflow out_of_fuel : Ranged

abbrev pub int_max : ℕ
int_max = 2147483647

module _ (input : Group) where
  -- The forward loop from `i` on.
  unfoldable pub forward_range : ℕ → ℕ → ℕ → ℕ → List ℕ → Ranged
  forward_range zero i last stride dst = out_of_fuel
  forward_range (suc fuel) i last stride dst =
      let next =
        forward_range fuel (i + stride) last stride (dst ++ get_or input.members i 0 ∷ []) in
      if not (ltb i input.size && leb i last)
      then ranged dst
      else if leb input.size (length dst)
      then refused err_arg
      else if ltb int_max (i + stride)
      then overflow
      else next

  -- The backward loop from `i` on, `step` is -stride; at the entry before index 0 it ends.
  unfoldable pub backward_range : ℕ → ℕ → ℕ → ℕ → List ℕ → Ranged
  backward_range zero i last step dst = out_of_fuel
  backward_range (suc fuel) i last step dst =
      let got = dst ++ get_or input.members i 0 ∷ [] in
      let next = backward_range fuel (i - step) last step got in
      if not (leb last i)
      then ranged dst
      else if leb input.size (length dst)
      then refused err_arg
      else if ltb i step
      then ranged got
      else next

  -- The two ranks in bounds: the loop that the stride asks for.
  unfoldable pub range_loops : List ℕ → ℕ → ℕ → ℤ → Ranged
  range_loops dst first last (pos stride) =
      if leb first last && ltb 0 stride
      then forward_range (suc input.size) first last stride dst
      else refused err_rank
  range_loops dst first last (negsuc k) =
      if leb last first
      then backward_range (suc input.size) first last (suc k) dst
      else refused err_rank

  -- The fuel of the loops is one more than the size of the group.
  unfoldable pub get_range : List ℕ → ℤ → ℤ → ℤ → Ranged
  get_range dst (pos first) (pos last) stride =
      if leb input.size first || leb input.size last
      then refused err_rank
      else range_loops dst first last stride
  get_range dst (negsuc k) last stride = refused err_rank
  get_range dst (pos first) (negsuc k) stride = refused err_rank

  abbrev pub next_range : (List ℕ → Ranged) → Ranged → Ranged
  next_range go (ranged dst) = go dst
  next_range go (refused e) = refused e
  next_range go overflow = overflow
  next_range go out_of_fuel = out_of_fuel

  -- The loop over the ranges.
  unfoldable pub get_ranges : List ℕ → List (ℤ × ℤ × ℤ) → Ranged
  get_ranges dst [] = ranged dst
  get_ranges dst ((first, last, stride) ∷ ranges) =
      next_range (λ dst'. get_ranges dst' ranges) (get_range dst first last stride)

-- The rank of `my_pid` in the last loop of group_range_incl.
unfoldable pub rank_from : ℕ → ℕ → List ℕ → ℤ → ℤ
rank_from my_pid i [] rank = rank
rank_from my_pid i (m ∷ ms) rank = rank_from my_pid (suc i) ms (if m == my_pid then pos i else rank)

-- What group_range_incl returns, or the undefined behaviour or missing fuel of get_range.
pub data RangeMade : Type 0 where
  made : Made → RangeMade
  overflow out_of_fuel : RangeMade

unfoldable pub make_ranged : ℕ → Mallocs → Groups → Ranged → RangeMade
make_ranged my_pid mem s (ranged tmp) = made (
    fill_group (create_group mem (pos (length tmp)) s) (λ res. ok (record res {
      size = length tmp;
      rank = rank_from my_pid 0 tmp (negsuc 0);
      members = res.members ++ tmp;
    })))
make_ranged my_pid mem s (refused e) = made (err e, s)
make_ranged my_pid mem s overflow = overflow
make_ranged my_pid mem s out_of_fuel = out_of_fuel

-- The list holds the `n` first entries of the array of ranges.
unfoldable pub group_range_incl : ℕ → Mallocs → Option Group → List (ℤ × ℤ × ℤ) → Groups → RangeMade
group_range_incl my_pid mem none ranges s = made (err err_group, s)
group_range_incl my_pid mem (some input) ranges s =
    if input.size == 0
    then made (ok group_empty, s)
    else if not mem.temporary
    then made (err err_intern, s)
    else make_ranged my_pid mem s (get_ranges input [] ranges)

-- How EMPI_Group_translate_ranks ends, after H2G: with the contents of `ranks2`, with an error, or
-- with a read behind the members of the second group.
pub data Translated : Type 0 where
  translated : List ℤ → Translated
  refused : Code → Translated
  past_end : Translated

-- The inner loop on the members from index `j` on. Its test is on `i`, which does not change in it:
-- it goes on until it finds the pid, or reads past the end.
unfoldable pub search_pid : ℕ → ℕ → List ℕ → Option ℤ
search_pid pid j [] = none
search_pid pid j (m ∷ ms) = if m == pid then some (pos j) else search_pid pid (suc j) ms

unfoldable pub translate_one : Group → ℕ → ℕ → Option ℤ
translate_one in₂ i pid =
    if ltb i in₂.size then search_pid pid 0 (take in₂.size in₂.members) else some undefined

-- The outer loop from index `i` on, with the entries written so far.
abbrev pub translate_next : (List ℤ → Translated) → List ℤ → Option ℤ → Translated
translate_next go ranks2 none = past_end
translate_next go ranks2 (some r) = go (ranks2 ++ r ∷ [])

unfoldable pub translate_loop : Group → Group → ℕ → List ℤ → List ℤ → Translated
translate_loop in₁ in₂ i [] ranks2 = translated ranks2
translate_loop in₁ in₂ i (negsuc k ∷ ranks1) ranks2 = refused err_rank
translate_loop in₁ in₂ i (pos rank ∷ ranks1) ranks2 =
    if leb in₁.size rank
    then refused err_rank
    else translate_next (translate_loop in₁ in₂ (suc i) ranks1) ranks2
        (translate_one in₂ i (get_or in₁.members rank 0))

unfoldable pub group_translate_ranks : Group → List ℤ → Group → Translated
group_translate_ranks in₁ ranks1 in₂ = translate_loop in₁ in₂ 0 ranks1 []
