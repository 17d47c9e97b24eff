-- ===== src/Collective/Counts.antt =====
-- src/backend/empi.c: get_count_sums, which adds up the counts of a collective for each cluster.
--
-- Counts are not negative. An index that is not one of a cluster, an array that is too short, or a sum that
-- is no int, which C leaves undefined, is `none`. The offsets are sums of some of the entries of `sums`,
-- and so no larger than `sum`.
use e_salsa_mpi.Prelude.{
  ℕ, zero, suc, ◌+◌, ◌^◌, ltb, if◌then◌else◌, Option, none, some, List, [], ◌∷◌,
}

-- The numbers above INT_MAX start here.
abbrev pub int_bound : ℕ
int_bound = 2 ^ 31

-- `sums[i] += n`.
unfoldable pub add_to : List ℕ → ℕ → ℕ → Option (List ℕ)
add_to [] i n = none
add_to (s ∷ sums) zero n = if ltb (s + n) int_bound then some ((s + n) ∷ sums) else none
add_to (s ∷ sums) (suc i) n = later (add_to sums i n)
  where
    later : Option (List ℕ) → Option (List ℕ)
    later none = none
    later (some sums') = some (s ∷ sums')

abbrev pub zeros : ℕ → List ℕ
zeros zero = []
zeros (suc n) = 0 ∷ zeros n

abbrev pub if_some : Option (List ℕ) → (List ℕ → Option (List ℕ × ℕ)) → Option (List ℕ × ℕ)
if_some none next = none
if_some (some sums) next = next sums

-- The second loop, over member_cluster_index and recvcounts: the sums and `sum`.
unfoldable pub sum_counts : List ℕ → List ℕ → List ℕ → ℕ → Option (List ℕ × ℕ)
sum_counts [] counts sums sum = some (sums, sum)
sum_counts (i ∷ index) [] sums sum = none
sum_counts (i ∷ index) (n ∷ counts) sums sum =
    let rest = λ (sums' : List ℕ). sum_counts index counts sums' (sum + n) in
    if_some (add_to sums i n) (λ sums'. if ltb (sum + n) int_bound then rest sums' else none)

-- The third loop: each offset is the one before it and the sum there.
unfoldable pub offsets_from : ℕ → List ℕ → List ℕ
offsets_from offset [] = []
offsets_from offset (s ∷ sums) = offset ∷ offsets_from (offset + s) sums

abbrev pub with_offsets : Option (List ℕ × ℕ) → Option (ℕ × List ℕ × List ℕ)
with_offsets none = none
with_offsets (some (sums, sum)) = some (sum, sums, offsets_from 0 sums)

-- The result, `sums` and `offsets`, for at least one cluster.
unfoldable pub get_count_sums : ℕ → List ℕ → List ℕ → Option (ℕ × List ℕ × List ℕ)
get_count_sums cluster_count index counts =
    with_offsets (sum_counts index counts (zeros cluster_count) 0)
