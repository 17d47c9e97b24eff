-- ===== src/Collective/Examples.antt =====
-- The counts of three processes in two clusters.
use e_salsa_mpi.Prelude.{[], ◌∷◌, ◌≡◌, refl, some}
use e_salsa_mpi.Collective.Counts.{get_count_sums, sum_counts, add_to, offsets_from}

interleaved : get_count_sums 2 (0 ∷ 1 ∷ 0 ∷ []) (5 ∷ 7 ∷ 1 ∷ []) ≡ some (13, 6 ∷ 7 ∷ [], 0 ∷ 6 ∷ [])
unfolding get_count_sums sum_counts add_to offsets_from
interleaved = refl
