-- ===== src/Collective/CountLaws.antt =====
-- src/backend/empi.c: what get_count_sums adds up.
use e_salsa_mpi.Prelude.{
  ℕ, ◌+◌, ◌<◌, ◌==◌, if◌then◌else◌, Option, some, List, [], ◌∷◌, length, get_or, take, ◌≡◌,
}

abbrev pub total : List ℕ → ℕ
total [] = 0
total (n ∷ ns) = n + total ns

-- The counts of the members of cluster `k`.
abbrev pub counts_of : ℕ → List ℕ → List ℕ → ℕ
counts_of k [] counts = 0
counts_of k (i ∷ index) [] = 0
counts_of k (i ∷ index) (n ∷ counts) = (if k == i then n else 0) + counts_of k index counts

-- What an addition leaves.
abbrev IsAdded : List ℕ → ℕ → ℕ → Option (List ℕ) → Type 0
IsAdded sums i n o =
    (sums' : List ℕ) × (o ≡ some sums')
    × (length sums' ≡ length sums)
    × (total sums' ≡ total sums + n)
    × ((k : ℕ) → get_or sums' k 0 ≡ get_or sums k 0 + (if k == i then n else 0))

-- What the second loop leaves, from the sums so far.
abbrev Sums : List ℕ → List ℕ → List ℕ → ℕ → Option (List ℕ × ℕ) → Type 0
Sums index counts sums sum o =
    (sums' : List ℕ) × (sum' : ℕ) × (o ≡ some (sums', sum'))
    × (length sums' ≡ length sums)
    × (total sums' + sum ≡ total sums + sum')
    × (sum' ≡ sum + total counts)
    × ((k : ℕ) → get_or sums' k 0 ≡ get_or sums k 0 + counts_of k index counts)

-- The sum of all counts, those of the clusters, and their offsets.
abbrev pub AddsUp : ℕ → List ℕ → List ℕ → Option (ℕ × List ℕ × List ℕ) → Type 0
AddsUp cluster_count index counts o =
    (sum : ℕ) × (sums : List ℕ) × (offsets : List ℕ) × (o ≡ some (sum, sums, offsets))
    × (length sums ≡ cluster_count)
    × (sum ≡ total counts)
    × (total sums ≡ sum)
    × ((k : ℕ) → get_or sums k 0 ≡ counts_of k index counts)
    × ((k : ℕ) → k < cluster_count → get_or offsets k 0 ≡ total (take k sums))
