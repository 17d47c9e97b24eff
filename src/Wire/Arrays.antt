-- ===== src/Wire/Arrays.antt =====
-- The arrays of a reply: what the server writes is what copy_int_array finds.
use e_salsa_mpi.Prelude.{
  ℕ, zero, suc, ◌+◌, ◌*◌, ◌^◌, ◌≤◌, ◌<◌, true, Option, none, some, List, [], ◌∷◌, ◌++◌, length,
  length-append, lt→ltb, ℤ, pos, ◌≡◌, refl, sym, subst, arith,
}
use e_salsa_mpi.Wire.Words.{value}
use e_salsa_mpi.Wire.Replies.{
  Distribution, write_distribution, Arrays, copy_int_array, member_arrays, copy_arrays,
}
use e_salsa_mpi.Wire.Layout.{
  written, kept, write_array-written, length-written, lay, copy_int_array-written,
}

-- The arrays of a distribution have the entries that their counts say, and the counts are `int`s.
pub record IsDistribution (d : Distribution) : Type 0 where
  pub size : d.size < 2 ^ 31
  pub cluster_count : d.cluster_count < 2 ^ 31
  pub coordinators : d.cluster_count ≤ length d.coordinators
  pub cluster_sizes : d.cluster_count ≤ length d.cluster_sizes
  pub cluster_ranks : d.cluster_count ≤ length d.cluster_ranks
  pub members : d.size ≤ length d.members
  pub member_cluster_index : d.size ≤ length d.member_cluster_index
  pub local_ranks : d.size ≤ length d.local_ranks

abbrev pub parts : Distribution → List (List ℕ)
parts d =
    written d.cluster_count d.coordinators
    ∷ written d.cluster_count d.cluster_sizes
    ∷ written d.cluster_count d.cluster_ranks
    ∷ written d.size d.members
    ∷ written d.size d.member_cluster_index
    ∷ written d.size d.local_ranks
    ∷ []

-- The arrays with an entry for each member, NULL where there are no members.
abbrev pub of_members : ℕ → List ℤ → Option (List ℕ)
of_members zero xs = none
of_members (suc n) xs = some (kept (suc n) xs)

-- The arrays that a process has of a distribution.
abbrev pub arrays_of : Distribution → Arrays
arrays_of d = record {
  coordinators = some (kept d.cluster_count d.coordinators);
  cluster_sizes = some (kept d.cluster_count d.cluster_sizes);
  cluster_ranks = some (kept d.cluster_count d.cluster_ranks);
  members = of_members d.size d.members;
  member_cluster_index = of_members d.size d.member_cluster_index;
  local_ranks = of_members d.size d.local_ranks;
}

pub write_distribution-parts :
    (d : Distribution) → IsDistribution d → write_distribution d ≡ some (lay (parts d))
unfolding write_distribution
write_distribution-parts d h = rw (
  write_array-written d.cluster_count d.coordinators h.coordinators,
  write_array-written d.cluster_count d.cluster_sizes h.cluster_sizes,
  write_array-written d.cluster_count d.cluster_ranks h.cluster_ranks,
  write_array-written d.size d.members h.members,
  write_array-written d.size d.member_cluster_index h.member_cluster_index,
  write_array-written d.size d.local_ranks h.local_ranks,
)

-- Where each array stands, and what copy_int_array gives there.
module _ (d : Distribution) (h : IsDistribution d) where
  abbrev n : ℕ
  n = d.cluster_count

  abbrev a : List ℕ
  a = written d.cluster_count d.coordinators

  abbrev b : List ℕ
  b = written d.cluster_count d.cluster_sizes

  abbrev c : List ℕ
  c = written d.cluster_count d.cluster_ranks

  abbrev e : List ℕ
  e = written d.size d.members

  abbrev f : List ℕ
  f = written d.size d.member_cluster_index

  abbrev g : List ℕ
  g = written d.size d.local_ranks

  count :
      (xs : List ℤ)
      → d.cluster_count ≤ length xs
      → length (written d.cluster_count xs) ≡ d.cluster_count
  count xs le = length-written d.cluster_count xs le

  cluster_at : length (lay (a ∷ b ∷ c ∷ [])) ≡ 3 * n
  cluster_at = omega (
    arith,
    count d.coordinators h.coordinators,
    count d.cluster_sizes h.cluster_sizes,
    count d.cluster_ranks h.cluster_ranks,
    length-append a (b ++ (c ++ [])),
    length-append b (c ++ []),
    length-append c [],
  )

  members_at : length (lay (a ∷ b ∷ c ∷ e ∷ [])) ≡ 3 * n + d.size
  members_at = omega (
    arith,
    count d.coordinators h.coordinators,
    count d.cluster_sizes h.cluster_sizes,
    count d.cluster_ranks h.cluster_ranks,
    length-written d.size d.members h.members,
    length-append a (b ++ (c ++ (e ++ []))),
    length-append b (c ++ (e ++ [])),
    length-append c (e ++ []),
    length-append e [],
  )

  index_at : length (lay (a ∷ b ∷ c ∷ e ∷ f ∷ [])) ≡ 3 * n + 2 * d.size
  index_at = omega (
    arith,
    count d.coordinators h.coordinators,
    count d.cluster_sizes h.cluster_sizes,
    count d.cluster_ranks h.cluster_ranks,
    length-written d.size d.members h.members,
    length-written d.size d.member_cluster_index h.member_cluster_index,
    length-append a (b ++ (c ++ (e ++ (f ++ [])))),
    length-append b (c ++ (e ++ (f ++ []))),
    length-append c (e ++ (f ++ [])),
    length-append e (f ++ []),
    length-append f [],
  )

  coordinators-copied :
      copy_int_array true (lay (parts d)) 0 (pos n) ≡ value (some (kept n d.coordinators))
  coordinators-copied =
      copy_int_array-written [] n 0 d.coordinators (b ∷ c ∷ e ∷ f ∷ g ∷ []) refl h.coordinators

  cluster_sizes-copied :
      copy_int_array true (lay (parts d)) n (pos n) ≡ value (some (kept n d.cluster_sizes))
  cluster_sizes-copied =
      copy_int_array-written (a ∷ []) n n d.cluster_sizes (c ∷ e ∷ f ∷ g ∷ [])
        (omega (arith, count d.coordinators h.coordinators, length-append a [])) h.cluster_sizes

  cluster_ranks-copied :
      copy_int_array true (lay (parts d)) (2 * n) (pos n) ≡ value (some (kept n d.cluster_ranks))
  cluster_ranks-copied =
      copy_int_array-written (a ∷ b ∷ []) n (2 * n) d.cluster_ranks (e ∷ f ∷ g ∷ [])
        (omega (
          arith,
          count d.coordinators h.coordinators,
          count d.cluster_sizes h.cluster_sizes,
          length-append a (b ++ []),
          length-append b [],
        ))
        h.cluster_ranks

  members-copied :
      copy_int_array true (lay (parts d)) (3 * n) (pos d.size)
      ≡ value (some (kept d.size d.members))
  members-copied =
      copy_int_array-written (a ∷ b ∷ c ∷ []) d.size (3 * n) d.members (f ∷ g ∷ []) (sym cluster_at)
        h.members

  index-copied :
      copy_int_array true (lay (parts d)) (3 * n + d.size) (pos d.size)
      ≡ value (some (kept d.size d.member_cluster_index))
  index-copied =
      copy_int_array-written (a ∷ b ∷ c ∷ e ∷ []) d.size (3 * n + d.size) d.member_cluster_index
        (g ∷ []) (sym members_at) h.member_cluster_index

  local_ranks-copied :
      copy_int_array true (lay (parts d)) (3 * n + 2 * d.size) (pos d.size)
      ≡ value (some (kept d.size d.local_ranks))
  local_ranks-copied =
      copy_int_array-written (a ∷ b ∷ c ∷ e ∷ f ∷ []) d.size (3 * n + 2 * d.size) d.local_ranks []
        (sym index_at) h.local_ranks

  some_members :
      (make : Option (List ℕ) → Option (List ℕ) → Option (List ℕ) → Arrays) (size : ℕ)
      → d.size ≡ size
      → member_arrays (λ _. true) (lay (parts d)) (3 * n) (pos size) make
        ≡ value (
            make
              (of_members size d.members)
              (of_members size d.member_cluster_index)
              (of_members size d.local_ranks))
  unfolding member_arrays
  some_members make zero q = refl
  some_members make (suc k) q =
      let at =
        subst
          (λ x.
            copy_int_array true (lay (parts d)) (3 * n) (pos x) ≡ value (some (kept x d.members)))
          q members-copied in
      let at' =
        subst
          (λ x.
            copy_int_array true (lay (parts d)) (3 * n + x) (pos x)
            ≡ value (some (kept x d.member_cluster_index)))
          q index-copied in
      let at'' =
        subst
          (λ x.
            copy_int_array true (lay (parts d)) (3 * n + 2 * x) (pos x)
            ≡ value (some (kept x d.local_ranks)))
          q local_ranks-copied in
      rw (at, at', at'', lt→ltb (0 + 0) (suc k + 0) (omega arith))

  pub copy_arrays-parts :
      copy_arrays (λ _. true) (lay (parts d)) (pos n) (pos d.size) ≡ value (arrays_of d)
  unfolding copy_arrays
  copy_arrays-parts =
      rw (coordinators-copied, cluster_sizes-copied, cluster_ranks-copied)
        (some_members
          (λ members index locals. record {
            coordinators = some (kept n d.coordinators);
            cluster_sizes = some (kept n d.cluster_sizes);
            cluster_ranks = some (kept n d.cluster_ranks);
            members = members;
            member_cluster_index = index;
            local_ranks = locals;
          })
          d.size refl)
