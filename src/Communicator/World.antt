-- ===== src/Communicator/World.antt =====
-- The arrays of EMPI_COMM_WORLD that init_communicators fills.
use e_salsa_mpi.Prelude.{
  ℕ, zero, suc, ◌+◌, ◌≤◌, ◌<◌, ◌==◌, eq→==, ==→eq, leb, leb→le, Bool, true, false, ◌&&◌, some, List,
  [], ◌∷◌, map, length, ◌≡◌, refl, ap, inl, inr, arith, Bool-cases,
}
use e_salsa_mpi.Pid.Defs.{set_pid}
use e_salsa_mpi.Communicator.Defs.{Member, fill_members, search_rank}

module _ (cluster_offsets : ℕ → ℕ) (cluster_count : ℕ) where
  -- Every cluster has a process, and the first one starts at 0.
  abbrev pub IsLayout : Type 0
  IsLayout =
      (cluster_offsets 0 ≡ 0)
      × ((c : ℕ) → c < cluster_count → cluster_offsets c < cluster_offsets (suc c))

  -- The entry for the global rank `i` names the cluster that has this rank and the rank there.
  abbrev pub IsAt : ℕ → Member → Type 0
  IsAt i m =
      (m.cluster < cluster_count)
      × (cluster_offsets m.cluster + m.process ≡ i)
      × (i < cluster_offsets (suc m.cluster))
      × (m.pid ≡ set_pid m.cluster m.process)

  abbrev pub AllAt : ℕ → List Member → Type 0
  AllAt i [] = Unit {0}
  AllAt i (m ∷ ms) = IsAt i m × AllAt (suc i) ms

  module _ (lay : IsLayout) where
    pub fill_members-AllAt :
        (n i p c : ℕ)
        → c < cluster_count
        → cluster_offsets c + p ≡ i
        → i ≤ cluster_offsets (suc c)
        → i + n ≡ cluster_offsets cluster_count
        → AllAt i (fill_members cluster_offsets n i p c)
    unfolding fill_members
    fill_members-AllAt zero i p c lt at le e = tt
    fill_members-AllAt (suc n) i p c lt at le e =
        elim (Bool-cases (leb (cluster_offsets (suc c)) i)) [
          | inl moved ↦
              let more : suc c < cluster_count =
                not_end (leb→le (cluster_offsets (suc c)) i moved) in
              let here : cluster_offsets (suc c) ≡ i =
                omega (arith, leb→le (cluster_offsets (suc c)) i moved) in
              let at' : cluster_offsets (suc c) + 0 ≡ i = omega (arith, here) in
              let up : i < cluster_offsets (suc (suc c)) =
                omega (arith, here, lay.1 (suc c) more) in
              rw moved (
                (more, at', up, refl),
                fill_members-AllAt n (suc i) 1 (suc c) more (omega (arith, here)) up (omega arith),
              )
          | inr inside ↦ rw inside (
            (lt, at, below inside, refl),
            fill_members-AllAt n (suc i) (suc p) c lt (omega arith) (omega (arith, below inside))
                (omega arith),
          )
        ]
      where
        below : leb (cluster_offsets (suc c)) i ≡ false → i < cluster_offsets (suc c)
        below h = ground arith

        not_end : cluster_offsets (suc c) ≤ i → suc c < cluster_count
        not_end h = elim (Bool-cases (suc c == cluster_count)) [
          | inl last ↦ absurd (omega (arith, ap cluster_offsets (==→eq (suc c) cluster_count last)))
          | inr other ↦ before other
        ]
          where
            before : (suc c == cluster_count) ≡ false → suc c < cluster_count
            before h' = ground arith

    pub cluster_offsets_mono :
        (a b : ℕ) → a ≤ b → b ≤ cluster_count → cluster_offsets a ≤ cluster_offsets b
    cluster_offsets_mono a zero h k = omega (arith, ap cluster_offsets (the_zero a h))
      where
        the_zero : (x : ℕ) → x ≤ 0 → x ≡ 0
        the_zero x h' = omega arith
    cluster_offsets_mono a (suc b) h k = elim (Bool-cases (a == suc b)) [
      | inl same ↦ omega (arith, ap cluster_offsets (==→eq a (suc b) same))
      | inr other ↦
          omega
            (arith, cluster_offsets_mono a b (before other) (omega arith), lay.1 b (omega arith))
    ]
      where
        before : (a == suc b) ≡ false → a ≤ b
        before h' = ground arith

    -- A global rank belongs to one cluster.
    pub cluster_unique :
        (a b g : ℕ)
        → a < cluster_count
        → b < cluster_count
        → cluster_offsets a ≤ g
        → g < cluster_offsets (suc a)
        → cluster_offsets b ≤ g
        → g < cluster_offsets (suc b)
        → a ≡ b
    cluster_unique a b g ha hb la ua lb ub = elim (Bool-cases (leb (suc a) b)) [
      | inl less ↦
          absurd
            (omega (arith, cluster_offsets_mono (suc a) b (leb→le (suc a) b less) (omega arith)))
      | inr no_less ↦ elim (Bool-cases (leb (suc b) a)) [
        | inl more ↦
            absurd
              (omega (arith, cluster_offsets_mono (suc b) a (leb→le (suc b) a more) (omega arith)))
        | inr no_more ↦ equal no_less no_more
      ]
    ]
      where
        equal : leb (suc a) b ≡ false → leb (suc b) a ≡ false → a ≡ b
        equal h k = ground arith

    -- The search finds the rank that the layout gives.
    pub search_rank-AllAt :
        (own r i : ℕ) (ms : List Member)
        → AllAt i ms
        → own < cluster_count
        → cluster_offsets own + r < cluster_offsets (suc own)
        → i ≤ cluster_offsets own + r
        → cluster_offsets own + r < i + length ms
        → search_rank own r i
            (map (λ (m : Member). m.cluster) ms)
            (map (λ (m : Member). m.process) ms)
          ≡ some (cluster_offsets own + r)
    unfolding search_rank
    search_rank-AllAt own r i [] a ho inside le lt = absurd (omega arith)
    search_rank-AllAt own r i (m ∷ ms) ((hc, at, ub, p), a) ho inside le lt =
        elim (Bool-cases (i == cluster_offsets own + r)) [
          | inl here ↦
              let e = ==→eq i (cluster_offsets own + r) here in
              let same : m.cluster ≡ own =
                cluster_unique m.cluster own i hc ho (omega arith) ub (omega (arith, e))
                  (omega (arith, e)) in
              rw
                (
                  eq→== m.cluster own same,
                  eq→== m.process r (omega (arith, e, ap cluster_offsets same)),
                )
                (ap some e)
          | inr there ↦
              rw
                (no_match (m.cluster == own) (m.process == r)
                  (λ c q. apart there (==→eq m.cluster own c) (==→eq m.process r q)))
                (search_rank-AllAt own r (suc i) ms a ho inside (later there) (omega arith))
        ]
      where
        no_match : (x y : Bool) → (x ≡ true → y ≡ true → ⊥) → (x && y) ≡ false
        no_match true true h = absurd (h refl refl)
        no_match true false h = refl
        no_match false y h = refl

        apart : (i == cluster_offsets own + r) ≡ false → m.cluster ≡ own → m.process ≡ r → ⊥
        apart ne c q = differ (omega (arith, ap cluster_offsets c)) ne
          where
            differ : i ≡ cluster_offsets own + r → (i == cluster_offsets own + r) ≡ false → ⊥
            differ x y = ground arith

        later : (i == cluster_offsets own + r) ≡ false → suc i ≤ cluster_offsets own + r
        later ne = ground arith
