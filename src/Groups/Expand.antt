-- ===== src/Groups/Expand.antt =====
-- get_range against the ranks that a triplet (first, last, stride) stands for.
use e_salsa_mpi.Prelude.{
  ℕ, zero, suc, ◌+◌, ◌≤◌, ◌<◌, ltb, leb, le→leb, lt→ltb, leb→le, if◌then◌else◌, true, false, ◌&&◌,
  List, [], ◌∷◌, ◌++◌, map, length, length-append, get_or, append_assoc, ◌≡◌, ◌∙◌, refl, sym, inl,
  inr, arith, ℤ, pos, negsuc, Bool-cases,
}
use e_salsa_mpi.Codes.{err_arg}
use e_salsa_mpi.Groups.Defs.{Group}
use e_salsa_mpi.Groups.Range.{Ranged, ranged, refused, int_max, forward_range}

-- i, i + s, ..., in all c + 1 numbers, and the last of them.
abbrev pub up : ℕ → ℕ → ℕ → List ℕ
up i s zero = i ∷ []
up i s (suc c) = i ∷ up (i + s) s c

abbrev pub top : ℕ → ℕ → ℕ → ℕ
top i s zero = i
top i s (suc c) = top (i + s) s c

-- The same from the last to the first.
abbrev pub down : ℕ → ℕ → ℕ → List ℕ
down b s zero = b ∷ []
down b s (suc c) = top b s (suc c) ∷ down b s c

-- The ranks of a range: they start at `first`, differ by `stride`, and end with the last one that
-- is not beyond `last`.
abbrev pub Expands : ℕ → ℕ → ℤ → List ℕ → Type 0
Expands first last (pos s) ranks =
    (0 < s)
    × ((c : ℕ) × (ranks ≡ up first s c) × (top first s c ≤ last) × (last < top first s c + s))
Expands first last (negsuc k) ranks =
    (c : ℕ) × ((b : ℕ) × (first ≡ top b (suc k) c)
      × (ranks ≡ down b (suc k) c)
      × (last ≤ b)
      × (b < last + suc k))

pub top-suc : (i s c : ℕ) → top i s (suc c) ≡ top i s c + s
top-suc i s zero = refl
top-suc i s (suc c) = top-suc (i + s) s c

pub top_above : (i s c : ℕ) → 0 < s → i + c ≤ top i s c
top_above i s zero h = omega arith
top_above i s (suc c) h = omega (arith, top_above (i + s) s c h)

pub length-up : (i s c : ℕ) → length (up i s c) ≡ suc c
length-up i s zero = omega arith
length-up i s (suc c) = omega (arith, length-up (i + s) s c)

pub length-down : (b s c : ℕ) → length (down b s c) ≡ suc c
length-down b s zero = omega arith
length-down b s (suc c) = omega (arith, length-down b s c)

module _ (input : Group) where
  abbrev pub member : ℕ → ℕ
  member i = get_or input.members i 0

  -- What a range of these ranks does: it adds the members, unless they are too many for `dst`.
  abbrev pub added : List ℕ → List ℕ → Ranged
  added dst ranks =
      if leb (length dst + length ranks) input.size
      then ranged (dst ++ map member ranks)
      else refused err_arg

  pub added-cons :
      (dst : List ℕ) (i : ℕ) (ranks : List ℕ)
      → added (dst ++ member i ∷ []) ranks ≡ added dst (i ∷ ranks)
  added-cons dst i ranks =
      rw
        (
          append_assoc dst (member i ∷ []) (map member ranks),
          same_length (length (dst ++ member i ∷ [])) (length dst) (length ranks)
              (length-append dst (member i ∷ [])),
        )
        refl
    where
      same_length : (n m k : ℕ) → n ≡ m + 1 → n + k ≡ m + suc k
      same_length n m k h = omega arith

  pub full_range :
      (dst ranks : List ℕ)
      → input.size < length dst + length ranks
      → added dst ranks ≡ refused err_arg
  full_range dst ranks h = rw (above _ _ h) refl
    where
      above : (a b : ℕ) → b < a → leb a b ≡ false
      above a b h' = ground arith

  inside : (n last : ℕ) → n ≤ last → last < input.size → (ltb n input.size && leb n last) ≡ true
  inside n last h b = rw (lt→ltb n input.size (omega arith), le→leb n last h) refl

  forward_range-step :
      (fuel i last s : ℕ) (dst : List ℕ)
      → i ≤ last
      → last < input.size
      → i + s ≤ int_max
      → leb input.size (length dst) ≡ false
      → forward_range input (suc fuel) i last s dst
        ≡ forward_range input fuel (i + s) last s (dst ++ member i ∷ [])
  unfolding forward_range
  forward_range-step fuel i last s dst h b fits place =
      rw (inside i last h b, place, no_overflow (i + s) fits) refl
    where
      no_overflow : (n : ℕ) → n ≤ int_max → ltb int_max n ≡ false
      no_overflow n h' = ground arith

  forward_range-full :
      (fuel i last s : ℕ) (dst : List ℕ)
      → i ≤ last
      → last < input.size
      → leb input.size (length dst) ≡ true
      → forward_range input (suc fuel) i last s dst ≡ refused err_arg
  unfolding forward_range
  forward_range-full fuel i last s dst h b no_place = rw (inside i last h b, no_place) refl

  forward_range-end :
      (fuel i last s : ℕ) (dst : List ℕ)
      → last < i
      → forward_range input (suc fuel) i last s dst ≡ ranged dst
  unfolding forward_range
  forward_range-end fuel i last s dst h = rw (outside i h) refl
    where
      outside : (n : ℕ) → last < n → (ltb n input.size && leb n last) ≡ false
      outside n h' = ground arith

  pub last_one :
      (dst : List ℕ) (i : ℕ)
      → leb input.size (length dst) ≡ false
      → added dst (i ∷ []) ≡ ranged (dst ++ member i ∷ [])
  last_one dst i place = rw (small (length dst) place) refl
    where
      small : (n : ℕ) → leb input.size n ≡ false → leb (n + 1) input.size ≡ true
      small n h = ground arith

  pub forward_range-added :
      (fuel c i last s : ℕ) (dst : List ℕ)
      → 0 < s
      → c + 1 < fuel
      → top i s c ≤ last
      → last < top i s c + s
      → last < input.size
      → last + s ≤ int_max
      → forward_range input fuel i last s dst ≡ added dst (up i s c)
  forward_range-added zero c i last s dst pos_s h le lt bound fits = absurd (omega arith)
  forward_range-added (suc zero) c i last s dst pos_s h le lt bound fits = absurd (omega arith)
  forward_range-added (suc (suc fuel)) c i last s dst pos_s h le lt bound fits =
      elim (Bool-cases (leb input.size (length dst))) [
        | inl no_place ↦
            forward_range-full (suc fuel) i last s dst (omega (arith, top_above i s c pos_s)) bound
              no_place
            ∙ sym (
                full_range dst (up i s c)
                  (omega (arith, length-up i s c, leb→le input.size (length dst) no_place)))
        | inr place ↦
            forward_range-step (suc fuel) i last s dst (omega (arith, top_above i s c pos_s)) bound
              (omega (arith, top_above i s c pos_s)) place
            ∙ further c h le lt
                (λ c' h' le' lt'.
                  forward_range-added (suc fuel) c' (i + s) last s (dst ++ member i ∷ []) pos_s h'
                    le' lt' bound fits)
                place
      ]
    where
      further :
          (k : ℕ)
          → k + 1 < suc (suc fuel)
          → top i s k ≤ last
          → last < top i s k + s
          → ((c' : ℕ)
              → c' + 1 < suc fuel
              → top (i + s) s c' ≤ last
              → last < top (i + s) s c' + s
              → forward_range input (suc fuel) (i + s) last s (dst ++ member i ∷ [])
                ≡ added (dst ++ member i ∷ []) (up (i + s) s c'))
          → leb input.size (length dst) ≡ false
          → forward_range input (suc fuel) (i + s) last s (dst ++ member i ∷ [])
            ≡ added dst (up i s k)
      further zero h' le' lt' ih place =
          forward_range-end fuel (i + s) last s _ lt' ∙ sym (last_one dst i place)
      further (suc k) h' le' lt' ih place =
          ih k (omega arith) le' lt' ∙ added-cons dst i (up (i + s) s k)
