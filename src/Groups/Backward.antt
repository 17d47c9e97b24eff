-- ===== src/Groups/Backward.antt =====
-- The backward loop of get_range, and get_range on a range with a stride of either sign.
use e_salsa_mpi.Prelude.{
  ℕ, zero, suc, ◌+◌, ◌-◌, ◌≤◌, ◌<◌, ltb, leb, le→leb, lt→ltb, leb→le, if◌then◌else◌, true, false,
  List, [], ◌∷◌, ◌++◌, length, ◌≡◌, ◌∙◌, refl, sym, ap, inl, inr, arith, ℤ, pos, negsuc, pos_part,
  Bool-cases,
}
use e_salsa_mpi.Codes.{err_arg}
use e_salsa_mpi.Groups.Defs.{Group}
use e_salsa_mpi.Groups.Range.{ranged, refused, int_max, backward_range, range_loops, get_range}
use e_salsa_mpi.Groups.Expand.{
  top, down, Expands, top-suc, top_above, length-down, member, added, added-cons, full_range,
  last_one, forward_range-added,
}

module _ (input : Group) where
  backward_range-full :
      (fuel i last s : ℕ) (dst : List ℕ)
      → last ≤ i
      → leb input.size (length dst) ≡ true
      → backward_range input (suc fuel) i last s dst ≡ refused err_arg
  unfolding backward_range
  backward_range-full fuel i last s dst h no_place = rw (le→leb last i h, no_place) refl

  backward_range-step :
      (fuel i last s : ℕ) (dst : List ℕ)
      → last ≤ i
      → leb input.size (length dst) ≡ false
      → backward_range input (suc fuel) i last s dst ≡ (
          if ltb i s
          then ranged (dst ++ member input i ∷ [])
          else backward_range input fuel (i - s) last s (dst ++ member input i ∷ []))
  unfolding backward_range
  backward_range-step fuel i last s dst h place = rw (le→leb last i h, place) refl

  backward_range-end :
      (fuel i last s : ℕ) (dst : List ℕ)
      → i < last
      → backward_range input (suc fuel) i last s dst ≡ ranged dst
  unfolding backward_range
  backward_range-end fuel i last s dst h = rw (outside h) refl
    where
      outside : i < last → leb last i ≡ false
      outside h' = ground arith

  backward_range-last :
      (fuel b last s : ℕ) (dst : List ℕ)
      → last ≤ b
      → b < last + s
      → leb input.size (length dst) ≡ false
      → backward_range input (suc (suc fuel)) b last s dst ≡ added input dst (b ∷ [])
  backward_range-last fuel b last s dst le lt place =
      backward_range-step (suc fuel) b last s dst le place
      ∙ elim (Bool-cases (ltb b s)) [
        | inl below ↦ rw below refl
        | inr enough ↦
            rw enough
              (backward_range-end fuel (b - s) last s (dst ++ member input b ∷ []) (before enough))
      ]
      ∙ sym (last_one input dst b place)
    where
      before : ltb b s ≡ false → b - s < last
      before h = ground arith

  backward_range-added :
      (fuel c b last s : ℕ) (dst : List ℕ)
      → 0 < s
      → c + 1 < fuel
      → last ≤ b
      → b < last + s
      → backward_range input fuel (top b s c) last s dst ≡ added input dst (down b s c)
  backward_range-added zero c b last s dst pos_s h le lt = absurd (omega arith)
  backward_range-added (suc zero) c b last s dst pos_s h le lt = absurd (omega arith)
  backward_range-added (suc (suc fuel)) c b last s dst pos_s h le lt =
      elim (Bool-cases (leb input.size (length dst))) [
        | inl no_place ↦
            backward_range-full (suc fuel) (top b s c) last s dst
              (omega (arith, top_above b s c pos_s)) no_place
            ∙ sym (
                full_range input dst (down b s c)
                  (omega (arith, length-down b s c, leb→le input.size (length dst) no_place)))
        | inr place ↦
            further c h
              (λ c' h'.
                backward_range-added (suc fuel) c' b last s
                  (dst ++ member input (top b s (suc c')) ∷ []) pos_s h' le lt)
              place
      ]
    where
      above_step : (n m : ℕ) → n ≡ m + s → ltb n s ≡ false
      above_step n m h' = ground arith

      further :
          (k : ℕ)
          → k + 1 < suc (suc fuel)
          → ((c' : ℕ)
              → c' + 1 < suc fuel
              → backward_range input
                  (suc fuel)
                  (top b s c')
                  last
                  s
                  (dst ++ member input (top b s (suc c')) ∷ [])
                ≡ added input (dst ++ member input (top b s (suc c')) ∷ []) (down b s c'))
          → leb input.size (length dst) ≡ false
          → backward_range input (suc (suc fuel)) (top b s k) last s dst
            ≡ added input dst (down b s k)
      further zero h' ih place = backward_range-last fuel b last s dst le lt place
      further (suc k) h' ih place =
          let e = top-suc b s k in
          backward_range-step (suc fuel) (top b s (suc k)) last s dst
            (omega (arith, e, top_above b s k pos_s)) place
          ∙ rw (above_step (top b s (suc k)) (top b s k) e) (
              ap
                (λ n.
                  backward_range input (suc fuel) n last s
                    (dst ++ member input (top b s (suc k)) ∷ []))
                (omega (arith, e)))
          ∙ ih k (omega arith)
          ∙ added-cons input dst (top b s (suc k)) (down b s k)

  -- get_range on two ranks of the group, with the ranks that its range expands to and a step beyond
  -- `last` that an int can hold: it appends the members with these ranks to `dst`, or returns
  -- EMPI_ERR_ARG if there would be more than the group has; the fuel is enough.
  pub get_range-Expands :
      (dst : List ℕ) (first last : ℕ) (stride : ℤ) (ranks : List ℕ)
      → first < input.size
      → last < input.size
      → last + pos_part stride ≤ int_max
      → Expands first last stride ranks
      → get_range input dst (pos first) (pos last) stride ≡ added input dst ranks
  unfolding get_range range_loops
  get_range-Expands dst first last (pos s) ranks hf hl fits (pos_s, (c, e, le, lt)) =
      rw
        (
          in_size first hf,
          in_size last hl,
          le→leb first last (omega (arith, top_above first s c pos_s)),
          lt→ltb 0 s pos_s,
          e,
        )
        (forward_range-added input (suc input.size) c first last s dst pos_s
          (omega (arith, top_above first s c pos_s)) le lt hl fits)
    where
      in_size : (n : ℕ) → n < input.size → leb input.size n ≡ false
      in_size n h = ground arith
  get_range-Expands dst first last (negsuc k) ranks hf hl fits (c, (b, ef, e, le, lt)) =
      rw
        (
          in_size first hf,
          in_size last hl,
          le→leb last first (omega (arith, ef, top_above b (suc k) c (omega arith))),
          e,
        )
        (ap (λ n. backward_range input (suc input.size) n last (suc k) dst) ef
          ∙ backward_range-added (suc input.size) c b last (suc k) dst (omega arith)
              (omega (arith, ef, top_above b (suc k) c (omega arith))) le lt)
    where
      in_size : (n : ℕ) → n < input.size → leb input.size n ≡ false
      in_size n h = ground arith
