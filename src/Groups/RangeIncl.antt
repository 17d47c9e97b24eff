-- ===== src/Groups/RangeIncl.antt =====
-- group_range_incl is group_incl on the expanded ranges, as the comment in src/backend/group.c says.
use e_salsa_mpi.Prelude.{
  ℕ, zero, suc, ◌+◌, ◌≤◌, ◌<◌, ◌==◌, ne→==, leb, le→leb, if◌then◌else◌, true, false, not, some,
  List, [], ◌∷◌, ◌++◌, map, length, length-append, length-map, take, append-nil, append_assoc, ◌≡◌,
  ◌∙◌, refl, sym, ap, ap₂, arith, ℤ, pos, negsuc, pos_part,
}
use mathlib.Core.List.{map-append}
use mathlib.Core.Path.{fun_ext}
use e_salsa_mpi.Codes.{ok}
use e_salsa_mpi.Groups.Defs.{
  Group, Groups, Mallocs, incl_loop, group_incl, fill_group, create_group,
}
use e_salsa_mpi.Groups.Range.{
  Ranged, ranged, int_max, get_range, next_range, get_ranges, rank_from, made, make_ranged,
  group_range_incl,
}
use e_salsa_mpi.Groups.Expand.{up, top, down, Expands, top-suc, top_above, member}
use e_salsa_mpi.Groups.Backward.{get_range-Expands}

abbrev AllBelow : ℕ → List ℕ → Type 0
AllBelow n [] = Unit {0}
AllBelow n (x ∷ xs) = (x < n) × AllBelow n xs

AllBelow-append : (n : ℕ) (xs ys : List ℕ) → AllBelow n xs → AllBelow n ys → AllBelow n (xs ++ ys)
AllBelow-append n [] ys h k = k
AllBelow-append n (x ∷ xs) ys (lt, h) k = (lt, AllBelow-append n xs ys h k)

AllBelow-up : (n i s c : ℕ) → 0 < s → top i s c < n → AllBelow n (up i s c)
AllBelow-up n i s zero p h = (h, tt)
AllBelow-up n i s (suc c) p h =
    (omega (arith, top_above (i + s) s c p), AllBelow-up n (i + s) s c p h)

AllBelow-down : (n b s c : ℕ) → top b s c < n → AllBelow n (down b s c)
AllBelow-down n b s zero h = (h, tt)
AllBelow-down n b s (suc c) h = (h, AllBelow-down n b s c (omega (arith, top-suc b s c)))

AllBelow-Expands :
    (n first last : ℕ) (stride : ℤ) (ranks : List ℕ)
    → first < n
    → last < n
    → Expands first last stride ranks
    → AllBelow n ranks
AllBelow-Expands n first last (pos s) ranks hf hl (p, (c, e, le, lt)) =
    rw e (AllBelow-up n first s c p (omega arith))
AllBelow-Expands n first last (negsuc k) ranks hf hl (c, (b, ef, e, le, lt)) =
    rw e (AllBelow-down n b (suc k) c (omega (arith, ef)))

module _ (input : Group) where
  -- The ranges have their bounds among the ranks of the group, no step leaves the range of an int,
  -- and `ranks` is what they expand to, one after another.
  abbrev pub Expanded : List (ℤ × ℤ × ℤ) → List ℕ → Type 0
  Expanded [] ranks = ranks ≡ []
  Expanded ((first, last, stride) ∷ ranges) ranks =
      (f : ℕ) × ((l : ℕ) × (xs : List ℕ) × (ys : List ℕ) × (first ≡ pos f)
        × (last ≡ pos l)
        × (f < input.size)
        × (l < input.size)
        × (l + pos_part stride ≤ int_max)
        × Expands f l stride xs
        × Expanded ranges ys
        × (ranks ≡ xs ++ ys))

  AllBelow-Expanded :
      (ranges : List (ℤ × ℤ × ℤ)) (ranks : List ℕ)
      → Expanded ranges ranks
      → AllBelow input.size ranks
  AllBelow-Expanded [] ranks e = rw e tt
  AllBelow-Expanded ((first, last, stride) ∷ ranges) ranks
        (f, (l, xs, ys, ef, el, hf, hl, fits, x, rest, e)) =
      rw e (
        AllBelow-append input.size xs ys (AllBelow-Expands input.size f l stride xs hf hl x)
          (AllBelow-Expanded ranges ys rest))

  get_ranges-Expanded :
      (ranges : List (ℤ × ℤ × ℤ)) (ranks dst : List ℕ)
      → Expanded ranges ranks
      → length dst + length ranks ≤ input.size
      → get_ranges input dst ranges ≡ ranged (dst ++ map (member input) ranks)
  unfolding get_ranges
  get_ranges-Expanded [] ranks dst e h = rw e (ap ranged (sym (append-nil dst)))
  get_ranges-Expanded ((first, last, stride) ∷ ranges) ranks dst
        (f, (l, xs, ys, ef, el, hf, hl, fits, x, rest, e)) h =
      ap₂ (λ n m. next_range input go (get_range input dst n m stride)) ef el
      ∙ ap (next_range input go) (get_range-Expands input dst f l stride xs hf hl fits x)
      ∙ rw
          (
            e,
            le→leb (length dst + length xs) input.size
                (omega (arith, ap (length {A = ℕ}) e, length-append {0} xs ys)),
          )
          (get_ranges-Expanded ranges ys (dst ++ map (member input) xs) rest (
              omega (
                arith,
                ap (length {A = ℕ}) e,
                length-append {0} xs ys,
                length-append {0} dst (map (member input) xs),
                length-map {0, 0} (member input) xs,
              ))
            ∙ ap ranged (
                append_assoc dst (map (member input) xs) (map (member input) ys)
                ∙ ap (λ l'. dst ++ l') (sym (map-append (member input) xs ys))))
    where
      go : List ℕ → Ranged
      go dst' = get_ranges input dst' ranges

  module _ (my_pid : ℕ) where
    incl_loop-ranks :
        (ranks : List ℕ) (i : ℕ) (res : Group)
        → AllBelow input.size ranks
        → incl_loop my_pid input i (map pos ranks) res
          ≡ ok (record res {
            members = res.members ++ map (member input) ranks;
            rank = rank_from my_pid i (map (member input) ranks) res.rank;
          })
    unfolding incl_loop rank_from
    incl_loop-ranks [] i res h =
        ap (λ l. ok (record res { members = l })) (sym (append-nil res.members))
    incl_loop-ranks (k ∷ ranks) i res (lt, h) =
        let m = member input k in
        let r = if m == my_pid then pos i else res.rank in
        rw (within k lt) (
          incl_loop-ranks ranks (suc i) (record res { members = res.members ++ m ∷ []; rank = r }) h
          ∙ ap
              (λ l. ok (record res {
                members = l;
                rank = rank_from my_pid (suc i) (map (member input) ranks) r;
              }))
              (append_assoc res.members (m ∷ []) (map (member input) ranks)))
      where
        within : (n : ℕ) → n < input.size → leb input.size n ≡ false
        within n h' = ground arith

    -- On a group with members, and with memory for its temporary array, group_range_incl does what
    -- group_incl does with the ranks that the ranges expand to, provided that these are not more
    -- than the members of the group.
    pub group_range_incl-group_incl :
        (mem : Mallocs) (ranges : List (ℤ × ℤ × ℤ)) (ranks : List ℕ) (s : Groups)
        → 0 < input.size
        → mem.temporary ≡ true
        → Expanded ranges ranks
        → length ranks ≤ input.size
        → group_range_incl my_pid mem (some input) ranges s
          ≡ made (group_incl my_pid mem (some input) (pos (length ranks)) (map pos ranks) s)
    unfolding group_range_incl make_ranged group_incl
    group_range_incl-group_incl mem ranges ranks s ne given e few =
        rw
          (
            ne→== input.size 0 (omega arith),
            not_given,
            get_ranges-Expanded ranges ranks [] e (omega arith),
            length-map {0, 0} (member input) ranks,
          )
          (ap (λ f. made (fill_group (create_group mem (pos (length ranks)) s) f))
            (fun_ext λ res. rw (take-map ranks) (
              sym (
                incl_loop-ranks ranks 0 (record res { size = length ranks; rank = negsuc 0 })
                  (AllBelow-Expanded ranges ranks e)))))
      where
        not_given : not mem.temporary ≡ false
        not_given = ap not given

        take-map : (ks : List ℕ) → take (length ks) (map pos ks) ≡ map pos ks
        take-map [] = refl
        take-map (k ∷ ks) = ap (◌∷◌ (pos k)) (take-map ks)
