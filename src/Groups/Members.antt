-- ===== src/Groups/Members.antt =====
-- The rank of this process while members are added to a group.
use e_salsa_mpi.Prelude.{
  ℕ, zero, suc, ◌==◌, ==→eq, if◌then◌else◌, false, some, List, [], ◌∷◌, ◌++◌, length, get_elem?,
  ◌≡◌, ◌∙◌, refl, ap, inl, inr, arith, ℤ, pos, negsuc, Bool-cases,
}
use e_salsa_mpi.Groups.Defs.{found}
use e_salsa_mpi.Groups.Table.{RankOf}

pub get_elem?-end : (xs : List ℕ) (m : ℕ) → get_elem? (xs ++ m ∷ []) (length xs) ≡ some m
get_elem?-end [] m = refl
get_elem?-end (x ∷ xs) m = get_elem?-end xs m

pub get_elem?-append_some :
    (xs ys : List ℕ) (k m : ℕ) → get_elem? xs k ≡ some m → get_elem? (xs ++ ys) k ≡ some m
get_elem?-append_some [] ys k m h = cc
get_elem?-append_some (x ∷ xs) ys zero m h = h
get_elem?-append_some (x ∷ xs) ys (suc k) m h = get_elem?-append_some xs ys k m h

found-append_end :
    (pid m : ℕ) (xs : List ℕ)
    → found pid xs ≡ false
    → (m == pid) ≡ false
    → found pid (xs ++ m ∷ []) ≡ false
unfolding found
found-append_end pid m [] h ne = ground arith
found-append_end pid m (x ∷ xs) h ne = ground (arith, found-append_end pid m xs)

-- A member at the end of the list, with the test of the source.
pub RankOf-append :
    (pid m : ℕ) (xs : List ℕ) (r : ℤ)
    → RankOf pid xs r
    → RankOf pid (xs ++ m ∷ []) (if m == pid then pos (length xs) else r)
RankOf-append pid m xs r h = elim (Bool-cases (m == pid)) [
  | inl same ↦ rw same (get_elem?-end xs m ∙ ap some (==→eq m pid same))
  | inr other ↦ rw other (keep r other h)
]
  where
    keep : (r' : ℤ) → (m == pid) ≡ false → RankOf pid xs r' → RankOf pid (xs ++ m ∷ []) r'
    keep (pos k) ne h' = get_elem?-append_some xs (m ∷ []) k pid h'
    keep (negsuc k) ne (z, f) = (z, found-append_end pid m xs f ne)
