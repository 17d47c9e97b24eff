-- ===== src/Groups/Translate.antt =====
-- EMPI_Group_translate_ranks.
use e_salsa_mpi.Prelude.{
  ℕ, suc, ◌<◌, leb, lt→ltb, false, none, List, [], ◌∷◌, get_or, take-length, ◌≡◌, refl, arith, ℤ,
  pos,
}
use e_salsa_mpi.Groups.Defs.{Group, found}
use e_salsa_mpi.Groups.Table.{IsGroup}
use e_salsa_mpi.Groups.Range.{
  past_end, search_pid, translate_one, translate_loop, group_translate_ranks,
}

search_pid-found : (pid j : ℕ) (ms : List ℕ) → found pid ms ≡ false → search_pid pid j ms ≡ none
unfolding search_pid found
search_pid-found pid j [] h = refl
search_pid-found pid j (m ∷ ms) h = ground (arith, search_pid-found pid (suc j) ms)

-- Where the first rank is one of the first group, and the member with this rank is not in the
-- second group, which is not empty, EMPI_Group_translate_ranks reads past the members of the second
-- group.
pub group_translate_ranks_past_end :
    (my_pid : ℕ) (in₁ in₂ : Group) (rank : ℕ) (ranks : List ℤ)
    → IsGroup my_pid in₂
    → 0 < in₂.size
    → rank < in₁.size
    → found (get_or in₁.members rank 0) in₂.members ≡ false
    → group_translate_ranks in₁ (pos rank ∷ ranks) in₂ ≡ past_end
unfolding group_translate_ranks translate_loop translate_one
group_translate_ranks_past_end my_pid in₁ in₂ rank ranks wf ne lt absent =
    rw
      (
        within,
        lt→ltb 0 in₂.size ne,
        wf.0,
        take-length {0} in₂.members,
        search_pid-found (get_or in₁.members rank 0) 0 in₂.members absent,
      )
      refl
  where
    within : leb in₁.size rank ≡ false
    within = ground arith
