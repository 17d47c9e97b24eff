-- ===== src/Gateway/Sent.antt =====
-- The loop of writes in nonblock_write_message gives the bytes of one message to the kernel.
use e_salsa_mpi.Prelude.{
  ℕ, zero, suc, ◌+◌, ◌-◌, ◌≤◌, ◌<◌, ltb, ltb→lt, false, List, [], ◌∷◌, ◌++◌, length, take, drop,
  take-append-drop, append_assoc, append-nil, ◌≡◌, ◌∙◌, refl, sym, ap, Bool-cases, inl, inr, arith,
}
use Prim.Native.Nat.{min}
use e_salsa_mpi.Gateway.Write.{
  WriteEvent, takes, busy, broken, Drain, emptied, stuffed, lost, overrun, drain,
}

drop-drop : (c n k : ℕ) (xs : List ℕ) → k ≡ c + n → drop n (drop c xs) ≡ drop k xs
drop-drop zero n k xs h = ap (λ (j : ℕ). drop j xs) (omega arith)
drop-drop (suc c) zero zero [] h = refl
drop-drop (suc c) zero (suc k) [] h = refl
drop-drop (suc c) (suc n) zero [] h = refl
drop-drop (suc c) (suc n) (suc k) [] h = refl
drop-drop (suc c) n zero (x ∷ xs) h = absurd (omega arith)
drop-drop (suc c) n (suc k) (x ∷ xs) h = drop-drop c n k xs (omega arith)

drop-all : (n : ℕ) (xs : List ℕ) → length xs ≤ n → drop n xs ≡ []
drop-all zero [] h = refl
drop-all (suc n) [] h = refl
drop-all zero (x ∷ xs) h = absurd (omega arith)
drop-all (suc n) (x ∷ xs) h = drop-all n xs (omega arith)

-- What a loop of writes from `count` on may do.
abbrev pub Drained : ℕ → List ℕ → ℕ → List ℕ → Drain → Type 0
Drained outcount out count sent (emptied c es s) = (c ≡ outcount) × (s ≡ sent ++ drop count out)
Drained outcount out count sent (stuffed c es s) =
    (c < outcount) × (s ++ drop c out ≡ sent ++ drop count out)
Drained outcount out count sent (lost es s) = Unit {0}
Drained outcount out count sent overrun = ⊥

module _ (outcount : ℕ) (out : List ℕ) (whole : outcount ≡ length out) where
  sent_chunk :
      (count n : ℕ) (sent : List ℕ)
      → (sent ++ take n (drop count out)) ++ drop (count + n) out ≡ sent ++ drop count out
  sent_chunk count n sent =
      append_assoc sent (take n (drop count out)) (drop (count + n) out)
      ∙ ap (◌++◌ sent) (
          ap (λ l. take n (drop count out) ++ l) (sym (drop-drop count n (count + n) out refl))
          ∙ take-append-drop n (drop count out))

  Drained-more :
      (count n : ℕ) (sent : List ℕ) (d : Drain)
      → Drained outcount out (count + n) (sent ++ take n (drop count out)) d
      → Drained outcount out count sent d
  Drained-more count n sent (emptied c es s) (e, b) = (e, b ∙ sent_chunk count n sent)
  Drained-more count n sent (stuffed c es s) (l, b) = (l, b ∙ sent_chunk count n sent)
  Drained-more count n sent (lost es s) h = tt
  Drained-more count n sent overrun h = h

  -- No event is used where nothing is left to write.
  written :
      (es : List WriteEvent) (count : ℕ) (sent : List ℕ)
      → count ≤ outcount
      → ltb count outcount ≡ false
      → Drained outcount out count sent (emptied count es sent)
  written es count sent le h = (
    ground arith,
    sym (ap (◌++◌ sent) (drop-all count out (ground (arith, whole))) ∙ append-nil sent),
  )

  pub drain-Drained :
      (es : List WriteEvent) (count : ℕ) (sent : List ℕ)
      → count ≤ outcount
      → Drained outcount out count sent (drain es outcount out count sent)
  unfolding drain
  drain-Drained [] count sent le = elim (Bool-cases (ltb count outcount)) [
    | inl more ↦ rw more (ltb→lt count outcount more, refl)
    | inr full ↦ rw full (written [] count sent le full)
  ]
  drain-Drained (takes k ∷ es) count sent le = elim (Bool-cases (ltb count outcount)) [
    | inl more ↦
        let n = min (outcount - count) (suc k) in
        rw (more, within)
          (Drained-more count n sent
            (drain es outcount out (count + n) (sent ++ take n (drop count out)))
            (drain-Drained es (count + n) (sent ++ take n (drop count out)) (omega arith)))
    | inr full ↦ rw full (written (takes k ∷ es) count sent le full)
  ]
    where
      within : ltb (length out) (count + min (outcount - count) (suc k)) ≡ false
      within = ground (arith, whole)
  drain-Drained (busy ∷ es) count sent le = elim (Bool-cases (ltb count outcount)) [
    | inl more ↦ rw more (ltb→lt count outcount more, refl)
    | inr full ↦ rw full (written (busy ∷ es) count sent le full)
  ]
  drain-Drained (broken ∷ es) count sent le = elim (Bool-cases (ltb count outcount)) [
    | inl more ↦ rw more tt
    | inr full ↦ rw full (written (broken ∷ es) count sent le full)
  ]
