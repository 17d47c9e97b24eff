-- ===== src/Wire/Layout.antt =====
-- Where the arrays of a reply lie, and that copy_int_array finds them there.
use e_salsa_mpi.Prelude.{
  ℕ, zero, suc, ◌+◌, ◌≤◌, true, some, List, [], ◌∷◌, ◌++◌, length, length-append, length-map,
  length-take, take, drop, map, ℤ, pos, ◌≡◌, ◌∙◌, refl, ap, arith,
}
use e_salsa_mpi.Wire.Words.{word_of, value}
use e_salsa_mpi.Wire.Order.{ntohl-htonl, word_of_below}
use e_salsa_mpi.Wire.Replies.{write_int, write_array, copy_words, copy_int_array}

-- The words that a loop of the server writes, and those that a process keeps of them.
abbrev pub written : ℕ → List ℤ → List ℕ
written n xs = map write_int (take n xs)

abbrev pub kept : ℕ → List ℤ → List ℕ
kept n xs = map word_of (take n xs)

pub write_array-written :
    (n : ℕ) (xs : List ℤ) → n ≤ length xs → write_array n xs ≡ some (written n xs)
unfolding write_array
write_array-written zero xs h = refl
write_array-written (suc n) [] h = absurd (omega arith)
write_array-written (suc n) (x ∷ xs) h = rw (write_array-written n xs (omega arith))

pub length-written : (n : ℕ) (xs : List ℤ) → n ≤ length xs → length (written n xs) ≡ n
length-written n xs h = omega (arith, length-map write_int (take n xs), length-take n xs)

-- One part after the other.
abbrev pub lay : List (List ℕ) → List ℕ
lay [] = []
lay (part ∷ parts) = part ++ lay parts

drop-append : (xs ys : List ℕ) (k : ℕ) → drop (length xs + k) (xs ++ ys) ≡ drop k ys
drop-append [] ys k = ap (λ n. drop n ys) {x = 0 + k} {y = k} (omega arith)
drop-append (x ∷ xs) ys k =
    ap (λ n. drop n (x ∷ (xs ++ ys))) {x = suc (length xs) + k} {y = suc (length xs + k)}
      (omega arith)
    ∙ drop-append xs ys k

-- Behind the first parts stand the others.
pub drop-lay :
    (front back : List (List ℕ)) (k : ℕ)
    → k ≡ length (lay front)
    → drop k (lay (front ++ back)) ≡ lay back
drop-lay [] back k e = ap (λ n. drop n (lay back)) e
drop-lay (part ∷ front) back k e =
    ap (λ n. drop n (part ++ lay (front ++ back))) (e ∙ length-append part (lay front))
    ∙ drop-append part (lay (front ++ back)) (length (lay front))
    ∙ drop-lay front back (length (lay front)) refl

copy_words-written :
    (n : ℕ) (xs : List ℤ) (rest : List ℕ)
    → n ≤ length xs
    → copy_words n (written n xs ++ rest) ≡ value (kept n xs)
unfolding copy_words write_int
copy_words-written zero xs rest h = refl
copy_words-written (suc n) [] rest h = absurd (omega arith)
copy_words-written (suc n) (x ∷ xs) rest h =
    rw (copy_words-written n xs rest (omega arith), ntohl-htonl (word_of x) (word_of_below x))

-- copy_int_array gives the array that the server wrote behind the parts `front`.
pub copy_int_array-written :
    (front : List (List ℕ)) (n k : ℕ) (xs : List ℤ) (back : List (List ℕ))
    → k ≡ length (lay front)
    → n ≤ length xs
    → copy_int_array true (lay (front ++ written n xs ∷ back)) k (pos n) ≡ value (some (kept n xs))
unfolding copy_int_array
copy_int_array-written front n k xs back e h =
    rw (drop-lay front (written n xs ∷ back) k e, copy_words-written n xs (lay back) h)
