-- ===== src/Gateway/Framing.antt =====
-- Reads into a buffer lose no byte, and a byte sequence that starts with a message determines it.
use e_salsa_mpi.Prelude.{
  ℕ, suc, ◌-◌, ◌≤◌, ◌<◌, ltb, ltb→lt, true, false, List, [], ◌∷◌, ◌++◌, length, take, drop, get_or,
  get_or-append_left, length-append, take-append-drop, length-take, append_assoc, ◌≡◌, ◌∙◌, refl,
  sym, ap, subst, Bool-cases, inl, inr, arith,
}
use Prim.Native.Nat.{min}
use mathlib.Core.List.{tail}
use e_salsa_mpi.Gateway.Socket.{
  SocketType, server, peer, ReadEvent, ready, again, eof, broken, header_size, length_field,
}
use e_salsa_mpi.Gateway.Read.{Fill, full, blocked, lost, fill}

-- What a loop of reads into `buf` may do.
abbrev pub Filled : ℕ → List ℕ → List ℕ → Fill → Type 0
Filled incount buf stream (full count buf' rest) =
    (count ≡ length buf') × (count ≡ incount) × (buf' ++ rest.stream ≡ buf ++ stream)
Filled incount buf stream (blocked count buf' rest) =
    (count ≡ length buf')
    × (count < incount)
    × (length buf ≤ count)
    × (buf' ++ rest.stream ≡ buf ++ stream)
Filled incount buf stream lost = Unit {0}

module _ (incount : ℕ) (buf stream : List ℕ) (fits : length buf ≤ incount) where
  stop :
      (es : List ReadEvent)
      → ltb (length buf) incount ≡ false
      → Filled incount buf stream (full (length buf) buf (record { events = es; stream = stream }))
  stop es h = (refl, ground arith, refl)

  wait :
      (es : List ReadEvent)
      → ltb (length buf) incount ≡ true
      → Filled incount buf stream
          (blocked (length buf) buf (record { events = es; stream = stream }))
  wait es h = (refl, ltb→lt _ _ h, omega arith, refl)

Filled-more :
    (incount : ℕ) (buf stream : List ℕ) (n : ℕ) (r : Fill)
    → Filled incount (buf ++ take n stream) (drop n stream) r
    → Filled incount buf stream r
Filled-more incount buf stream n (full count buf' rest) (c, e, a) = (
  c,
  e,
  a ∙ append_assoc buf (take n stream) (drop n stream) ∙ ap (◌++◌ buf) (take-append-drop n stream),
)
Filled-more incount buf stream n (blocked count buf' rest) (c, l, g, a) = (
  c,
  l,
  omega (arith, length-append {0} buf (take n stream)),
  a ∙ append_assoc buf (take n stream) (drop n stream) ∙ ap (◌++◌ buf) (take-append-drop n stream),
)
Filled-more incount buf stream n lost h = tt

pub fill-Filled :
    (es : List ReadEvent) (incount : ℕ) (buf stream : List ℕ)
    → length buf ≤ incount
    → Filled incount buf stream (fill es incount (length buf) buf stream)
unfolding fill
fill-Filled [] incount buf stream h = elim (Bool-cases (ltb (length buf) incount)) [
  | inl t ↦ rw t (wait incount buf stream h [] t)
  | inr f ↦ rw f (stop incount buf stream h [] f)
]
fill-Filled (ready k ∷ es) incount buf [] h = elim (Bool-cases (ltb (length buf) incount)) [
  | inl t ↦ rw t (wait incount buf [] h es t)
  | inr f ↦ rw f (stop incount buf [] h (ready k ∷ es) f)
]
fill-Filled (ready k ∷ es) incount buf (x ∷ xs) h =
    let n = min (incount - length buf) (suc k) in
    elim (Bool-cases (ltb (length buf) incount)) [
      | inl t ↦
          let grown_length = length-append buf (take n (x ∷ xs)) in
          let room : length (buf ++ take n (x ∷ xs)) ≤ incount =
            omega (arith, grown_length, length-take {0} n (x ∷ xs)) in
          rw t (
            subst
              (λ c.
                Filled incount buf (x ∷ xs)
                  (fill es incount c (buf ++ take n (x ∷ xs)) (drop n (x ∷ xs))))
              grown_length
              (Filled-more incount buf (x ∷ xs) n _
                (fill-Filled es incount (buf ++ take n (x ∷ xs)) (drop n (x ∷ xs)) room)))
      | inr f ↦ rw f (stop incount buf (x ∷ xs) h (ready k ∷ es) f)
    ]
fill-Filled (again ∷ es) incount buf stream h = elim (Bool-cases (ltb (length buf) incount)) [
  | inl t ↦ rw t (wait incount buf stream h es t)
  | inr f ↦ rw f (stop incount buf stream h (again ∷ es) f)
]
fill-Filled (eof ∷ es) incount buf stream h = elim (Bool-cases (ltb (length buf) incount)) [
  | inl t ↦ rw t tt
  | inr f ↦ rw f (stop incount buf stream h (eof ∷ es) f)
]
fill-Filled (broken ∷ es) incount buf stream h = elim (Bool-cases (ltb (length buf) incount)) [
  | inl t ↦ rw t tt
  | inr f ↦ rw f (stop incount buf stream h (broken ∷ es) f)
]

-- Two ways to cut one list: the shorter first part is a prefix of the longer one.
pub append-split :
    (m xs buf ys : List ℕ)
    → m ++ xs ≡ buf ++ ys
    → length buf ≤ length m
    → (us : List ℕ) × (m ≡ buf ++ us) × (ys ≡ us ++ xs)
append-split m xs [] ys e h = (m, refl, sym e)
append-split [] xs (b ∷ buf) ys e h = absurd (omega arith)
append-split (x ∷ m) xs (b ∷ buf) ys e h =
    let (us, p, q) = append-split m xs buf ys (ap tail e) (omega arith) in (us, ground arith, q)

-- The length field stands in the header.
pub length_field-append :
    (type : SocketType) (buf us : List ℕ)
    → header_size ≤ length buf
    → length_field type (buf ++ us) ≡ length_field type buf
unfolding length_field
length_field-append server buf us h =
    rw (byte 12 (omega arith), byte 13 (omega arith), byte 14 (omega arith), byte 15 (omega arith))
  where
    byte : (i : ℕ) → i < length buf → get_or (buf ++ us) i 0 ≡ get_or buf i 0
    byte i lt = get_or-append_left buf us i 0 lt
length_field-append peer buf us h =
    rw (byte 12 (omega arith), byte 13 (omega arith), byte 14 (omega arith), byte 15 (omega arith))
  where
    byte : (i : ℕ) → i < length buf → get_or (buf ++ us) i 0 ≡ get_or buf i 0
    byte i lt = get_or-append_left buf us i 0 lt
