-- ===== src/Queue/Matching.antt =====
-- `data_message_dequeue_matching` takes the oldest message that matches and keeps the others.
use Prim.Native.Nat.{ℕ}
use e_salsa_mpi.Prelude.{
  true, false, none, some, [], ◌∷◌, ◌++◌, ◌≡◌, ◌≢◌, ◌∙◌, refl, sym, ap, arith,
}
use e_salsa_mpi.Queue.Defs.{Heap, MessageQueue, write, take_out}
use e_salsa_mpi.Queue.Chain.{
  Cells, has, head_ptr, node, Chain, Represents, frame-write, has-last, last-cons, last-append,
  has-append, ne_of_has, write_self, write_other, queue_path,
}
use e_salsa_mpi.Queue.Unlink.{
  take_out_head, take_out_only, take_out_last, take_out_middle, bypassed, Chain-suffix, head-append,
  Chain-bypass,
}

module _ {M : Type 0} where
  abbrev freed : Heap M → ℕ → M → Heap M
  freed h a m = write (write h a (some (node m none))) a none

  head_of :
      (pre : Cells M) (b : ℕ) (w : M) (ys : Cells M)
      → (x : ℕ) × (head_ptr (pre ++ (b, w) ∷ ys) ≡ some x) × (has x (pre ++ (b, w) ∷ []) ≡ true)
  head_of [] b w ys = (b, refl, ground arith)
  head_of ((p, v) ∷ pre) b w ys = (p, refl, ground arith)

  Chain-apart :
      (h : Heap M) (pre : Cells M) (b : ℕ) (w : M) (a : ℕ) (m : M) (xs : Cells M)
      → Chain h (pre ++ (b, w) ∷ (a, m) ∷ xs)
      → has a (pre ++ (b, w) ∷ []) ≡ false
  Chain-apart h [] b w a m xs c = ground arith
  Chain-apart h ((p, v) ∷ pre) b w a m xs c =
      ground (arith, Chain-apart h pre b w a m xs c.2, has-append p pre ((b, w) ∷ (a, m) ∷ xs))

  bypassed-Chain :
      (h : Heap M) (pre : Cells M) (b : ℕ) (w : M) (a : ℕ) (m : M) (xs : Cells M)
      → Chain h (pre ++ (b, w) ∷ (a, m) ∷ xs)
      → b ≢ a
      → Chain (bypassed h b w a m (head_ptr xs)) (pre ++ (b, w) ∷ xs)
  bypassed-Chain h pre b w a m xs c ne =
      Chain-bypass h (bypassed h b w a m (head_ptr xs)) pre b w a m xs c
        (write_other h₂ a none b ne
          ∙ write_other h₁ a (some (node m none)) b ne
          ∙ write_self h b (some (node w (head_ptr xs))))
        λ d na nb.
          write_other h₂ a none d na
          ∙ write_other h₁ a (some (node m none)) d na
          ∙ write_other h b (some (node w (head_ptr xs))) d nb
    where
      h₁ : Heap M
      h₁ = write h b (some (node w (head_ptr xs)))

      h₂ : Heap M
      h₂ = write h₁ a (some (node m none))

  -- Taking out the node behind `b`.
  pub take_out_behind :
      (q : MessageQueue M) (pre : Cells M) (b : ℕ) (w : M) (a : ℕ) (m : M) (xs : Cells M)
      → Represents q (pre ++ (b, w) ∷ (a, m) ∷ xs)
      → (q' : MessageQueue M) × (take_out (some b) a (node m (head_ptr xs)) q ≡ some (some m, q'))
        × Represents q' (pre ++ (b, w) ∷ xs)
  take_out_behind q pre b w a m xs r = behind xs r
    where
      a-ne :
          (x : ℕ) (ys : Cells M)
          → Chain q.heap (pre ++ (b, w) ∷ (a, m) ∷ ys)
          → has x (pre ++ (b, w) ∷ []) ≡ true
          → a ≢ x
      a-ne x ys c i same =
          ne_of_has x a (pre ++ (b, w) ∷ []) i (Chain-apart q.heap pre b w a m ys c) (sym same)

      b-in : has b (pre ++ (b, w) ∷ []) ≡ true
      b-in = ground (arith, has-append b pre ((b, w) ∷ []))

      behind :
          (ys : Cells M)
          → Represents q (pre ++ (b, w) ∷ (a, m) ∷ ys)
          → (q' : MessageQueue M) × (take_out (some b) a (node m (head_ptr ys)) q
              ≡ some (some m, q'))
            × Represents q' (pre ++ (b, w) ∷ ys)
      behind [] r' =
          let (x, hx, ix) = head_of pre b w ((a, m) ∷ []) in
          let c = Chain-suffix q.heap pre ((b, w) ∷ (a, m) ∷ []) r'.chain in
          (
            record { head = some x; tail = some b; heap = bypassed q.heap b w a m none },
            ap (take_out (some b) a (node m none)) (
                  queue_path q (some x) (some a) (r'.head_is ∙ hx)
                    (r'.tail_is ∙ last-append pre (b, w) ((a, m) ∷ [])))
                ∙ take_out_last q.heap x b a w m c.0 c.2.0 (a-ne x [] r'.chain ix)
                    (a-ne b [] r'.chain b-in),
            record {
              head_is = sym hx ∙ head-append pre (b, w) ((a, m) ∷ []) [];
              tail_is = sym (last-append pre (b, w) []);
              chain =
                  bypassed-Chain q.heap pre b w a m [] r'.chain
                    λ same. a-ne b [] r'.chain b-in (sym same);
            },
          )
      behind (y ∷ ys) r' =
          let (x, hx, ix) = head_of pre b w ((a, m) ∷ y ∷ ys) in
          let (t, ht) = last-cons y ys in
          let c = Chain-suffix q.heap pre ((b, w) ∷ (a, m) ∷ y ∷ ys) r'.chain in
          (
            record {
              head = some x;
              tail = some t;
              heap = bypassed q.heap b w a m (head_ptr (y ∷ ys));
            },
            ap (take_out (some b) a (node m (head_ptr (y ∷ ys)))) (
                  queue_path q (some x) (some t) (r'.head_is ∙ hx)
                    (r'.tail_is ∙ last-append pre (b, w) ((a, m) ∷ y ∷ ys) ∙ ht))
                ∙ take_out_middle q.heap x t b a w m (head_ptr (y ∷ ys)) c.0 c.2.0
                    (a-ne x (y ∷ ys) r'.chain ix)
                    (λ same. ne_of_has t a (y ∷ ys) (has-last y ys t ht) c.2.1 (sym same))
                    (a-ne b (y ∷ ys) r'.chain b-in),
            record {
              head_is = sym hx ∙ head-append pre (b, w) ((a, m) ∷ y ∷ ys) (y ∷ ys);
              tail_is = sym (last-append pre (b, w) (y ∷ ys) ∙ ht);
              chain =
                  bypassed-Chain q.heap pre b w a m (y ∷ ys) r'.chain
                    λ same. a-ne b (y ∷ ys) r'.chain b-in (sym same);
            },
          )

  -- Taking out the first node.
  pub take_out_first :
      (q : MessageQueue M) (a : ℕ) (m : M) (xs : Cells M)
      → Represents q ((a, m) ∷ xs)
      → (q' : MessageQueue M) × (take_out none a (node m (head_ptr xs)) q ≡ some (some m, q'))
        × Represents q' xs
  take_out_first q a m [] r = (
    record { head = none; tail = none; heap = freed q.heap a m },
    ap (take_out none a (node m none)) (queue_path q (some a) (some a) r.head_is r.tail_is)
        ∙ take_out_only q.heap a m none r.chain.0,
    record { head_is = refl; tail_is = refl; chain = tt },
  )
  take_out_first q a m (y ∷ xs) r =
      let (t, ht) = last-cons y xs in
      (
        record { head = head_ptr (y ∷ xs); tail = some t; heap = freed q.heap a m },
        ap (take_out none a (node m (head_ptr (y ∷ xs))))
              (queue_path q (some a) (some t) r.head_is (r.tail_is ∙ ht))
            ∙ take_out_head q.heap a t m (head_ptr (y ∷ xs)) r.chain.0
                (λ same. ne_of_has t a (y ∷ xs) (has-last y xs t ht) r.chain.1 (sym same)),
        record {
          head_is = refl;
          tail_is = sym ht;
          chain =
              frame-write _ (y ∷ xs) a none
                (frame-write q.heap (y ∷ xs) a (some (node m none)) r.chain.2 r.chain.1) r.chain.1;
        },
      )
