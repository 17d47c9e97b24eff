-- ===== src/Queue/Unlink.antt =====
-- `data_message_dequeue_matching`: one node is taken out of the chain, wherever it stands.
use Prim.Native.Nat.{ℕ}
use e_salsa_mpi.Prelude.{false, none, some, [], ◌∷◌, ◌++◌, ◌≡◌, ◌≢◌, ◌∙◌, refl, ap, arith}
use e_salsa_mpi.Queue.Defs.{Ptr, Heap, write, take_out}
use e_salsa_mpi.Queue.Chain.{Cells, has, head_ptr, node, Chain, frame, has-append, ne_of_has}

module _ {M : Type 0} where
  pub take_out_head :
      (h : Heap M) (a t : ℕ) (m : M) (next : Ptr)
      → h a ≡ some (node m next)
      → a ≢ t
      → take_out none a (node m next) (record { head = some a; tail = some t; heap = h })
        ≡ some (
          some m,
          record {
            head = next;
            tail = some t;
            heap = write (write h a (some (node m none))) a none;
          },
        )
  unfolding take_out write
  take_out_head h a t m next e ne = ground arith

  pub take_out_only :
      (h : Heap M) (a : ℕ) (m : M) (next : Ptr)
      → h a ≡ some (node m next)
      → take_out none a (node m next) (record { head = some a; tail = some a; heap = h })
        ≡ some (
          some m,
          record { head = none; tail = none; heap = write (write h a (some (node m none))) a none },
        )
  unfolding take_out write
  take_out_only h a m next e = ground arith

  -- The heap after the node `a`, which stood between `b` and `next`, is gone.
  abbrev pub bypassed : Heap M → ℕ → M → ℕ → M → Ptr → Heap M
  bypassed h b w a m next =
      write (write (write h b (some (node w next))) a (some (node m none))) a none

  pub take_out_last :
      (h : Heap M) (x b a : ℕ) (w m : M)
      → h b ≡ some (node w (some a))
      → h a ≡ some (node m none)
      → a ≢ x
      → a ≢ b
      → take_out (some b) a (node m none) (record { head = some x; tail = some a; heap = h })
        ≡ some (some m, record { head = some x; tail = some b; heap = bypassed h b w a m none })
  unfolding take_out write
  take_out_last h x b a w m e f ne ne' = ground arith

  pub take_out_middle :
      (h : Heap M) (x t b a : ℕ) (w m : M) (next : Ptr)
      → h b ≡ some (node w (some a))
      → h a ≡ some (node m next)
      → a ≢ x
      → a ≢ t
      → a ≢ b
      → take_out (some b) a (node m next) (record { head = some x; tail = some t; heap = h })
        ≡ some (some m, record { head = some x; tail = some t; heap = bypassed h b w a m next })
  unfolding take_out write
  take_out_middle h x t b a w m next e f ne net ne' = ground arith

  pub Chain-suffix : (h : Heap M) (pre ys : Cells M) → Chain h (pre ++ ys) → Chain h ys
  Chain-suffix h [] ys c = c
  Chain-suffix h ((a, m) ∷ pre) ys c = Chain-suffix h pre ys c.2

  pub head-append :
      (pre : Cells M) (x : ℕ × M) (ys zs : Cells M)
      → head_ptr (pre ++ x ∷ ys) ≡ head_ptr (pre ++ x ∷ zs)
  head-append [] (b, w) ys zs = refl
  head-append ((a, m) ∷ pre) x ys zs = refl

  -- Leaving one node out of a chain, when the node before it points to the one behind it.
  pub Chain-bypass :
      (h g : Heap M) (pre : Cells M) (b : ℕ) (w : M) (a : ℕ) (m : M) (xs : Cells M)
      → Chain h (pre ++ (b, w) ∷ (a, m) ∷ xs)
      → g b ≡ some (node w (head_ptr xs))
      → ((c : ℕ) → c ≢ a → c ≢ b → g c ≡ h c)
      → Chain g (pre ++ (b, w) ∷ xs)
  Chain-bypass h g [] b w a m xs c link same = (
    link,
    ground arith,
    frame h g xs c.2.2 λ d i. same d (ne_of_has d a xs i c.2.1) (ne_of_has d b xs i (ground arith)),
  )
  Chain-bypass h g ((p, v) ∷ pre) b w a m xs c link same =
      let apart : has p pre ≡ false × (has p ((b, w) ∷ (a, m) ∷ xs) ≡ false) =
        ground (arith, has-append p pre ((b, w) ∷ (a, m) ∷ xs)) in
      (
        same p (ground arith) (ground arith)
            ∙ c.0
            ∙ ap (λ n. some (node v n)) (head-append pre (b, w) ((a, m) ∷ xs) xs),
        ground (arith, has-append p pre ((b, w) ∷ xs)),
        Chain-bypass h g pre b w a m xs c.2 link same,
      )
