-- ===== src/Gateway/Message.antt =====
-- One call of nonblock_read_message.
use e_salsa_mpi.Prelude.{
  ℕ, zero, suc, ◌≤◌, ◌<◌, ltb, if◌then◌else◌, ◌==◌, ==→eq, lt→ltb, false, Option, none, some, List,
  [], ◌∷◌, ◌++◌, length, take, length-append, ◌≡◌, ◌∙◌, refl, sym, ap, ap₂, subst, Bool-cases, inl,
  inr, arith,
}
use e_salsa_mpi.Gateway.Socket.{
  SocketInfo, ReadEvent, ready, again, eof, broken, header_size, length_field,
}
use e_salsa_mpi.Gateway.Read.{
  Memory, HasNodes, fill_null, read_null, no_header, Socket, Fill, full, blocked, lost, fill,
  Outcome, buffer, grown, started, started_at, read_full, read_filled, nonblock_read_message,
}
use e_salsa_mpi.Gateway.Framing.{Filled, fill-Filled, append-split, length_field-append}
use e_salsa_mpi.Gateway.Assembly.{
  joined, AllMessages, Assembles, Phase, AssembledBy, front, front_whole, queue_message-Assembles,
}

take-all : (n : ℕ) (xs : List ℕ) → length xs ≤ n → take n xs ≡ xs
take-all n [] h = nil n
  where
    nil : (k : ℕ) → take {A = ℕ} k [] ≡ []
    nil zero = refl
    nil (suc k) = refl
take-all zero (x ∷ xs) h = absurd (omega arith)
take-all (suc n) (x ∷ xs) h = ap (◌∷◌ x) (take-all n xs (omega arith))

-- What a loop of reads without a header may do: it takes no byte.
abbrev Waits : List ℕ → Fill → Type 0
Waits stream (full count buf rest) = ⊥
Waits stream (blocked count buf rest) = rest.stream ≡ stream
Waits stream lost = Unit {0}

fill_null-Waits : (es : List ReadEvent) (stream : List ℕ) → Waits stream (fill_null es stream)
unfolding fill_null
fill_null-Waits [] stream = refl
fill_null-Waits (ready k ∷ es) [] = refl
fill_null-Waits (ready k ∷ es) (x ∷ stream) = tt
fill_null-Waits (again ∷ es) stream = refl
fill_null-Waits (eof ∷ es) stream = tt
fill_null-Waits (broken ∷ es) stream = tt

-- What is known of a call after its first lines: `buf` is in the buffer.
record Begun (msgs : List (List ℕ)) (b : SocketInfo) (buf stream : List ℕ) (rest : List (List ℕ))
    : Type 0 where
  at : b.inpos ≡ length buf
  queued : b.in_queue ++ rest ≡ msgs
  bytes : buf ++ stream ≡ joined rest
  messages : AllMessages b.type rest

module _ (mem : Memory) (nodes : HasNodes mem) (recall : SocketInfo → Socket → Outcome)
    (msgs : List (List ℕ)) (b : SocketInfo) (socket : Socket) (buf : List ℕ) where
  -- The rest of a message whose length is known.
  body-Filled :
      (stream : List ℕ) (rest : List (List ℕ)) (f : Fill)
      → Begun msgs b buf stream rest
      → header_size ≤ length buf
      → header_size < b.incount
      → b.incount ≡ length_field b.type buf
      → Filled b.incount buf stream f
      → AssembledBy msgs b (read_filled mem recall b socket f)
  unfolding read_filled read_full
  body-Filled stream [] (full count buf' s) g h lt len (c, e, a) =
      absurd (omega (arith, ap (length {A = ℕ}) g.bytes, length-append {0} buf stream))
  body-Filled stream (m ∷ rest) (full count buf' s) g h lt len (c, e, a) =
      let size : length m ≡ length buf' =
        front b.type m (joined rest) buf stream g.messages.0 (sym g.bytes) h
        ∙ sym len
        ∙ sym e
        ∙ c in
      let (same, others) = front_whole m (joined rest) buf' s.stream (sym g.bytes ∙ sym a) size in
      rw
        (no_header count (omega arith), lt→ltb header_size count (omega arith), nodes b.in_messages)
        (queue_message-Assembles b count buf' 0 msgs m rest s g.queued g.messages same others)
    where
      no_header : (n : ℕ) → header_size < n → ltb n header_size ≡ false
      no_header n h' = ground arith
  body-Filled stream rest (blocked count buf' s) g h lt len (c, l, ge, a) =
      let (us, p, q) = append-split buf' s.stream buf stream a (omega arith) in
      (
        record {
          rest = rest;
          queued = g.queued;
          bytes = a ∙ g.bytes;
          messages = g.messages;
          phase = (
            c,
            inr (
              omega arith,
              l,
              len ∙ sym (length_field-append b.type buf us h) ∙ ap (length_field b.type) (sym p),
            ),
          );
        },
        omega arith,
        refl,
      )
  body-Filled stream rest lost g h lt len f = refl

module _ (mem : Memory) (nodes : HasNodes mem) (fuel : ℕ) (msgs : List (List ℕ)) (b : SocketInfo)
    (socket : Socket) where
  -- The recursive call, after the header was read.
  body_call :
      (buf : List ℕ) (len : ℕ) (rest : List (List ℕ))
      → b.in_queue ++ rest ≡ msgs
      → buf ++ socket.stream ≡ joined rest
      → AllMessages b.type rest
      → length buf ≡ header_size
      → header_size < len
      → len ≡ length_field b.type buf
      → AssembledBy msgs b
          (nonblock_read_message mem (suc fuel) (grown b (length buf) buf len) socket)
  unfolding nonblock_read_message grown started started_at
  body_call buf len rest q e wf h lt el = rw (take-all len buf (omega arith)) (
      body-Filled mem nodes (nonblock_read_message mem fuel) msgs
        (record b { inbuf = some buf; inpos = length buf; incount = len }) socket buf socket.stream
        rest _ (record { at = refl; queued = q; bytes = e; messages = wf }) (omega arith) lt el
        (fill-Filled socket.events len buf socket.stream (omega arith)))

  -- The end of the header.
  header_full :
      (count : ℕ) (buf : List ℕ) (rest : List (List ℕ))
      → b.in_queue ++ rest ≡ msgs
      → buf ++ socket.stream ≡ joined rest
      → AllMessages b.type rest
      → count ≡ length buf
      → count ≡ header_size
      → AssembledBy msgs b (read_full mem (nonblock_read_message mem (suc fuel)) b count buf socket)
  unfolding read_full
  header_full count buf [] q e wf c h =
      absurd (omega (arith, ap (length {A = ℕ}) e, length-append {0} buf socket.stream))
  header_full count buf (m ∷ rest) q e wf c h =
      let size : length m ≡ length_field b.type buf =
        front b.type m (joined rest) buf socket.stream wf.0 (sym e) (omega arith) in
      rw (h, sym c ∙ h)
        (elim (Bool-cases (length_field b.type buf == header_size)) [
          | inl only ↦
              let (same, others) =
                front_whole m (joined rest) buf socket.stream (sym e)
                  (size ∙ ==→eq _ _ only ∙ sym h ∙ c) in
              rw (only, nodes b.in_messages)
                (queue_message-Assembles b header_size buf header_size msgs m rest socket q wf same
                  others)
          | inr longer ↦ elim (Bool-cases (mem.realloc (length_field b.type buf))) [
            | inl given ↦
                rw (longer, given)
                  (subst
                    (λ n. AssembledBy msgs b (
                      nonblock_read_message mem (suc fuel) (grown b n buf (length_field b.type buf))
                        socket))
                    (sym c ∙ h)
                    (body_call buf (length_field b.type buf) (m ∷ rest) q e wf (sym c ∙ h)
                      (above _ longer (omega (arith, wf.0.0, size))) refl))
            | inr refused ↦ rw (longer, refused) refl
          ]
        ])
    where
      above : (n : ℕ) → (n == header_size) ≡ false → header_size ≤ n → header_size < n
      above n ne le = ground arith

module _ (mem : Memory) (nodes : HasNodes mem) (fuel : ℕ) (msgs : List (List ℕ)) where
  header-Filled :
      (b : SocketInfo) (old : Socket) (buf stream : List ℕ) (rest : List (List ℕ)) (f : Fill)
      → Begun msgs b buf stream rest
      → b.incount ≡ header_size
      → Filled b.incount buf stream f
      → AssembledBy msgs b (read_filled mem (nonblock_read_message mem (suc fuel)) b old f)
  unfolding read_filled
  header-Filled b old buf stream rest (full count buf' s) g h (c, e, a) =
      header_full mem nodes fuel msgs b s count buf' rest g.queued (a ∙ g.bytes) g.messages c
        (e ∙ h)
  header-Filled b old buf stream rest (blocked count buf' s) g h (c, l, ge, a) = (
    record {
      rest = rest;
      queued = g.queued;
      bytes = a ∙ g.bytes;
      messages = g.messages;
      phase = (c, inl (h, omega (arith, h)));
    },
    omega arith,
    refl,
  )
  header-Filled b old buf stream rest lost g h f = refl

  same_fill :
      (info : SocketInfo) (socket : Socket) (buf : List ℕ)
      → info.inbuf ≡ some buf
      → info.inpos ≡ length buf
      → fill socket.events info.incount (length buf) buf socket.stream
        ≡ fill socket.events info.incount info.inpos (buffer info.inbuf) socket.stream
  same_fill info socket buf i at =
      ap₂ (λ n o. fill socket.events info.incount n (buffer o) socket.stream) (sym at) (sym i)

  -- Without a header, nothing is read.
  null-Assembles :
      (info : SocketInfo) (socket : Socket) (rest : List (List ℕ))
      → info.in_queue ++ rest ≡ msgs
      → socket.stream ≡ joined rest
      → AllMessages info.type rest
      → AssembledBy msgs info (read_null mem info socket (fill_null socket.events socket.stream))
  unfolding read_null
  null-Assembles info socket rest q e wf =
      by (fill_null socket.events socket.stream) (fill_null-Waits socket.events socket.stream)
    where
      by : (f : Fill) → Waits socket.stream f → AssembledBy msgs info (read_null mem info socket f)
      by (full count buf s) h = h
      by (blocked count buf s) h = (
        record { rest = rest; queued = q; bytes = h ∙ e; messages = wf; phase = tt },
        omega arith,
        refl,
      )
      by lost h = refl

  begun_Assembles :
      (info : SocketInfo) (socket : Socket) (o : Option (List ℕ)) (rest : List (List ℕ))
      → info.inbuf ≡ o
      → info.in_queue ++ rest ≡ msgs
      → buffer o ++ socket.stream ≡ joined rest
      → AllMessages info.type rest
      → Phase info.type info.inpos info.incount o
      → let b = started_at info o in
        AssembledBy msgs info (
          if no_header mem info o
          then read_null mem info socket (fill_null socket.events socket.stream)
          else read_filled mem
              (nonblock_read_message mem (suc fuel))
              b
              socket
              (fill socket.events b.incount b.inpos (buffer b.inbuf) socket.stream))
  unfolding started_at
  begun_Assembles info socket none rest i q e wf ph =
      elim (Bool-cases (mem.header info.in_messages)) [
        | inr refused ↦ rw refused (null-Assembles info socket rest q e wf)
        | inl given ↦ rw given (
            header-Filled (record info { inbuf = some []; inpos = 0; incount = header_size }) socket
              [] socket.stream rest _ (record { at = refl; queued = q; bytes = e; messages = wf })
              refl (fill-Filled socket.events header_size [] socket.stream (omega arith)))
      ]
  begun_Assembles info socket (some buf) rest i q e wf (at, inl (h, lt)) =
      subst
        (λ f.
          AssembledBy msgs info
            (read_filled mem (nonblock_read_message mem (suc fuel)) info socket f))
        (same_fill info socket buf i at)
        (header-Filled info socket buf socket.stream rest _
          (record { at = at; queued = q; bytes = e; messages = wf }) h
          (fill-Filled socket.events info.incount buf socket.stream (omega arith)))
  begun_Assembles info socket (some buf) rest i q e wf (at, inr (h, lt, len)) =
      subst
        (λ f.
          AssembledBy msgs info
            (read_filled mem (nonblock_read_message mem (suc fuel)) info socket f))
        (same_fill info socket buf i at)
        (body-Filled mem nodes (nonblock_read_message mem (suc fuel)) msgs info socket buf
          socket.stream rest _ (record { at = at; queued = q; bytes = e; messages = wf })
          (omega arith) (omega arith) len
          (fill-Filled socket.events info.incount buf socket.stream (omega arith)))

  -- Where malloc gives memory for the nodes of the queue, and the queue and the bytes still to
  -- come make up the messages `msgs`: nonblock_read_message returns, with fuel of at least 2, and
  -- no read goes behind a buffer. If it returns EMPI_SUCCESS, the queue and the bytes still to
  -- come again make up `msgs`, and the queue has grown by one message if `*more` is set and by
  -- none if it is not; if it returns an error, `*more` is not set.
  pub nonblock_read_message-Assembles :
      (info : SocketInfo) (socket : Socket)
      → Assembles msgs info socket.stream
      → AssembledBy msgs info (nonblock_read_message mem (suc (suc fuel)) info socket)
  unfolding nonblock_read_message started
  nonblock_read_message-Assembles info socket a =
      begun_Assembles info socket info.inbuf a.rest refl a.queued a.bytes a.messages a.phase
