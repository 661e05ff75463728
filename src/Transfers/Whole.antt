-- ===== src/Transfers/Whole.antt =====
-- What a digest that is given says of the transfer, and the operations that bring it about.
use gsm.Common.{
  ℕ, ◌≤◌, ◌≡◌, ◌≢◌, refl, inl, inr, true, false, ◌||◌, some, List, [], ◌∷◌, ◌++◌, String, ◌==◌,
  nat_eq, nat_beq_iff, string_eq, ltb, contains, count, lookup, has, lookup-insert, lookup-delete,
  Bool-cases, Option-cases, arith,
}
use gsm.Transfers.{
  outgoing, Transfer, Settled, digested, failed, Stream, State, total_bytes, settle, drop_item,
  put_stream, finish, fail, ended_after, passed, Read, chunk, source_ended, stalled, reader_left,
  pull,
}

module _ (sha : List String → String) where
  pub record IsWhole (st : State) : Type 0 where
    pub whole :
        (token hash : String)
        → lookup token st.settled ≡ some (digested hash)
        → (s : Stream) × (lookup token st.streams ≡ some s)
          × (s.complete ≡ true)
          × (total_bytes s.chunks ≡ s.size)
          × (hash ≡ sha s.chunks)
    pub streamed :
        (token : String) (s : Stream)
        → lookup token st.streams ≡ some s
        → contains token st.claimed ≡ true
    pub sized :
        (token : String) (t : Transfer) (size : ℕ) (s : Stream)
        → lookup token st.items ≡ some t
        → t.kind ≡ outgoing size
        → lookup token st.streams ≡ some s
        → s.size ≡ size
    pub once : (token : String) → count (λ t. t == token) st.claimed ≤ 1

  -- Timers do not matter, nor do entries that go.
  pub moved-IsWhole :
      (items : List (String × Transfer)) (timers : List String) (st : State)
      → ((token : String) (t : Transfer)
          → lookup token items ≡ some t
          → lookup token st.items ≡ some t)
      → IsWhole st
      → IsWhole (record st { items = items; timers = timers })
  moved-IsWhole items timers st kept w = record {
    whole = w.whole;
    streamed = w.streamed;
    sized = λ token t size s h k. w.sized token t size s (kept token t h) k;
    once = w.once;
  }

  pub timed-IsWhole :
      (timers : List String) (st : State) → IsWhole st → IsWhole (record st { timers = timers })
  timed-IsWhole timers st = moved-IsWhole st.items timers st (λ token t h. h)

  pub dropped-IsWhole : (token : String) (st : State) → IsWhole st → IsWhole (drop_item token st)
  dropped-IsWhole token st =
      moved-IsWhole _ st.timers st (λ t x h. ground (arith, lookup-delete token t st.items))

  -- Nor do the requests that wait.
  pub asked-IsWhole :
      (waiting : List String) (st : State) → IsWhole st → IsWhole (record st { waiting = waiting })
  asked-IsWhole waiting st w = record {
    whole = w.whole;
    streamed = w.streamed;
    sized = w.sized;
    once = w.once;
  }

  -- Nor does a settling call that gives no digest.
  pub settle-IsWhole :
      (token : String) (what : Settled) (st : State)
      → ((hash : String) → what ≢ digested hash)
      → IsWhole st
      → IsWhole (settle token what st)
  unfolding settle
  settle-IsWhole token what st no_digest w = elim (Bool-cases (has token st.settled)) [
    | inl old ↦ rw (old, settle) w
    | inr new ↦
        rw (new, settle)
          (record {
            whole = λ t hash h. elim (Bool-cases (token == t)) [
              | inl same ↦
                  absurd (no_digest hash (ground (arith, lookup-insert token t what st.settled)))
              | inr other ↦ w.whole t hash (ground (arith, lookup-insert token t what st.settled))
            ];
            streamed = w.streamed;
            sized = w.sized;
            once = w.once;
          })
  ]

  module _ (token : String) (st : State) (size : ℕ) (w : IsWhole st)
      (is_size : (t : Transfer) (n : ℕ)
        → lookup token st.items ≡ some t
        → t.kind ≡ outgoing n
        → size ≡ n)
      (owned : contains token st.claimed ≡ true)
      (open_yet : (hash : String) → lookup token st.settled ≢ some (digested hash)) where
    pub put-IsWhole : (s : Stream) → s.size ≡ size → IsWhole (put_stream token s st)
    put-IsWhole s e = record {
      whole = λ t hash h.
          let (s', there, complete, size, is_hash) = w.whole t hash h in
          elim (Bool-cases (token == t)) [
            | inl same ↦ absurd (open_yet hash (ground (arith, string_eq.test_iff token t)))
            | inr other ↦
                (s', ground (arith, lookup-insert token t s st.streams), complete, size, is_hash)
          ];
      streamed = λ t s' h.
          ground (
            arith,
            lookup-insert token t s st.streams,
            w.streamed t s',
            string_eq.test_iff token t,
          );
      sized = λ t x n s' h k l. ground (
        arith,
        lookup-insert token t s st.streams,
        w.sized t x n s',
        is_size x n,
        string_eq.test_iff token t,
      );
      once = w.once;
    }

    fail-IsWhole :
        (s : Stream) → s.size ≡ size → (message : String) → IsWhole (fail token s message st)
    unfolding fail
    fail-IsWhole s e message =
        settle-IsWhole token (failed message) _ (λ hash. cc)
          (dropped-IsWhole token _ (put-IsWhole (record s { ended = true }) e))

    pub finish-IsWhole :
        (s : Stream)
        → s.size ≡ size
        → total_bytes s.chunks ≡ s.size
        → IsWhole (finish sha token s st)
    unfolding finish settle
    finish-IsWhole s e all = elim (Bool-cases (has token st.settled)) [
      | inl old ↦ rw old (put-IsWhole (record s { complete = true }) e)
      | inr new ↦ rw new (record {
        whole = λ t hash h. elim (Bool-cases (token == t)) [
          | inl same ↦ (
            record s { complete = true },
            ground (arith, lookup-insert token t (record s { complete = true }) st.streams),
            refl,
            all,
            ground (arith, lookup-insert token t (digested (sha s.chunks)) st.settled),
          )
          | inr other ↦
              let (s', there, complete, size, is_hash) =
                w.whole t hash
                  (ground (arith, lookup-insert token t (digested (sha s.chunks)) st.settled)) in
              (
                s',
                ground (arith, lookup-insert token t (record s { complete = true }) st.streams),
                complete,
                size,
                is_hash,
              )
        ];
        streamed = λ t s' h. ground (
          arith,
          lookup-insert token t (record s { complete = true }) st.streams,
          w.streamed t s',
          string_eq.test_iff token t,
        );
        sized = λ t x n s' h k l. ground (
          arith,
          lookup-insert token t (record s { complete = true }) st.streams,
          w.sized t x n s',
          is_size x n,
          string_eq.test_iff token t,
        );
        once = w.once;
      })
    ]

    passed-IsWhole : (s : Stream) → s.size ≡ size → (c : String) → IsWhole (passed sha token s c st)
    unfolding passed
    passed-IsWhole s e c =
        let s' = record s { chunks = s.chunks ++ c ∷ [] } in
        elim (Bool-cases (ltb s.size (total_bytes s'.chunks))) [
          | inl larger ↦ rw larger (fail-IsWhole s' e _)
          | inr fits ↦ elim (Bool-cases (total_bytes s'.chunks == s.size)) [
            | inl all ↦
                rw (fits, all)
                  (finish-IsWhole s' e ((nat_beq_iff (total_bytes s'.chunks) s.size).0 all))
            | inr more ↦ rw (fits, more) (put-IsWhole s' e)
          ]
        ]

  pub pull-IsWhole :
      (token : String) (read : Read) (st : State) → IsWhole st → IsWhole (pull sha token read st)
  unfolding pull
  pull-IsWhole token read st w = elim (Option-cases (lookup token st.streams)) [
    | inl no_stream ↦ rw (no_stream, pull) w
    | inr (s, there) ↦ elim (Bool-cases (s.complete || s.ended)) [
      | inl over ↦ rw (there, pull) (rw over w)
      | inr running ↦ rw (there, pull) (rw running (reading s there running read))
    ]
  ]
    where
      open_yet :
          (s : Stream)
          → lookup token st.streams ≡ some s
          → (s.complete || s.ended) ≡ false
          → (hash : String) → lookup token st.settled ≢ some (digested hash)
      open_yet s there running hash h =
          let (s', found, complete, size, is_hash) = w.whole token hash h in ground arith

      sized :
          (s : Stream)
          → lookup token st.streams ≡ some s
          → (t : Transfer) (n : ℕ) → lookup token st.items ≡ some t
          → t.kind ≡ outgoing n
          → s.size ≡ n
      sized s there t n h k = w.sized token t n s h k there

      reading :
          (s : Stream)
          → lookup token st.streams ≡ some s
          → (s.complete || s.ended) ≡ false
          → (read : Read)
          → IsWhole (elim read [
            | chunk c ↦ passed sha token s c st
            | source_ended ↦ fail token s (ended_after s) st
            | stalled ↦ fail token s "The upload stalled" st
            | reader_left ↦ fail token s "The node stopped reading" st
          ])
      reading s there running (chunk c) =
          passed-IsWhole token st s.size w (sized s there) (w.streamed token s there)
            (open_yet s there running) s refl c
      reading s there running source_ended =
          fail-IsWhole token st s.size w (sized s there) (w.streamed token s there)
            (open_yet s there running) s refl _
      reading s there running stalled =
          fail-IsWhole token st s.size w (sized s there) (w.streamed token s there)
            (open_yet s there running) s refl _
      reading s there running reader_left =
          fail-IsWhole token st s.size w (sized s there) (w.streamed token s there)
            (open_yet s there running) s refl _
