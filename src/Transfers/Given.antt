-- ===== src/Transfers/Given.antt =====
-- The operations on transfers one by one, and the digests given so far.
use gsm.Common.{
  ℕ, ◌≡◌, ◌≢◌, refl, inl, inr, true, false, some, List, [], ◌∷◌, String, ◌==◌, nat_eq, string_eq,
  contains, lookup-insert, count_of_not_contains, lookup, insert, Bool-cases, Option-cases, arith,
}
use gsm.Transfers.{
  Kind, outgoing, incoming, Transfer, digested, arrived, failed, Stream, State, settle, clear_timer,
  drop_item, expire, cancel_offer, cancel_expect, may_serve, may_receive, may_ask, digest_later,
  serve, digest, receive,
}
use gsm.Transfers.Whole.{
  IsWhole, timed-IsWhole, dropped-IsWhole, asked-IsWhole, settle-IsWhole, put-IsWhole,
  finish-IsWhole,
}

may_serve_unclaimed :
    (token : String) (node_id size : ℕ) (st : State)
    → may_serve token node_id st ≡ some size
    → contains token st.claimed ≡ false
unfolding may_serve
may_serve_unclaimed token node_id size st h = ground arith

may_receive_unclaimed :
    (token : String) (node_id : ℕ) (st : State)
    → may_receive token node_id st ≡ true
    → contains token st.claimed ≡ false
unfolding may_receive
may_receive_unclaimed token node_id st h = ground arith

is_size :
    (token : String) (node_id size : ℕ) (st : State)
    → may_serve token node_id st ≡ some size
    → (t : Transfer) (n : ℕ) → lookup token st.items ≡ some t
    → t.kind ≡ outgoing n
    → size ≡ n
unfolding may_serve
is_size token node_id size st found t n h k = ground arith

head_claimed : (token : String) (tokens : List String) → contains token (token ∷ tokens) ≡ true
head_claimed token tokens = ground (arith, string_eq.test_iff token token)

module _ (sha : List String → String) where
  claimed-IsWhole :
      (token : String) (st : State)
      → contains token st.claimed ≡ false
      → IsWhole sha st
      → IsWhole sha (record st { claimed = token ∷ st.claimed })
  claimed-IsWhole token st new w = record {
    whole = w.whole;
    streamed = λ t s h. ground (arith, w.streamed t s h);
    sized = w.sized;
    once = λ t.
        ground (arith, count_of_not_contains t st.claimed, w.once t, string_eq.test_iff token t);
  }

  no_digest_before :
      (token : String) (st : State)
      → contains token st.claimed ≡ false
      → IsWhole sha st
      → (hash : String) → lookup token st.settled ≢ some (digested hash)
  no_digest_before token st new w hash h =
      let (s, there, complete, size, is_hash) = w.whole token hash h in
      let claimed = w.streamed token s there in cc

  pub serve-IsWhole :
      (token : String) (node_id : ℕ) (st : State)
      → IsWhole sha st
      → IsWhole sha (serve sha token node_id st).0
  unfolding serve
  serve-IsWhole token node_id st w = elim (Option-cases (may_serve token node_id st)) [
    | inl unknown ↦ rw (unknown, serve) w
    | inr (size, found) ↦
        let new = may_serve_unclaimed token node_id size st found in
        let claiming = timed-IsWhole sha _ _ (claimed-IsWhole token st new w) in
        let s : Stream = record { size = size; chunks = []; complete = false; ended = false } in
        let started =
          put-IsWhole sha token _ size claiming (is_size token node_id size st found)
            (head_claimed token st.claimed) (no_digest_before token st new w) s refl in
        elim (Bool-cases (size == 0)) [
          | inl empty ↦
              rw (found, serve)
                (rw empty (
                  finish-IsWhole sha token _ size started (is_size token node_id size st found)
                    (head_claimed token st.claimed) (no_digest_before token st new w) s refl
                    (ground arith)))
          | inr more ↦ rw (found, serve) (rw more started)
        ]
  ]

  pub receive-IsWhole :
      (token : String) (node_id : ℕ) (st : State)
      → IsWhole sha st
      → IsWhole sha (receive token node_id st).0
  unfolding receive
  receive-IsWhole token node_id st w = elim (Bool-cases (may_receive token node_id st)) [
    | inl may ↦
        rw (may, receive)
          (settle-IsWhole sha token arrived _ (λ hash. cc)
            (dropped-IsWhole sha token _ (
              timed-IsWhole sha _ _
                (claimed-IsWhole token st (may_receive_unclaimed token node_id st may) w))))
    | inr unknown ↦ rw (unknown, receive) w
  ]

  pub expire-IsWhole :
      (token : String) (st : State) → IsWhole sha st → IsWhole sha (expire token st)
  unfolding expire
  expire-IsWhole token st w = elim (Option-cases (lookup token st.items)) [
    | inl gone ↦ rw (gone, expire) (timed-IsWhole sha _ _ w)
    | inr (t, there) ↦ elim (Bool-cases (contains token st.claimed)) [
      | inl claimed ↦ rw (there, expire) (rw claimed (timed-IsWhole sha _ _ w))
      | inr waiting ↦ rw (there, expire) (rw waiting (rejecting t.kind))
    ]
  ]
    where
      rejecting :
          (kind : Kind)
          → IsWhole sha (elim kind [
            | outgoing size ↦
                settle token
                  (failed "The node never fetched the file")
                  (drop_item token (clear_timer token st))
            | incoming ↦
                settle token
                  (failed "The node never sent the file")
                  (drop_item token (clear_timer token st))
          ])
      rejecting (outgoing size) =
          settle-IsWhole sha token _ _ (λ hash. cc)
            (dropped-IsWhole sha token _ (timed-IsWhole sha _ _ w))
      rejecting incoming =
          settle-IsWhole sha token _ _ (λ hash. cc)
            (dropped-IsWhole sha token _ (timed-IsWhole sha _ _ w))

  pub cancel_offer-IsWhole :
      (token reason : String) (st : State)
      → IsWhole sha st
      → IsWhole sha (cancel_offer token reason st)
  unfolding cancel_offer
  cancel_offer-IsWhole token reason st w =
      settle-IsWhole sha token _ _ (λ hash. cc)
        (dropped-IsWhole sha token _ (timed-IsWhole sha _ _ w))

  pub cancel_expect-IsWhole :
      (token reason : String) (st : State)
      → IsWhole sha st
      → IsWhole sha (cancel_expect token reason st)
  unfolding cancel_expect
  cancel_expect-IsWhole token reason st w = elim (Bool-cases (contains token st.claimed)) [
    | inl claimed ↦
        rw (claimed, cancel_expect)
          (settle-IsWhole sha token _ _ (λ hash. cc) (timed-IsWhole sha _ _ w))
    | inr waiting ↦
        rw (waiting, cancel_expect)
          (settle-IsWhole sha token _ _ (λ hash. cc)
            (dropped-IsWhole sha token _ (timed-IsWhole sha _ _ w)))
  ]

  pub digest-IsWhole :
      (token : String) (node_id : ℕ) (st : State)
      → IsWhole sha st
      → IsWhole sha (digest token node_id st).0
  unfolding digest
  digest-IsWhole token node_id st w = elim (Bool-cases (may_ask token node_id st)) [
    | inl may ↦ elim (Option-cases (lookup token st.settled)) [
      | inl waiting ↦ rw (may, digest) (rw waiting (asked-IsWhole sha _ st w))
      | inr (what, there) ↦ rw (may, digest) (rw there (dropped-IsWhole sha token st w))
    ]
    | inr unknown ↦ rw (unknown, digest) w
  ]

  pub add-IsWhole :
      (token : String) (t : Transfer) (timers : List String) (st : State)
      → contains token st.claimed ≡ false
      → IsWhole sha st
      → IsWhole sha (record st { items = insert token t st.items; timers = timers })
  add-IsWhole token t timers st new w = record {
    whole = w.whole;
    streamed = w.streamed;
    sized = λ j x size s h k l. ground (
      arith,
      lookup-insert token j t st.items,
      w.sized j x size s,
      w.streamed j s,
      string_eq.test_iff token j,
    );
    once = w.once;
  }

  pub digest_later-IsWhole :
      (token : String) (st : State) → IsWhole sha st → IsWhole sha (digest_later token st).0
  unfolding digest_later
  digest_later-IsWhole token st w = elim (Bool-cases (contains token st.waiting)) [
    | inl waits ↦ elim (Option-cases (lookup token st.settled)) [
      | inl not_yet ↦ rw (waits, digest_later) (rw not_yet w)
      | inr (what, there) ↦
          rw (waits, digest_later)
            (rw there (dropped-IsWhole sha token _ (asked-IsWhole sha _ st w)))
    ]
    | inr other ↦ rw (other, digest_later) w
  ]
