-- ===== src/Gateway/Settled.antt =====
-- The books of the gateway, and what settling, failing and replacing do to them.
mod Moves
mod Received
mod Asked
pub mod Runs
use gsm.Common.{
  ℕ, suc, ◌+◌, ◌≤◌, ◌≡◌, ◌≢◌, ◌⊎◌, inl, inr, refl, sym, subst, ap, Bool, true, false, not, Option,
  none, some, is_some, List, [], ◌∷◌, ◌++◌, String, ◌==◌, nat_eq, string_eq, nat_beq_iff,
  if◌then◌else◌, count, count-append, contains, lookup, insert, delete, has, UniqueKeys,
  lookup-insert, lookup-delete, insert-UniqueKeys, delete-UniqueKeys, delete_head, lookup_head,
  lookup-insert_self, not-has-nil, Result, ok, err, HttpError, Bool-cases, Option-cases,
  some-injective, ◌∙◌, arith,
}
use gsm.Gateway.{
  Pending, Connection, Answer, rejected, Timer, Told, Gateway, drop_pending, put_connection, finish,
  fail_entries, fail_all, enter, request, fire, disconnect, on_open, opened, on_close,
}

abbrev pub answers_of : String → Gateway → ℕ
answers_of id g = count (λ a. a.0 == id) g.answers

-- The books of the gateway: a timer runs exactly for the entries of the connections, and a promise
-- that was given out is answered once, or has a timer.
pub record IsSettling (g : Gateway) : Type 0 where
  pub unique :
      (node : ℕ) (c : Connection) → lookup node g.connections ≡ some c → UniqueKeys c.pending
  pub timed :
      (node : ℕ) (c : Connection) (id : String)
      → lookup node g.connections ≡ some c
      → has id c.pending ≡ true
      → lookup id g.timers ≡ some (record { node_id = node; socket = c.socket })
  pub waited :
      (id : String) (t : Timer)
      → lookup id g.timers ≡ some t
      → (c : Connection) × (lookup t.node_id g.connections ≡ some c)
        × (c.socket ≡ t.socket)
        × (has id c.pending ≡ true)
  pub once :
      (id : String)
      → answers_of id g + (if has id g.timers then 1 else 0) ≡ count (λ i. i == id) g.issued
  pub single : (id : String) → count (λ i. i == id) g.issued ≤ 1

module _ (node : ℕ) (c : Connection) (id : String) (answer : Answer) (g : Gateway)
    (b : IsSettling g) (found : lookup node g.connections ≡ some c)
    (waits : has id c.pending ≡ true) where
  finish-unique :
      (node' : ℕ) (c' : Connection)
      → lookup node' (finish node c id answer g).connections ≡ some c'
      → UniqueKeys c'.pending
  unfolding finish
  finish-unique node' c' h = ground (
    arith,
    lookup-insert node node' (drop_pending id c) g.connections,
    delete-UniqueKeys id c.pending,
    b.unique node c,
    b.unique node' c',
  )

  finish-timed :
      (node' : ℕ) (c' : Connection) (j : String)
      → lookup node' (finish node c id answer g).connections ≡ some c'
      → has j c'.pending ≡ true
      → lookup j (finish node c id answer g).timers
        ≡ some (record { node_id = node'; socket = c'.socket })
  unfolding finish
  finish-timed node' c' j h held = ground (
    arith,
    lookup-insert node node' (drop_pending id c) g.connections,
    lookup-delete id j c.pending,
    lookup-delete id j g.timers,
    b.timed node c id,
    b.timed node c j,
    b.timed node' c' j,
    string_eq.test_iff id j,
  )

  finish-once :
      (j : String)
      → answers_of j (finish node c id answer g)
          + (if has j (finish node c id answer g).timers then 1 else 0)
        ≡ count (λ i. i == j) g.issued
  unfolding finish
  finish-once j = ground (
    arith,
    count-append (λ a. a.0 == j) g.answers ((id, answer) ∷ []),
    lookup-delete id j g.timers,
    b.timed node c id,
    b.once j,
    string_eq.test_iff id j,
  )

  finish-waited :
      (j : String) (t : Timer)
      → lookup j (finish node c id answer g).timers ≡ some t
      → (c' : Connection) × (lookup t.node_id (finish node c id answer g).connections ≡ some c')
        × (c'.socket ≡ t.socket)
        × (has j c'.pending ≡ true)
  unfolding finish
  finish-waited j t h = elim (Bool-cases (id == j)) [
    | inl same ↦ cc (lookup-delete id j g.timers, same)
    | inr other ↦
        let runs : lookup j g.timers ≡ some t = ground (arith, lookup-delete id j g.timers) in
        let (c', there, socket, held) = b.waited j t runs in
        elim (Bool-cases (node == t.node_id)) [
          | inl same ↦
              let at : node ≡ t.node_id = (nat_beq_iff node t.node_id).0 same in
              let one : c' ≡ c = ground arith in
              (
                drop_pending id c,
                ground (arith, lookup-insert node t.node_id (drop_pending id c) g.connections),
                ground arith,
                ground (arith, lookup-delete id j c.pending),
              )
          | inr elsewhere ↦ (
            c',
            ground (arith, lookup-insert node t.node_id (drop_pending id c) g.connections),
            socket,
            held,
          )
        ]
  ]

  pub finish-IsSettling : IsSettling (finish node c id answer g)
  unfolding finish
  finish-IsSettling = record {
    unique = finish-unique;
    timed = finish-timed;
    waited = finish-waited;
    once = finish-once;
    single = b.single;
  }

pub tell-IsSettling :
    (g : Gateway) (what : List Told) → IsSettling g → IsSettling (record g { told = what })
tell-IsSettling g what b = record {
  unique = b.unique;
  timed = b.timed;
  waited = b.waited;
  once = b.once;
  single = b.single;
}

-- The loop of `failAll` answers every entry.
pub fail_entries-IsSettling :
    (node : ℕ) (c : Connection) (entries : List (String × Pending)) (problem : HttpError)
    (g : Gateway)
    → IsSettling g
    → lookup node g.connections ≡ some c
    → c.pending ≡ entries
    → IsSettling (fail_entries node c entries problem g)
      × (lookup node (fail_entries node c entries problem g).connections
          ≡ some (record c { pending = [] }))
unfolding fail_entries finish
fail_entries-IsSettling node c [] problem g b found same = (b, ground arith)
fail_entries-IsSettling node c ((id, p) ∷ rest) problem g b found same =
    let held : has id c.pending ≡ true = rw same (ap is_some (lookup_head id p rest)) in
    let emptied : delete id c.pending ≡ rest =
      rw same (delete_head id p rest (rw same at (b.unique node c found))) in
    let after = finish-IsSettling node c id (rejected problem) g b found held in
    fail_entries-IsSettling node (drop_pending id c) rest problem
      (finish node c id (rejected problem) g) after
      (lookup-insert_self node (drop_pending id c) g.connections) emptied

-- A connection is put in the place of one with nothing pending, or the place is emptied.
module _ (node : ℕ) (g : Gateway) (b : IsSettling g) where
  pub replaced-IsSettling :
      (connections : List (ℕ × Connection)) (o : Option Connection) (told : List Told)
      → ((n : ℕ) → lookup n connections ≡ (if node == n then o else lookup n g.connections))
      → ((c : Connection) → o ≡ some c → c.pending ≡ [])
      → ((c : Connection) → lookup node g.connections ≡ some c → c.pending ≡ [])
      → IsSettling (record g { connections = connections; told = told })
  replaced-IsSettling connections o told at new old = record {
    unique = λ n c h. elim (Bool-cases (node == n)) [
      | inl same ↦ subst UniqueKeys (sym (new c (ground (arith, at n)))) tt
      | inr other ↦ b.unique n c (ground (arith, at n))
    ];
    timed = λ n c id h held. elim (Bool-cases (node == n)) [
      | inl same ↦ cc (not-has-nil id c.pending (new c (ground (arith, at n))))
      | inr other ↦ b.timed n c id (ground (arith, at n)) held
    ];
    waited = λ id t h.
        let (c, there, socket, held) = b.waited id t h in
        elim (Bool-cases (node == t.node_id)) [
          | inl same ↦
              let place : node ≡ t.node_id = (nat_beq_iff node t.node_id).0 same in
              cc (not-has-nil id c.pending (old c (rw place there)))
          | inr other ↦ (c, ground (arith, at t.node_id), socket, held)
        ];
    once = b.once;
    single = b.single;
  }

  -- A connection is changed in place, with the same socket and the same keys.
  pub changed-IsSettling :
      (c c' : Connection)
      → lookup node g.connections ≡ some c
      → c'.socket ≡ c.socket
      → ((id : String) → has id c'.pending ≡ has id c.pending)
      → UniqueKeys c'.pending
      → IsSettling (put_connection node c' g)
  changed-IsSettling c c' found socket keys unique = record {
    unique = λ n d h. ground (arith, lookup-insert node n c' g.connections, b.unique n d);
    timed = λ n d id h held. ground (
      arith,
      lookup-insert node n c' g.connections,
      b.timed n d id,
      b.timed node c id,
      keys id,
      nat_beq_iff node n,
    );
    waited = λ id t h.
        let (d, there, same_socket, held) = b.waited id t h in
        elim (Bool-cases (node == t.node_id)) [
          | inl same ↦
              let place : node ≡ t.node_id = (nat_beq_iff node t.node_id).0 same in
              let one : d ≡ c = some-injective d c (sym there ∙ rw (← place) found) in
              (
                c',
                ground (arith, lookup-insert node t.node_id c' g.connections),
                ground arith,
                ground (arith, keys id),
              )
          | inr other ↦
              (d, ground (arith, lookup-insert node t.node_id c' g.connections), same_socket, held)
        ];
    once = b.once;
    single = b.single;
  }
