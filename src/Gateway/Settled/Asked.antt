-- ===== src/Gateway/Settled/Asked.antt =====
-- A request keeps the books.
use gsm.Common.{
  ℕ, ◌≡◌, inl, inr, ap, Bool, true, false, none, some, is_some, String, ◌==◌, nat_eq, string_eq,
  nat_beq_iff, count, count_of_not_contains, contains, lookup, insert, has, lookup-insert,
  lookup-insert_self, insert-UniqueKeys, Result, Bool-cases, Option-cases, Result-cases, arith,
}
use gsm.Gateway.{Pending, Connection, Timer, Gateway, enter, request, fresh_pending}
use gsm.Gateway.Messages.{on_stream}
use gsm.Gateway.Settled.{IsSettling, finish-IsSettling, tell-IsSettling}

-- A request of a new id.
module _ (node : ℕ) (c : Connection) (id : String) (p : Pending) (g : Gateway) (b : IsSettling g)
    (found : lookup node g.connections ≡ some c) (new : count (λ i. i == id) g.issued ≡ 0) where
  idle : lookup id g.timers ≡ none
  idle = ground (arith, b.once id)

  entered : Connection
  entered = record c { pending = insert id p c.pending }

  enter-waited :
      (j : String) (t : Timer)
      → lookup j (enter node c id p g).timers ≡ some t
      → (d : Connection) × (lookup t.node_id (enter node c id p g).connections ≡ some d)
        × (d.socket ≡ t.socket)
        × (has j d.pending ≡ true)
  unfolding enter entered
  enter-waited j t h = elim (Bool-cases (id == j)) [
    | inl same ↦
        let mine : record { node_id = node; socket = c.socket } ≡ t =
          ground
            (arith, lookup-insert id j (record { node_id = node; socket = c.socket }) g.timers) in
        let place : node ≡ t.node_id = ap (λ (x : Timer). x.node_id) mine in
        (
          entered,
          ground (arith, lookup-insert node t.node_id entered g.connections),
          ap (λ (x : Timer). x.socket) mine,
          ground (arith, lookup-insert id j p c.pending),
        )
    | inr other ↦
        let runs : lookup j g.timers ≡ some t =
          ground
            (arith, lookup-insert id j (record { node_id = node; socket = c.socket }) g.timers) in
        let (d, there, socket, held) = b.waited j t runs in
        elim (Bool-cases (node == t.node_id)) [
          | inl same ↦
              let place : node ≡ t.node_id = (nat_beq_iff node t.node_id).0 same in
              let one : d ≡ c = ground arith in
              (
                entered,
                ground (arith, lookup-insert node t.node_id entered g.connections),
                ground arith,
                ground (arith, lookup-insert id j p c.pending),
              )
          | inr elsewhere ↦
              (d, ground (arith, lookup-insert node t.node_id entered g.connections), socket, held)
        ]
  ]

  enter-IsSettling : IsSettling (enter node c id p g)
  unfolding enter entered
  enter-IsSettling = record {
    unique = λ n d h. ground (
      arith,
      lookup-insert node n entered g.connections,
      insert-UniqueKeys id p c.pending,
      b.unique node c found,
      b.unique n d,
    );
    timed = λ n d j h held. ground (
      arith,
      lookup-insert node n entered g.connections,
      lookup-insert id j p c.pending,
      lookup-insert id j (record { node_id = node; socket = c.socket }) g.timers,
      b.timed node c j,
      b.timed n d j,
      string_eq.test_iff id j,
      nat_beq_iff node n,
      idle,
    );
    waited = enter-waited;
    once = λ j. ground (
      arith,
      b.once j,
      lookup-insert id j (record { node_id = node; socket = c.socket }) g.timers,
      string_eq.test_iff id j,
      idle,
      new,
    );
    single = λ j. ground (arith, b.single j, string_eq.test_iff id j, new);
  }

pub request-IsSettling :
    (node : ℕ) (id method : String) (on_stream : Bool) (sent : Result String) (g : Gateway)
    → contains id g.issued ≡ false
    → IsSettling g
    → IsSettling (request node id method on_stream sent g).0
unfolding request
request-IsSettling node id method on_stream sent g fresh b =
    elim (Option-cases (lookup node g.connections)) [
      | inl none_there ↦ rw (none_there, request) b
      | inr (c, found) ↦ elim (Bool-cases c.hello_received) [
        | inr silent ↦ rw (found, request) (rw silent b)
        | inl ready ↦
            let p = fresh_pending method on_stream in
            let entered =
              enter-IsSettling node c id p g b found (count_of_not_contains id g.issued fresh) in
            elim (Result-cases sent) [
              | inl (problem, failed) ↦
                  rw (found, request)
                    (rw (ready, failed)
                      (finish-IsSettling node _ id _ _ entered
                        (lookup-insert_self node _ g.connections)
                        (ap is_some (lookup-insert_self id p c.pending))))
              | inr (params, went) ↦
                  rw (found, request) (rw (ready, went) (tell-IsSettling _ _ entered))
            ]
      ]
    ]
