-- ===== src/Gateway/Settled/Moves.antt =====
-- Timers, and connections that open and end, keep the books.
use gsm.Common.{
  ℕ, ◌≡◌, inl, inr, refl, true, Option, none, some, List, [], String, ◌==◌, nat_eq, string_eq,
  nat_beq_iff, lookup, delete, lookup-insert, lookup-delete, Bool-cases, Option-cases, arith,
}
use gsm.Gateway.{
  Connection, Told, Gateway, finish, fail_all, fire, disconnect, on_open, opened, on_close,
  unavailable_because,
}
use gsm.Gateway.Settled.{
  IsSettling, finish-IsSettling, fail_entries-IsSettling, replaced-IsSettling,
}

pub fire-IsSettling : (id : String) (g : Gateway) → IsSettling g → IsSettling (fire id g)
unfolding fire finish
fire-IsSettling id g b = elim (Option-cases (lookup id g.timers)) [
  | inl idle ↦ rw (idle, fire) b
  | inr (t, runs) ↦
      let (c, found, socket, held) = b.waited id t runs in
      let same : (c.socket == t.socket) ≡ true = (nat_beq_iff c.socket t.socket).1 socket in
      rw (runs, fire) (rw found (rw same (finish-IsSettling t.node_id c id _ g b found held)))
]

module _ (node : ℕ) (c : Connection) (reason : String) (g : Gateway) (b : IsSettling g)
    (found : lookup node g.connections ≡ some c) where
  fail_all-IsSettling :
      IsSettling (fail_all node c reason g)
      × (lookup node (fail_all node c reason g).connections ≡ some (record c { pending = [] }))
  unfolding fail_all
  fail_all-IsSettling =
      fail_entries-IsSettling node c c.pending (unavailable_because reason) g b found refl

  fail_all-pending :
      (d : Connection)
      → lookup node (fail_all node c reason g).connections ≡ some d
      → d.pending ≡ []
  fail_all-pending d h = ground (arith, fail_all-IsSettling.1)

  removed-IsSettling :
      (told : List Told)
      → IsSettling (record (fail_all node c reason g) {
        connections = delete node (fail_all node c reason g).connections;
        told = told;
      })
  removed-IsSettling told =
      replaced-IsSettling node (fail_all node c reason g) fail_all-IsSettling.0 _ none told
        (λ n. lookup-delete node n (fail_all node c reason g).connections) (λ d h. cc)
        fail_all-pending

pub disconnect-IsSettling :
    (node : ℕ) (reason : String) (g : Gateway)
    → IsSettling g
    → IsSettling (disconnect node reason g)
unfolding disconnect
disconnect-IsSettling node reason g b = elim (Option-cases (lookup node g.connections)) [
  | inl none_there ↦ rw (none_there, disconnect) b
  | inr (c, found) ↦ rw (found, disconnect) (removed-IsSettling node c reason g b found _)
]

pub on_close-IsSettling :
    (node socket : ℕ) (g : Gateway) → IsSettling g → IsSettling (on_close node socket g)
unfolding on_close
on_close-IsSettling node socket g b = elim (Option-cases (lookup node g.connections)) [
  | inl none_there ↦ rw (none_there, on_close) b
  | inr (c, found) ↦ elim (Bool-cases (c.socket == socket)) [
    | inl same ↦
        rw (found, on_close) (rw same (removed-IsSettling node c "connection closed" g b found _))
    | inr other ↦ rw (found, on_close) (rw other b)
  ]
]

pub on_open-IsSettling :
    (node socket : ℕ) (address : Option String) (now : ℕ) (g : Gateway)
    → IsSettling g
    → IsSettling (on_open node socket address now g)
unfolding on_open opened
on_open-IsSettling node socket address now g b =
    let fresh : (d : Connection) → some (opened node socket address now) ≡ some d → d.pending ≡ [] =
      (λ d h. ground arith) in
    elim (Option-cases (lookup node g.connections)) [
      | inl free ↦
          rw (free, on_open)
            (replaced-IsSettling node g b _ (some (opened node socket address now)) g.told
              (λ n. lookup-insert node n (opened node socket address now) g.connections) fresh
              (λ d h. cc))
      | inr (c, found) ↦
          let reason : String = "replaced by a new connection" in
          rw (found, on_open)
            (replaced-IsSettling node (fail_all node c reason g)
              (fail_all-IsSettling node c reason g b found).0 _
              (some (opened node socket address now)) _
              (λ n.
                lookup-insert node n (opened node socket address now)
                  (fail_all node c reason g).connections)
              fresh (fail_all-pending node c reason g b found))
    ]
