-- ===== src/Gateway/Settled/Runs.antt =====
-- Sequences of what happens to the gateway, and the promises of its requests.
use gsm.Common.{
  ℕ, ◌≡◌, ◌⊎◌, inl, inr, Bool, true, false, Option, none, some, [], String, nat_eq, string_eq,
  count_of_contains, contains, lookup, has, Result, Bool-cases, Option-cases, arith,
}
use gsm.Gateway.{Connection, Timer, Gateway, Envelope, request, fire, disconnect, on_open, on_close}
use gsm.Gateway.Messages.{Wire, on_message, hello_answered, on_stream}
use gsm.Gateway.Settled.{IsSettling, answers_of}
use gsm.Gateway.Settled.Moves.{
  fire-IsSettling, disconnect-IsSettling, on_close-IsSettling, on_open-IsSettling,
}
use gsm.Gateway.Settled.Received.{on_message-IsSettling, hello_answered-IsSettling}
use gsm.Gateway.Settled.Asked.{request-IsSettling}

abbrev pub start : Gateway
start = record { connections = []; timers = []; issued = []; answers = []; told = [] }

-- Whatever may happen next. The ids of requests are new ones (the source draws them at random).
pub data Step : Gateway → Gateway → Type 0 where
  asked :
      (g : Gateway) (node : ℕ) (id method : String) (on_stream : Bool) (sent : Result String)
      → contains id g.issued ≡ false
      → Step g (request node id method on_stream sent g).0
  fired : (g : Gateway) (id : String) → Step g (fire id g)
  opens :
      (g : Gateway) (node socket : ℕ) (address : Option String) (now : ℕ)
      → Step g (on_open node socket address now g)
  receives :
      (g : Gateway) (w : Wire) (node socket : ℕ) (decoded : Option Envelope)
      → Step g (on_message w node socket decoded g)
  answered :
      (g : Gateway) (node socket : ℕ) (answer : Result (Unit {0})) (reason : String)
      → Step g (hello_answered node socket answer reason g)
  ends : (g : Gateway) (node socket : ℕ) → Step g (on_close node socket g)
  cut_off : (g : Gateway) (node : ℕ) (reason : String) → Step g (disconnect node reason g)

pub data Reach : Gateway → Type 0 where
  begin : Reach start
  after : {g h : Gateway} → Reach g → Step g h → Reach h

Step-IsSettling : {g h : Gateway} → Step g h → IsSettling g → IsSettling h
Step-IsSettling (asked g node id method on_stream sent new) b =
    request-IsSettling node id method on_stream sent g new b
Step-IsSettling (fired g id) b = fire-IsSettling id g b
Step-IsSettling (opens g node socket address now) b = on_open-IsSettling node socket address now g b
Step-IsSettling (receives g w node socket decoded) b =
    on_message-IsSettling w node socket decoded g b
Step-IsSettling (answered g node socket answer reason) b =
    hello_answered-IsSettling node socket answer reason g b
Step-IsSettling (ends g node socket) b = on_close-IsSettling node socket g b
Step-IsSettling (cut_off g node reason) b = disconnect-IsSettling node reason g b

Reach-IsSettling : {g : Gateway} → Reach g → IsSettling g
unfolding lookup
Reach-IsSettling begin = record {
  unique = λ node c h. cc;
  timed = λ node c id h held. cc;
  waited = λ id t h. cc;
  once = λ id. omega arith;
  single = λ id. omega arith;
}
Reach-IsSettling (after r s) = Step-IsSettling s (Reach-IsSettling r)

-- Whatever happens, and in whatever order: a promise that `request` gave out was either settled by
-- exactly one call, has no timer and waits on no connection; or it was not settled yet, its timer
-- runs, and the connection that the timer knows is its node's current one and has the request.
pub settled_once :
    {g : Gateway}
    → Reach g
    → (id : String) → contains id g.issued ≡ true
    → ((answers_of id g ≡ 1)
        × (lookup id g.timers ≡ none)
        × ((node : ℕ) (c : Connection)
            → lookup node g.connections ≡ some c
            → has id c.pending ≡ false))
      ⊎ ((answers_of id g ≡ 0)
          × ((t : Timer) × (c : Connection) × (lookup id g.timers ≡ some t)
              × (lookup t.node_id g.connections ≡ some c)
              × (c.socket ≡ t.socket)
              × (has id c.pending ≡ true)))
settled_once {g} r id given =
    let b = Reach-IsSettling r in
    let counted = count_of_contains id g.issued given in
    elim (Option-cases (lookup id g.timers)) [
      | inl idle ↦ inl (
        ground (arith, b.once id, b.single id),
        idle,
        λ node c found. elim (Bool-cases (has id c.pending)) [
          | inl held ↦ cc (b.timed node c id found held)
          | inr free ↦ free
        ],
      )
      | inr (t, runs) ↦
          let (c, found, socket, held) = b.waited id t runs in
          inr (ground (arith, b.once id, b.single id), (t, c, runs, found, socket, held))
    ]
