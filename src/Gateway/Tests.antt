-- ===== src/Gateway/Tests.antt =====
-- A gateway with one agent: its socket opens, its hello is accepted, a request is answered.
use gsm.Common.{
  ℕ, ◌≡◌, ◌⊎◌, refl, true, false, none, some, [], ◌∷◌, ◌==◌, string_eq, nat_eq, ok, http_error,
  contains, lookup, insert, delete, has, if◌then◌else◌,
}
use gsm.Gateway.{
  Gateway, Connection, Timer, resolved, rejected, res_ok, request, fire, disconnect, on_open,
  on_close,
}
use gsm.Gateway.Messages.{Wire, on_message, hello_answered}
use gsm.Gateway.Settled.{answers_of}
use gsm.Gateway.Settled.Runs.{start, begin, after, asked, opens, answered, settled_once}

abbrev wire : Wire
wire = record {
  parse_result = λ method value. if method == "inst.start" then some value else none;
  fits_event = λ name value. true;
  parse_sign_in = λ params. none;
  sign_in = λ node params. ok "yes";
}

abbrev greeted : Gateway
greeted = hello_answered 7 1 (ok tt) "" (on_open 7 1 none 0 start)

abbrev waiting : Gateway
waiting = (request 7 "r1" "inst.start" false (ok "{}") greeted).0

run : Unit {0}
unfolding request fire disconnect on_open on_close on_message hello_answered lookup insert delete
run = tt

-- The answer settles the promise, and a second one does nothing; so does a timer that was cleared.
answered_run :
    let g = on_message wire 7 1 (some (res_ok "r1" "up")) waiting in
    (g.answers ≡ ("r1", resolved "up") ∷ [])
    × (on_message wire 7 1 (some (res_ok "r1" "up")) g ≡ g)
    × (fire "r1" g ≡ g)
    × (g.timers ≡ [])
unfolding run
answered_run = (refl, refl, refl, refl)

-- A timer that fires, an end of the socket, a new socket, an old one's message.
ended_run :
    ((fire "r1" waiting).answers
      ≡ ("r1", rejected (http_error 504 "agent_timeout" "${method} timed out after ${timeoutMs}ms"))
        ∷ [])
    × ((on_close 7 1 waiting).answers
        ≡ ("r1", rejected (http_error 502 "agent_unavailable" "connection closed")) ∷ [])
    × ((on_open 7 2 none 5 waiting).answers
        ≡ ("r1", rejected (http_error 502 "agent_unavailable" "replaced by a new connection")) ∷ [])
    × (on_message wire 7 1 (some (res_ok "r1" "up")) (on_open 7 2 none 5 greeted)
        ≡ on_open 7 2 none 5 greeted)
unfolding run
ended_run = (refl, refl, refl, refl)

given : contains "r1" waiting.issued ≡ true
unfolding run
given = refl

unasked : contains "r1" greeted.issued ≡ false
unfolding run
unasked = refl

settled_once_example :
    ((answers_of "r1" waiting ≡ 1)
      × (lookup "r1" waiting.timers ≡ none)
      × ((node : ℕ) (c : Connection)
          → lookup node waiting.connections ≡ some c
          → has "r1" c.pending ≡ false))
    ⊎ ((answers_of "r1" waiting ≡ 0)
        × ((t : Timer) × (c : Connection) × (lookup "r1" waiting.timers ≡ some t)
            × (lookup t.node_id waiting.connections ≡ some c)
            × (c.socket ≡ t.socket)
            × (has "r1" c.pending ≡ true)))
settled_once_example =
    settled_once
      (after
        (after (after begin (opens start 7 1 none 0))
          (answered (on_open 7 1 none 0 start) 7 1 (ok tt) ""))
        (asked greeted 7 "r1" "inst.start" false (ok "{}") unasked))
      "r1" given
