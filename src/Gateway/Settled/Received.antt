-- ===== src/Gateway/Settled/Received.antt =====
-- What an agent sends keeps the books.
use gsm.Common.{
  ℕ, ◌≡◌, inl, inr, refl, ◌||◌, Bool, true, false, not, Option, none, some, [], ◌∷◌, ◌++◌, String,
  ◌==◌, nat_eq, string_eq, lookup, insert, has, lookup-insert, insert-UniqueKeys, Result, ok, err,
  Bool-cases, Option-cases, Result-cases, arith,
}
use gsm.Gateway.{
  Pending, Connection, Gateway, Envelope, streams, passes_on, event, res_ok, res_err, stream, req,
}
use gsm.Gateway.Messages.{
  Wire, on_message, hello_answered, handle, handle_event, answer_ok, on_stream, on_request,
}
use gsm.Gateway.Settled.{IsSettling, finish-IsSettling, tell-IsSettling, changed-IsSettling}

-- What a message does to the books.
module _ (w : Wire) (node : ℕ) (c : Connection) (g : Gateway) (b : IsSettling g)
    (found : lookup node g.connections ≡ some c) where
  waits_of : (id : String) (p : Pending) → lookup id c.pending ≡ some p → has id c.pending ≡ true
  waits_of id p h = rw h refl

  answer_ok-IsSettling :
      (id : String) (p : Pending) (value : String)
      → lookup id c.pending ≡ some p
      → IsSettling (answer_ok w node c id p value g)
  unfolding answer_ok
  answer_ok-IsSettling id p value h = elim (Option-cases (w.parse_result p.method value)) [
    | inl malformed ↦
        rw (malformed, answer_ok) (finish-IsSettling node c id _ g b found (waits_of id p h))
    | inr (parsed, fits) ↦
        rw (fits, answer_ok) (finish-IsSettling node c id _ g b found (waits_of id p h))
  ]

  on_stream-IsSettling :
      (id : String) (p : Pending) (chunk : String) (seq : ℕ) (done : Bool)
      → lookup id c.pending ≡ some p
      → IsSettling (on_stream node c id p chunk seq done g)
  unfolding on_stream
  on_stream-IsSettling id p chunk seq true h =
      let p' = record p { stream_done = true } in
      changed-IsSettling node g b c (record c { pending = insert id p' c.pending }) found refl
        (λ j. ground (arith, lookup-insert id j p' c.pending, string_eq.test_iff id j))
        (insert-UniqueKeys id p' c.pending (b.unique node c found))
  on_stream-IsSettling id p chunk seq false h =
      ground (arith, tell-IsSettling g (g.told ++ streams id chunk seq ∷ []) b)

  on_request-IsSettling :
      (id method params : String) → IsSettling (on_request w node c id method params g)
  unfolding on_request
  on_request-IsSettling id method params =
      elim (Bool-cases (not c.hello_received || not (method == "sftp.auth"))) [
        | inl unknown ↦ rw (unknown, on_request) (tell-IsSettling g _ b)
        | inr known ↦ elim (Option-cases (w.parse_sign_in params)) [
          | inl malformed ↦ rw (known, on_request) (rw malformed (tell-IsSettling g _ b))
          | inr (parsed, fits) ↦ elim (Result-cases (w.sign_in node parsed)) [
            | inl (problem, failed) ↦
                rw (known, on_request) (rw (fits, failed) (tell-IsSettling g _ b))
            | inr (result, done) ↦ rw (known, on_request) (rw (fits, done) (tell-IsSettling g _ b))
          ]
        ]
      ]

  handle-IsSettling : (env : Envelope) → IsSettling (handle w node c env g)
  unfolding handle handle_event
  handle-IsSettling (event name value) =
      ground (arith, tell-IsSettling g (g.told ++ passes_on node name value ∷ []) b)
  handle-IsSettling (res_ok id value) = elim (Option-cases (lookup id c.pending)) [
    | inl gone ↦ rw (gone, handle) b
    | inr (p, h) ↦ rw (h, handle) (answer_ok-IsSettling id p value h)
  ]
  handle-IsSettling (res_err id problem) = elim (Option-cases (lookup id c.pending)) [
    | inl gone ↦ rw (gone, handle) b
    | inr (p, h) ↦ rw (h, handle) (finish-IsSettling node c id _ g b found (waits_of id p h))
  ]
  handle-IsSettling (stream id chunk seq done) = elim (Option-cases (lookup id c.pending)) [
    | inl gone ↦ rw (gone, handle) b
    | inr (p, h) ↦ rw (h, handle) (on_stream-IsSettling id p chunk seq done h)
  ]
  handle-IsSettling (req id method params) = on_request-IsSettling id method params

pub on_message-IsSettling :
    (w : Wire) (node socket : ℕ) (decoded : Option Envelope) (g : Gateway)
    → IsSettling g
    → IsSettling (on_message w node socket decoded g)
unfolding on_message
on_message-IsSettling w node socket decoded g b = elim (Option-cases (lookup node g.connections)) [
  | inl none_there ↦ rw (none_there, on_message) b
  | inr (c, found) ↦ elim (Bool-cases (c.socket == socket)) [
    | inr other ↦ rw (found, on_message) (rw other b)
    | inl same ↦
        rw (found, on_message)
          (rw same
            (elim decoded
              as (λ d. IsSettling (elim d [ none ↦ g | some env ↦ handle w node c env g ])) [
                | none ↦ b
                | some env ↦ handle-IsSettling w node c g b found env
              ]))
  ]
]

pub hello_answered-IsSettling :
    (node socket : ℕ) (answer : Result (Unit {0})) (reason : String) (g : Gateway)
    → IsSettling g
    → IsSettling (hello_answered node socket answer reason g)
unfolding hello_answered
hello_answered-IsSettling node socket (err problem) reason g b = tell-IsSettling g _ b
hello_answered-IsSettling node socket (ok done) reason g b =
    elim (Option-cases (lookup node g.connections)) [
      | inl none_there ↦ rw (none_there, hello_answered) (tell-IsSettling g _ b)
      | inr (c, found) ↦ elim (Bool-cases (c.socket == socket)) [
        | inr other ↦ rw (found, hello_answered) (rw other (tell-IsSettling g _ b))
        | inl same ↦
            rw (found, hello_answered)
              (rw same (
                tell-IsSettling _ _ (
                  changed-IsSettling node g b c (record c { hello_received = true }) found refl
                    (λ j. refl) (b.unique node c found))))
      ]
    ]
