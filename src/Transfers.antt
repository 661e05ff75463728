-- ===== src/Transfers.antt =====
-- server/src/modules/files/transfers.ts and tickets.ts: one-time tokens for bytes between browsers
-- and agents. A stream's reads and its end come as calls, and the SHA-256 is a parameter.
pub mod Tickets
pub mod Whole
pub mod Given
pub mod Runs
mod Tests
use gsm.Common.{
  ℕ, ◌+◌, Bool, true, false, not, ◌&&◌, ◌||◌, Option, none, some, List, [], ◌∷◌, ◌++◌, String, ◌==◌,
  nat_eq, string_eq, ltb, if◌then◌else◌, contains, destroy, lookup, insert, delete, has,
}
use gsm.Text.{chars, decimal, ◌+++◌}

-- An outgoing transfer has the announced size.
pub data Kind : Type 0 where
  outgoing : ℕ → Kind
  incoming : Kind

pub record Transfer : Type 0 where
  pub kind : Kind
  pub node_id : ℕ

-- What the promise of a transfer (`digest` or `arrival`) was first settled with.
pub data Settled : Type 0 where
  digested : String → Settled
  arrived : Settled
  failed : String → Settled

-- The stream of an outgoing transfer: what its tally has hashed, whether it was all, whether it ended.
pub record Stream : Type 0 where
  pub size : ℕ
  pub chunks : List String
  pub complete : Bool
  pub ended : Bool

-- `items`, the expiry timers that run, and what the transfer objects hold: they outlive their entry.
pub record State : Type 0 where
  pub items : List (String × Transfer)
  pub timers : List String
  pub claimed : List String
  pub settled : List (String × Settled)
  pub streams : List (String × Stream)
  pub waiting : List String  -- the tokens of digest requests that wait for the promise

abbrev pub total_bytes : List String → ℕ
total_bytes [] = 0
total_bytes (c ∷ cs) = chars c + total_bytes cs

-- `resolve` and `reject`: only the first call counts.
pub settle : String → Settled → State → State
settle token what st =
    if has token st.settled then st else record st { settled = insert token what st.settled }

abbrev pub clear_timer : String → State → State
clear_timer token st = record st { timers = destroy (λ t. t == token) st.timers }

abbrev pub drop_item : String → State → State
drop_item token st = record st { items = delete token st.items }

add : String → Transfer → State → State
add token t st = record st { items = insert token t st.items; timers = token ∷ st.timers }

unfoldable pub offer : ℕ → ℕ → String → State → State
unfolding add
offer node_id size token st = add token (record { kind = outgoing size; node_id = node_id }) st

unfoldable pub expect : ℕ → String → State → State
unfolding add
expect node_id token st = add token (record { kind = incoming; node_id = node_id }) st

-- `expire`, when the timer of a token fires.
unfoldable pub expire : String → State → State
unfolding settle
expire token st =
    let fired = clear_timer token st in
    elim (lookup token st.items) [
      | none ↦ fired
      | some t ↦ if contains token st.claimed then fired else elim t.kind [
        | outgoing size ↦
            settle token (failed "The node never fetched the file") (drop_item token fired)
        | incoming ↦ settle token (failed "The node never sent the file") (drop_item token fired)
      ]
    ]

-- The `cancel` that `offer` and `expect` give.
unfoldable pub cancel_offer : String → String → State → State
unfolding settle
cancel_offer token reason st = settle token (failed reason) (drop_item token (clear_timer token st))

unfoldable pub cancel_expect : String → String → State → State
unfolding settle
cancel_expect token reason st =
    let cleared = clear_timer token st in
    settle token (failed reason)
      (if not (contains token st.claimed) then drop_item token cleared else cleared)

-- Whether a request of a node may claim a token.
pub may_serve : String → ℕ → State → Option ℕ
may_serve token node_id st = elim (lookup token st.items) [
  | none ↦ none
  | some t ↦ elim t.kind [
    | incoming ↦ none
    | outgoing size ↦
        if not (t.node_id == node_id) || contains token st.claimed then none else some size
  ]
]

pub may_receive : String → ℕ → State → Bool
may_receive token node_id st = elim (lookup token st.items) [
  | none ↦ false
  | some t ↦ elim t.kind [
    | outgoing size ↦ false
    | incoming ↦ t.node_id == node_id && not (contains token st.claimed)
  ]
]

abbrev pub put_stream : String → Stream → State → State
put_stream token s st = record st { streams = insert token s st.streams }

-- `fail`: the entry goes and the digest is rejected; the stream ends.
pub fail : String → Stream → String → State → State
unfolding settle
fail token s message st =
    settle token (failed message)
      (drop_item token (put_stream token (record s { ended = true }) st))

abbrev pub ended_after : Stream → String
ended_after s =
    "The upload ended after "
    +++ decimal (total_bytes s.chunks)
    +++ " of "
    +++ decimal s.size
    +++ " bytes"

-- What a read came to: a chunk, the end of the source, or no answer in time; or the reader left.
pub data Read : Type 0 where
  chunk : String → Read
  source_ended stalled reader_left : Read

module _ (sha : List String → String) where
  -- `finish`: everything has passed.
  pub finish : String → Stream → State → State
  unfolding settle
  finish token s st =
      settle token (digested (sha s.chunks)) (put_stream token (record s { complete = true }) st)

  -- The agent's GET; none is an unknown transfer.
  unfoldable pub serve : String → ℕ → State → State × Option ℕ
  unfolding may_serve finish
  serve token node_id st = elim (may_serve token node_id st) [
    | none ↦ (st, none)
    | some size ↦
        let s : Stream = record { size = size; chunks = []; complete = false; ended = false } in
        let claiming : State = record (clear_timer token st) { claimed = token ∷ st.claimed } in
        let started = put_stream token s claiming in
        (if size == 0 then finish token s started else started, some size)
  ]

  -- A read that gave a chunk.
  pub passed : String → Stream → String → State → State
  unfolding finish fail
  passed token s bytes st =
      let s' = record s { chunks = s.chunks ++ bytes ∷ [] } in
      if ltb s.size (total_bytes s'.chunks)
      then fail token s' "The upload is larger than announced" st
      else if total_bytes s'.chunks == s.size
      then finish token s' st
      else put_stream token s' st

  unfoldable pub pull : String → Read → State → State
  unfolding passed fail
  pull token read st = elim (lookup token st.streams) [
    | none ↦ st
    | some s ↦ if s.complete || s.ended then st else elim read [
      | chunk c ↦ passed token s c st
      | source_ended ↦ fail token s (ended_after s) st
      | stalled ↦ fail token s "The upload stalled" st
      | reader_left ↦ fail token s "The node stopped reading" st
    ]
  ]

-- A finished transfer's entry goes after a minute, and once its digest was asked for.
unfoldable pub forget : String → State → State
forget token st = drop_item token st

-- Whether a request of a node may ask for the digest of a token.
pub may_ask : String → ℕ → State → Bool
may_ask token node_id st = elim (lookup token st.items) [
  | none ↦ false
  | some t ↦ elim t.kind [
    | incoming ↦ false
    | outgoing size ↦ t.node_id == node_id && contains token st.claimed
  ]
]

-- The agent's GET …/digest: what the promise came to, if it is settled. The
-- entry goes with it; else the request waits.
unfoldable pub digest : String → ℕ → State → State × Option Settled
unfolding may_ask
digest token node_id st =
    if may_ask token node_id st
    then elim (lookup token st.settled) [
      | none ↦ (record st { waiting = token ∷ st.waiting }, none)
      | some what ↦ (drop_item token st, some what)
    ]
    else (st, some (failed "Unknown transfer"))

remove_first : String → List String → List String
remove_first token [] = []
remove_first token (t ∷ ts) =
    let rest = remove_first token ts in if t == token then ts else t ∷ rest

-- The answer to a request that waited, once the promise is settled. The entry goes with it.
unfoldable pub digest_later : String → State → State × Option Settled
unfolding remove_first
digest_later token st =
    if contains token st.waiting
    then elim (lookup token st.settled) [
      | none ↦ (st, none)
      | some what ↦
          (drop_item token (record st { waiting = remove_first token st.waiting }), some what)
    ]
    else (st, none)

-- The agent's POST: its body goes to whoever waits.
unfoldable pub receive : String → ℕ → State → State × Bool
unfolding may_receive settle
receive token node_id st =
    if may_receive token node_id st
    then (
      settle token arrived
          (drop_item token (record (clear_timer token st) { claimed = token ∷ st.claimed })),
      true,
    )
    else (st, false)
