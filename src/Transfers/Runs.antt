-- ===== src/Transfers/Runs.antt =====
-- Sequences of calls of the transfers, and the digests that nodes get.
use gsm.Common.{ℕ, ◌≡◌, false, [], List, String, nat_eq, string_eq, contains}
use gsm.Transfers.{
  State, offer, expect, expire, cancel_offer, cancel_expect, serve, Read, pull, forget, digest,
  digest_later, receive,
}

abbrev pub start : State
start = record { items = []; timers = []; claimed = []; settled = []; streams = []; waiting = [] }

-- Whatever may happen next. A token is drawn at random: it is not one that was claimed.
pub data Step (sha : List String → String) : State → State → Type 0 where
  offers :
      (st : State) (node_id size : ℕ) (token : String)
      → contains token st.claimed ≡ false
      → Step sha st (offer node_id size token st)
  expects :
      (st : State) (node_id : ℕ) (token : String)
      → contains token st.claimed ≡ false
      → Step sha st (expect node_id token st)
  expires : (st : State) (token : String) → Step sha st (expire token st)
  cancels_offer : (st : State) (token reason : String) → Step sha st (cancel_offer token reason st)
  cancels_expect :
      (st : State) (token reason : String) → Step sha st (cancel_expect token reason st)
  serves : (st : State) (token : String) (node_id : ℕ) → Step sha st (serve sha token node_id st).0
  pulls : (st : State) (token : String) (read : Read) → Step sha st (pull sha token read st)
  forgets : (st : State) (token : String) → Step sha st (forget token st)
  asks : (st : State) (token : String) (node_id : ℕ) → Step sha st (digest token node_id st).0
  answers_later : (st : State) (token : String) → Step sha st (digest_later token st).0
  receives : (st : State) (token : String) (node_id : ℕ) → Step sha st (receive token node_id st).0

pub data Reach (sha : List String → String) : State → Type 0 where
  begin : Reach sha start
  after : {st next : State} → Reach sha st → Step sha st next → Reach sha next
