-- ===== src/Transfers/Tickets.antt =====
-- server/src/modules/files/tickets.ts: one-time tickets for downloads.
use gsm.Common.{
  ℕ, ◌+◌, Bool, not, ◌||◌, Option, none, some, List, [], ◌∷◌, String, ◌==◌, nat_eq, string_eq, ltb,
  if◌then◌else◌, lookup, insert, delete,
}

pub data Content : Type 0 where
  files : String → List String → Content
  backup : String → String → Content

pub record Ticket : Type 0 where
  pub user_id : ℕ
  pub instance_id : ℕ
  pub node_id : ℕ
  pub filename : String
  pub size : Option ℕ
  pub archive : Bool
  pub kind : Content
  pub expires_at : ℕ

abbrev pub ticket_ms : ℕ
ticket_ms = 60000

-- The loop over the map that leaves expired tickets out.
purge : ℕ → List (String × Ticket) → List (String × Ticket)
purge now [] = []
purge now ((k, v) ∷ rest) =
    let kept = purge now rest in if ltb v.expires_at now then kept else (k, v) ∷ kept

unfoldable pub issue_ticket : ℕ → String → Ticket → List (String × Ticket) → List (String × Ticket)
unfolding purge
issue_ticket now id t tickets =
    insert id (record t { expires_at = now + ticket_ms }) (purge now tickets)

unfoldable pub claim_ticket :
    ℕ → String → ℕ → List (String × Ticket) → List (String × Ticket) × Option Ticket
claim_ticket now id user_id tickets = elim (lookup id tickets) [
  | none ↦ (tickets, none)
  | some t ↦
      if ltb t.expires_at now || not (t.user_id == user_id)
      then (tickets, none)
      else (delete id tickets, some t)
]
