-- ===== src/Transfers/Tests.antt =====
-- Runs of the transfers and the tickets, and the witness of their theorem.
use gsm.Common.{
  ◌≡◌, refl, true, false, none, some, [], ◌∷◌, List, String, nat_eq, string_eq, lookup, insert,
  delete,
}
use gsm.Text.{◌+++◌, chars, decimal}
use gsm.Transfers.{
  State, digested, failed, offer, expect, expire, cancel_offer, serve, chunk, source_ended, pull,
  digest, digest_later, receive,
}
use gsm.Transfers.Runs.{start}
use gsm.Transfers.Tickets.{Ticket, files, issue_ticket, claim_ticket}

abbrev joined : List String → String
joined [] = "#"
joined (c ∷ cs) = c +++ joined cs

abbrev offered : State
offered = offer 7 5 "tok" start

abbrev served : State
served = (serve joined "tok" 7 offered).0

abbrev half : State
half = pull joined "tok" (chunk "abc") served

abbrev all_passed : State
all_passed = pull joined "tok" (chunk "de") half

run : Unit {0}
unfolding offer expect expire cancel_offer serve pull digest digest_later receive lookup insert
    delete
run = tt

whole_run :
    ((digest "tok" 7 half).1 ≡ none)
    × ((digest "tok" 7 all_passed).1 ≡ some (digested "abcde#"))
    × ((digest_later "tok" (pull joined "tok" (chunk "de") (digest "tok" 7 half).0)).1
        ≡ some (digested "abcde#"))
    × ((digest "tok" 8 all_passed).1 ≡ some (failed "Unknown transfer"))
    × ((serve joined "tok" 7 served).1 ≡ none)
    × ((serve joined "tok" 8 offered).1 ≡ none)
unfolding run chars decimal
whole_run = (refl, refl, refl, refl, refl, refl)

failed_run :
    ((pull joined "tok" (chunk "abcdef") served).settled
      ≡ ("tok", failed "The upload is larger than announced") ∷ [])
    × ((pull joined "tok" source_ended half).settled
        ≡ ("tok", failed "The upload ended after 3 of 5 bytes") ∷ [])
    × ((expire "tok" offered).settled ≡ ("tok", failed "The node never fetched the file") ∷ [])
    × (expire "tok" served ≡ served)
    × ((receive "up" 7 (expect 7 "up" start)).1 ≡ true)
    × ((receive "up" 7 (receive "up" 7 (expect 7 "up" start)).0).1 ≡ false)
unfolding run chars decimal
failed_run = (refl, refl, refl, refl, refl, refl)

abbrev ticket : Ticket
ticket = record {
  user_id = 3;
  instance_id = 1;
  node_id = 7;
  filename = "world.zip";
  size = none;
  archive = true;
  kind = files "world" ("level.dat" ∷ []);
  expires_at = 0;
}

abbrev issued : List (String × Ticket)
issued = issue_ticket 100 "t" ticket []

-- A ticket is for its user, once, until its time has passed.
ticket_run :
    ((claim_ticket 60100 "t" 3 issued).1 ≡ some (record ticket { expires_at = 60100 }))
    × ((claim_ticket 60101 "t" 3 issued).1 ≡ none)
    × ((claim_ticket 200 "t" 4 issued) ≡ (issued, none))
    × ((claim_ticket 200 "t" 3 (claim_ticket 200 "t" 3 issued).0).1 ≡ none)
unfolding run issue_ticket claim_ticket
ticket_run = (refl, refl, refl, refl)

given : (digest "tok" 7 all_passed).1 ≡ some (digested "abcde#")
unfolding run chars decimal
given = refl
