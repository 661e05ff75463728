-- ===== src/Ports/Tests.antt =====
-- Allocations on a small template: a game port with a query port that follows it, and a free one.
use gsm.Common.{
  ℕ, ◌≡◌, ◌≢◌, refl, Option, none, some, List, [], ◌∷◌, String, ok, err, conflict, bad_request,
  insert, lookup, Zipped, Pairwise, false, string_eq, ne_of_beq, arith,
}
use gsm.Ports.{
  TemplatePort, Range, Allocation, both, allocation, allocate_ports, head_of, block_sizes, by_name,
  pick, advance, default_fits, exhausted, place, assign, chosen_differs, block_free, take_block,
  busy_error, first_busy,
}
use gsm.Ports.Guarantees.{Serves, HasOwnPlace, allocate_ports-Serves, allocate_ports_apart}

run : Unit {0}
unfolding allocate_ports block_sizes head_of by_name pick advance default_fits exhausted place
    assign chosen_differs allocation block_free take_block busy_error first_busy insert lookup
run = tt

abbrev port_named : String → Option String → ℕ → TemplatePort
port_named name follows preset = record {
  name = name;
  label = name;
  protocol = both;
  preset = preset;
  primary = false;
  follows = follows;
}

abbrev game_ports : List TemplatePort
game_ports =
    port_named "game" none 27015
    ∷ port_named "query" (some "game") 27016
    ∷ port_named "rcon" none 27015
    ∷ []

abbrev pool : Range
pool = record { start = 27000; end = 27020 }

abbrev served : List Allocation
served =
    allocation (port_named "game" none 27015) 27017
    ∷ allocation (port_named "query" (some "game") 27016) 27018
    ∷ allocation (port_named "rcon" none 27015) 27015
    ∷ []

-- The game port was chosen; the query port follows it; the third gets its default.
served_run : allocate_ports game_ports (("game", 27017) ∷ []) (27016 ∷ []) pool ≡ ok served
unfolding run
served_run = refl

-- A chosen port that is taken, a follower chosen elsewhere, an unknown name.
refused_run :
    (allocate_ports game_ports (("game", 27015) ∷ []) (27016 ∷ []) pool
      ≡ err (conflict "Port ${busy} is already in use on this node"))
    × (allocate_ports game_ports (("query", 27001) ∷ []) [] pool
        ≡ err (bad_request "Port \"${p.name}\" is always ${head.name} + ${offset} (${port})"))
    × (allocate_ports game_ports (("web", 80) ∷ []) [] pool
        ≡ err (bad_request "Unknown port \"${name}\""))
unfolding run
refused_run = (refl, refl, refl)

-- The cursor does not go back for a smaller block: port 100 is free here, and the pool is refused.
refused_with_a_free_port :
    allocate_ports
      (port_named "game" none 1
        ∷ port_named "query" (some "game") 1
        ∷ port_named "rcon" none 1
        ∷ [])
      []
      (101 ∷ [])
      (record { start = 100; end = 103 })
    ≡ err (conflict "The node's port range ${range.start}-${range.end} has no free ports left")
unfolding run
refused_with_a_free_port = refl

allocate_ports-Serves_example :
    Zipped (Serves (("game", 27017) ∷ []) (27016 ∷ [])) game_ports served
allocate_ports-Serves_example =
    allocate_ports-Serves game_ports (("game", 27017) ∷ []) (27016 ∷ []) pool served served_run

own_places : Pairwise (HasOwnPlace game_ports) game_ports
unfolding run
own_places = (
  (λ (_, e). omega arith, (λ (e, _). ne_of_beq "game" "rcon" refl e, tt)),
  ((λ (e, _). ne_of_beq "game" "rcon" refl e, tt), (tt, tt)),
)

allocate_ports_apart_example : Pairwise (λ a b. a.port ≢ b.port) served
allocate_ports_apart_example =
    allocate_ports_apart game_ports (("game", 27017) ∷ []) (27016 ∷ []) pool served own_places
      served_run
