-- ===== src/Ports.antt =====
-- server/src/modules/instances/ports.ts: every template port gets a host port of the node's pool.
-- A `Map` or record is an association list in insertion order, a `Set` a list; a thrown error is an
-- `err`. The source's `!` on a missing key, which it never expects, is an `internal` error here.
mod Blocks
mod Sizes
mod Chosen
mod Pool
mod Assign
mod Heads
pub mod Guarantees
mod Tests
use gsm.Common.{
  ℕ, zero, suc, ◌+◌, ◌-◌, String, Bool, true, false, not, ◌&&◌, ◌||◌, Option, none, some, List, [],
  ◌∷◌, map, max, ltb, leb, ◌==◌, if◌then◌else◌, lookup, insert, has, contains, or_else, is_some,
  length, HttpError, bad_request, conflict, internal, Result, ok, err, ◌>>=◌, ◌>>◌, nat_eq,
  string_eq,
}

pub data Protocol : Type 0 where
  tcp udp both : Protocol

-- The fields of a `TemplatePort` that matter here; the schema's pattern keeps names from being "".
pub record TemplatePort : Type 0 where
  pub name : String
  pub label : String
  pub protocol : Protocol
  pub preset : ℕ  -- `default`
  pub primary : Bool
  pub follows : Option String

pub record Allocation : Type 0 where
  pub name : String
  pub label : String
  pub protocol : Protocol
  pub port : ℕ
  pub primary : Bool

pub record Range : Type 0 where
  pub start : ℕ
  pub end : ℕ

abbrev pub PortMap : Type 0
PortMap = List (String × TemplatePort)

abbrev pub Sizes : Type 0
Sizes = List (String × ℕ)

-- `new Map(ports.map((p) => [p.name, p]))`: a later port of the same name replaces an earlier one.
pub by_name_from : PortMap → List TemplatePort → PortMap
by_name_from m [] = m
by_name_from m (p ∷ ports) = by_name_from (insert p.name p m) ports

pub by_name : List TemplatePort → PortMap
unfolding by_name_from
by_name ports = by_name_from [] ports

-- The port that `head.follows` names, if it is there.
pub next_head : PortMap → TemplatePort → Option TemplatePort
next_head m head = elim head.follows [ none ↦ none | some name ↦ lookup name m ]

-- The loop of `headOf`; the first argument is `ports.length - offset`, the source's own bound.
pub head_loop : PortMap → ℕ → TemplatePort → ℕ → TemplatePort × ℕ
head_loop m zero head offset = (head, offset)
head_loop m (suc left) head offset = elim (next_head m head) [
  | none ↦ (head, offset)
  | some h ↦ head_loop m left h (offset + 1)
]

pub head_of : List TemplatePort → TemplatePort → TemplatePort × ℕ
unfolding head_loop next_head
head_of ports p = head_loop (by_name ports) (length ports) p 0

-- One round of the loop that fills `size`, over what `headOf` returns.
pub grow : TemplatePort × ℕ → Sizes → Sizes
grow (head, offset) size =
    insert head.name (max (or_else (lookup head.name size) 1) (offset + 1)) size

pub sizes_from : List TemplatePort → Sizes → List TemplatePort → Sizes
sizes_from all size [] = size
sizes_from all size (p ∷ ports) = sizes_from all (grow (head_of all p) size) ports

-- Every port's block: the head's name and its size (the head plus its followers).
pub block_sizes : List TemplatePort → Sizes
unfolding sizes_from grow
block_sizes ports = sizes_from ports [] ports

pub check_choices : PortMap → Sizes → Result (Unit {0})
check_choices m [] = ok tt
check_choices m ((name, port) ∷ choices) =
    if has name m then check_choices m choices else err (bad_request "Unknown port \"${name}\"")

-- `blockFree`: `n` ports from `start` are in 1..65535 and not taken.
pub block_free : List ℕ → ℕ → ℕ → Bool
block_free taken start zero = true
block_free taken start (suc n) =
    if ltb start 1 || ltb 65535 start || contains start taken
    then false
    else block_free taken (start + 1) n

-- `take`.
pub take_block : List ℕ → ℕ → ℕ → List ℕ
take_block taken start zero = taken
take_block taken start (suc n) = take_block (start ∷ taken) (start + 1) n

-- The first port of a block that is taken.
pub first_busy : List ℕ → ℕ → ℕ → Option ℕ
first_busy taken start zero = none
first_busy taken start (suc n) =
    if contains start taken then some start else first_busy taken (start + 1) n

-- The variables `taken` and `first`.
pub record Placed : Type 0 where
  pub taken : List ℕ
  pub first : Sizes

pub place : String → ℕ → ℕ → Placed → Placed
place name port n s = record { taken = take_block s.taken port n; first = insert name port s.first }

pub busy_error : Option ℕ → HttpError
busy_error none = bad_request "Port ${port} needs ${n} ports in a row"
busy_error (some busy) = conflict "Port ${busy} is already in use on this node"

-- One round of the first loop: the operator's choice for the block's head, when given.
pub place_choice : Sizes → String → ℕ → Placed → Result Placed
place_choice choices name n s = elim (lookup name choices) [
  | none ↦ ok s
  | some port ↦
      if block_free s.taken port n
      then ok (place name port n s)
      else err (busy_error (first_busy s.taken port n))
]

pub place_choices : Sizes → Sizes → Placed → Result Placed
place_choices choices [] s = ok s
place_choices choices ((name, n) ∷ size) s = do
  s' ← place_choice choices name n s
  place_choices choices size s'

-- `while (cursor + n - 1 <= range.end && !blockFree(cursor, n)) cursor++`, on fuel.
pub seek : ℕ → List ℕ → ℕ → ℕ → ℕ → ℕ
seek zero taken end n cursor = cursor
seek (suc fuel) taken end n cursor =
    let further = seek fuel taken end n (cursor + 1) in
    if leb (cursor + n - 1) end && not (block_free taken cursor n) then further else cursor

-- Where the cursor stops; it can move at most past the end of the range.
pub advance : List ℕ → ℕ → ℕ → ℕ → ℕ
unfolding seek
advance taken end n cursor = seek (end + 1 - cursor) taken end n cursor

pub exhausted : ℕ → HttpError
exhausted n =
    if ltb 1 n
    then conflict
        "The node's port range ${range.start}-${range.end} has no ${n} free ports in a row"
    else conflict "The node's port range ${range.start}-${range.end} has no free ports left"

pub default_fits : Range → List ℕ → ℕ → ℕ → Bool
default_fits range taken n wanted =
    leb range.start wanted && leb (wanted + n - 1) range.end && block_free taken wanted n

-- The port and the cursor after it, for a block that was not chosen.
pub pick : Range → List ℕ → ℕ → ℕ → ℕ → Result (ℕ × ℕ)
pick range taken n wanted cursor =
    if default_fits range taken n wanted
    then ok (wanted, cursor)
    else (let found = advance taken range.end n cursor in
        if ltb range.end (found + n - 1) then err (exhausted n) else ok (found, found))

-- One round of the second loop, on `cursor` and the placed blocks.
pub place_block : PortMap → Range → String → ℕ → ℕ × Placed → Result (ℕ × Placed)
place_block m range name n (cursor, s) =
    if has name s.first then ok (cursor, s) else elim (lookup name m) [
      | none ↦ err (internal "byName.get(name)! is undefined")
      | some p ↦ do
        (port, cursor') ← pick range s.taken n p.preset cursor
        ok (cursor', place name port n s)
    ]

pub place_blocks : PortMap → Range → Sizes → ℕ × Placed → Result (ℕ × Placed)
place_blocks m range [] s = ok s
place_blocks m range ((name, n) ∷ size) s = do
  s' ← place_block m range name n s
  place_blocks m range size s'

-- The test on a follower that was chosen another port than the one it has.
pub chosen_differs : Option ℕ → ℕ → ℕ → Bool
chosen_differs none offset port = false
chosen_differs (some chosen) offset port = ltb 0 offset && not (chosen == port)

pub allocation : TemplatePort → ℕ → Allocation
allocation p port = record {
  name = p.name;
  label = p.label;
  protocol = p.protocol;
  port = port;
  primary = p.primary;
}

-- The body of the last `map`, over what `headOf` returns.
pub assign : Sizes → Sizes → TemplatePort → TemplatePort × ℕ → Result Allocation
assign choices first p (head, offset) = elim (lookup head.name first) [
  | none ↦ err (internal "first.get(head.name)! is undefined")
  | some start ↦
      if chosen_differs (lookup p.name choices) offset (start + offset)
      then err (bad_request "Port \"${p.name}\" is always ${head.name} + ${offset} (${port})")
      else ok (allocation p (start + offset))
]

pub assign_all : List TemplatePort → Sizes → Sizes → List TemplatePort → Result (List Allocation)
assign_all all choices first [] = ok []
assign_all all choices first (p ∷ ports) = do
  a ← assign choices first p (head_of all p)
  rest ← assign_all all choices first ports
  ok (a ∷ rest)

pub allocate_ports : List TemplatePort → Sizes → List ℕ → Range → Result (List Allocation)
unfolding check_choices place_choices place_choice place_blocks place_block assign_all
allocate_ports ports choices used range = do
  check_choices (by_name ports) choices
  s ← place_choices choices (block_sizes ports) (record { taken = used; first = [] })
  (cursor, s') ← place_blocks (by_name ports) range (block_sizes ports) (range.start, s)
  assign_all ports choices s'.first ports
