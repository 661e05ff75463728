-- ===== src/Console/Tests.antt =====
-- A history of two lines for each console.
use gsm.Common.{ℕ, ◌≡◌, refl, List, [], ◌∷◌, lookup, insert, delete, nat_eq, min, arith}
use gsm.Console.Ring.{push, to_array, new_buffer, last}
use gsm.Console.{
  ConsoleHistory, Key, key_eq, console, install, append, tail, clear, clear_stream, set_capacity,
  push_all, buffer_or_new, lines_of,
}
use gsm.Console.History.{append_all, lines_to, tail-append_all}

abbrev start : ConsoleHistory ℕ
start = record { buffers = []; capacity = 2 }

abbrev out : Key
out = record { instance_id = 7; stream = console }

abbrev setup : Key
setup = record { instance_id = 7; stream = install }

abbrev calls : List (Key × List ℕ)
calls = (out, 1 ∷ 2 ∷ []) ∷ (setup, 9 ∷ []) ∷ (out, 3 ∷ 4 ∷ 5 ∷ []) ∷ []

run : Unit {0}
unfolding append tail clear clear_stream set_capacity push_all buffer_or_new lines_of lookup insert
    delete push to_array new_buffer
run = tt

tail_run :
    (tail out 10 (append_all calls start) ≡ 4 ∷ 5 ∷ [])
    × (tail out 1 (append_all calls start) ≡ 5 ∷ [])
    × (tail setup 10 (append_all calls start) ≡ 9 ∷ [])
unfolding run
tail_run = (refl, refl, refl)

cleared_run :
    (tail setup 10 (clear 7 (append_all calls start)) ≡ [])
    × (tail out 10 (clear_stream setup (append_all calls start)) ≡ 4 ∷ 5 ∷ [])
    × (tail out 10 (append_all calls (set_capacity 4 start)) ≡ 2 ∷ 3 ∷ 4 ∷ 5 ∷ [])
unfolding run
cleared_run = (refl, refl, refl)

tail-append_all_example : tail out 9 (append_all calls start) ≡ last (min 9 2) (lines_to out calls)
tail-append_all_example = tail-append_all calls 2 9 out (omega arith)
