-- ===== src/Console.antt =====
-- server/src/modules/instances/console.ts: the console history kept in memory, a ring buffer for
-- each instance and stream.
pub mod Ring
mod History
mod Tests
use gsm.Common.{
  ℕ, ◌-◌, ◌≡◌, ◌↔◌, Bool, true, false, ◌&&◌, Option, none, some, List, [], ◌∷◌, String, length,
  drop, Eq, ◌==◌, nat_eq, lookup, insert, delete, arith, if◌then◌else◌,
}
use gsm.Console.Ring.{RingBuffer, new_buffer, push, to_array}

pub data ConsoleStream : Type 0 where
  console install : ConsoleStream

abbrev stream_beq : ConsoleStream → ConsoleStream → Bool
stream_beq console console = true
stream_beq install install = true
stream_beq _ _ = false

-- The source's key `${instanceId}:${stream}`, as the pair that it spells.
pub record Key : Type 0 where
  pub instance_id : ℕ
  pub stream : ConsoleStream

abbrev pub key_beq : Key → Key → Bool
key_beq a b = a.instance_id == b.instance_id && stream_beq a.stream b.stream

pub key_beq_iff : (a b : Key) → (key_beq a b ≡ true) ↔ (a ≡ b)
key_beq_iff a b = ground arith

instance abbrev pub key_eq : Eq Key
key_eq = record { test = key_beq; test_iff = key_beq_iff }

module _ {ℓ} (Line : Type ℓ) where
  pub record ConsoleHistory : Type ℓ where
    pub buffers : List (Key × RingBuffer Line)
    pub capacity : ℕ

module _ {ℓ} {Line : Type ℓ} where
  pub set_capacity : ℕ → ConsoleHistory Line → ConsoleHistory Line
  set_capacity n h = record h { capacity = n }

  push_all : List Line → RingBuffer Line → RingBuffer Line
  push_all [] buf = buf
  push_all (l ∷ lines) buf = push_all lines (push l buf)

  buffer_or_new : ℕ → Option (RingBuffer Line) → RingBuffer Line
  buffer_or_new capacity none = new_buffer capacity
  buffer_or_new capacity (some buf) = buf

  pub append : Key → List Line → ConsoleHistory Line → ConsoleHistory Line
  unfolding push_all buffer_or_new
  append key lines h = record h {
    buffers =
        insert key (push_all lines (buffer_or_new h.capacity (lookup key h.buffers))) h.buffers;
  }

  lines_of : Option (RingBuffer Line) → List Line
  lines_of none = []
  lines_of (some buf) = to_array buf

  pub tail : Key → ℕ → ConsoleHistory Line → List Line
  unfolding lines_of
  tail key lines h = let all = lines_of (lookup key h.buffers) in drop (length all - lines) all

  -- `clear` with a stream, and without one.
  pub clear_stream : Key → ConsoleHistory Line → ConsoleHistory Line
  clear_stream key h = record h { buffers = delete key h.buffers }

  pub clear : ℕ → ConsoleHistory Line → ConsoleHistory Line
  clear id h = record h {
    buffers =
        delete (record { instance_id = id; stream = install })
          (delete (record { instance_id = id; stream = console }) h.buffers);
  }
