-- ===== src/ProducerConsumer.antt =====
-- Assignment4/ProCon.c: a circular buffer of integers, and the bodies of `put` and `get` between the
-- acquisition of the lock and its release.
pub mod Contents
pub mod Threads
pub mod Safety
pub mod Progress
mod Tests
use cs232_operating_systems.Common.{
  ℕ, ◌+◌, ◌%◌, ◌≡◌, Bool, List, ◌==◌, leb, if◌then◌else◌, get_or, set, replicate,
}
use cs232_operating_systems.Common.Int.{ℤ, pos, negsuc}

abbrev pub buffer_size : ℕ
buffer_size = 16

-- `struct prodcons` without its lock and its condition variables, which are in `Threads`.
pub record Prodcons : Type 0 where
  pub buffer : List ℤ
  pub readpos : ℕ
  pub writepos : ℕ

-- `buffer` is global, so its words start as 0.
abbrev pub init : Prodcons
init = record { buffer = replicate buffer_size (pos 0); readpos = 0; writepos = 0 }

unfoldable pub is_full : Prodcons → Bool
is_full b = (b.writepos + 1) % buffer_size == b.readpos

unfoldable pub is_empty : Prodcons → Bool
is_empty b = b.writepos == b.readpos

-- `x++; if (x >= BUFFER_SIZE) x = 0;`
abbrev pub advance : ℕ → ℕ
advance x = if leb buffer_size (x + 1) then 0 else x + 1

unfoldable pub store : Prodcons → ℤ → Prodcons
store b item = record b { buffer = set b.buffer b.writepos item; writepos = advance b.writepos }

unfoldable pub fetch : Prodcons → ℤ × Prodcons
fetch b = (get_or b.buffer b.readpos (pos 0), record b { readpos = advance b.readpos })

-- OVER
abbrev pub over : ℤ
over = negsuc 0
