-- ===== src/ProducerConsumer/Threads.antt =====
-- The producer and the consumer of Assignment4/ProCon.c, a step at a time. The code between the
-- acquisition and the release of the lock is cut at the wait, so a state lies between two calls of
-- pthreads. A signal wakes the other thread if it sleeps on the condition variable; a thread that
-- was woken takes the lock again before it tests.
use cs232_operating_systems.Common.{ℕ, zero, suc, ◌+◌, ◌≡◌, Bool, true, false, List, [], ◌∷◌, ◌++◌}
use cs232_operating_systems.Common.Int.{ℤ, pos, negsuc}
use cs232_operating_systems.ProducerConsumer.{Prodcons, init, is_full, is_empty, store, fetch, over}

-- Where `producer` stands, with the items that it has still to put. `calling []` is its end.
pub data Producer : Type 0 where
  calling : List ℤ → Producer
  testing : ℤ → List ℤ → Producer  -- has the lock, at the `while` of `put`
  sleeping : ℤ → List ℤ → Producer  -- in `pthread_cond_wait`, on `notfull`
  woken : ℤ → List ℤ → Producer  -- still in `pthread_cond_wait`, waits for the lock
  leaving : List ℤ → Producer  -- has the lock, after the signal in `put`

-- Where `consumer` stands.
pub data Consumer : Type 0 where
  calling : Consumer
  testing : Consumer  -- has the lock, at the `while` of `get`
  sleeping : Consumer  -- in `pthread_cond_wait`, on `notempty`
  woken : Consumer
  leaving : ℤ → Consumer  -- has the lock, after the signal in `get`
  ended : Consumer

-- `received` is what `get` has returned, or is about to return.
pub record System : Type 0 where
  pub b : Prodcons
  pub locked : Bool
  pub producer : Producer
  pub consumer : Consumer
  pub received : List ℤ

abbrev pub wake_producer : Producer → Producer
wake_producer (sleeping item rest) = woken item rest
wake_producer p = p

abbrev pub wake_consumer : Consumer → Consumer
wake_consumer sleeping = woken
wake_consumer c = c

-- d == OVER
abbrev pub is_over : ℤ → Bool
is_over (pos _) = false
is_over (negsuc zero) = true
is_over (negsuc (suc _)) = false

abbrev pub after_get : ℤ → Consumer
after_get item = elim (is_over item) [ true ↦ ended | false ↦ calling ]

pub data Move (s : System) : System → Type 0 where
  put_lock :
      {item : ℤ} {rest : List ℤ}
      → s.producer ≡ calling (item ∷ rest)
      → s.locked ≡ false
      → Move s (record s { locked = true; producer = testing item rest })
  put_wait :
      {item : ℤ} {rest : List ℤ}
      → s.producer ≡ testing item rest
      → is_full s.b ≡ true
      → Move s (record s { locked = false; producer = sleeping item rest })
  put_store :
      {item : ℤ} {rest : List ℤ}
      → s.producer ≡ testing item rest
      → is_full s.b ≡ false
      → Move s (record s {
        b = store s.b item;
        producer = leaving rest;
        consumer = wake_consumer s.consumer;
      })
  put_unlock :
      {rest : List ℤ}
      → s.producer ≡ leaving rest
      → Move s (record s { locked = false; producer = calling rest })
  put_relock :
      {item : ℤ} {rest : List ℤ}
      → s.producer ≡ woken item rest
      → s.locked ≡ false
      → Move s (record s { locked = true; producer = testing item rest })
  get_lock :
      s.consumer ≡ calling
      → s.locked ≡ false
      → Move s (record s { locked = true; consumer = testing })
  get_wait :
      s.consumer ≡ testing
      → is_empty s.b ≡ true
      → Move s (record s { locked = false; consumer = sleeping })
  get_fetch :
      s.consumer ≡ testing
      → is_empty s.b ≡ false
      → Move s (record s {
        b = (fetch s.b).1;
        producer = wake_producer s.producer;
        consumer = leaving (fetch s.b).0;
        received = s.received ++ ((fetch s.b).0 ∷ []);
      })
  get_unlock :
      {item : ℤ}
      → s.consumer ≡ leaving item
      → Move s (record s { locked = false; consumer = after_get item })
  get_relock :
      s.consumer ≡ woken
      → s.locked ≡ false
      → Move s (record s { locked = true; consumer = testing })

-- `pthread_cond_wait` may also return with no signal.
pub data Step (s : System) : System → Type 0 where
  move : {t : System} → Move s t → Step s t
  spurious_put : Step s (record s { producer = wake_producer s.producer })
  spurious_get : Step s (record s { consumer = wake_consumer s.consumer })

-- `n`, `n + 1`, … as the loop of `producer` puts them, and OVER.
abbrev pub items_from : ℕ → ℕ → List ℤ
items_from zero n = over ∷ []
items_from (suc left) n = pos n ∷ items_from left (n + 1)

abbrev pub program : List ℤ
program = items_from 10 0

abbrev pub start : List ℤ → System
start input = record {
  b = init;
  locked = false;
  producer = calling input;
  consumer = calling;
  received = [];
}

pub data Reach (input : List ℤ) : System → Type 0 where
  here : Reach input (start input)
  next : {s t : System} → Reach input s → Step s t → Reach input t
