-- ===== src/ProducerConsumer/Safety.antt =====
-- What holds in every state that the two threads of Assignment4/ProCon.c can reach.
use cs232_operating_systems.Common.{
  ℕ, ◌+◌, ◌≡◌, ◌≤◌, refl, sym, ◌∙◌, ap, arith, Bool, true, false, ◌||◌, List, [], ◌∷◌, ◌++◌,
  append_assoc, ◌↔◌, length,
}
use cs232_operating_systems.Common.Int.{ℤ}
use cs232_operating_systems.ProducerConsumer.{is_full, is_empty, store, fetch}
use cs232_operating_systems.ProducerConsumer.Contents.{
  contents, IsValid, init-IsValid, store-IsValid, fetch-IsValid, contents-store, contents-fetch,
  count_bounds,
}
use cs232_operating_systems.ProducerConsumer.Threads.{
  Producer, Consumer, System, is_over, wake_producer, Move, Step, move, spurious_put, spurious_get,
  start, Reach, here, next, put_lock, put_wait, put_store, put_unlock, put_relock, get_lock,
  get_wait, get_fetch, get_unlock, get_relock,
}

-- The items that the producer has not stored.
abbrev pub pending : Producer → List ℤ
pending (Producer.calling l) = l
pending (Producer.testing item rest) = item ∷ rest
pending (Producer.sleeping item rest) = item ∷ rest
pending (Producer.woken item rest) = item ∷ rest
pending (Producer.leaving rest) = rest

-- Whether a thread has the lock, as a number.
abbrev pub producer_holds : Producer → ℕ
producer_holds (Producer.testing _ _) = 1
producer_holds (Producer.leaving _) = 1
producer_holds _ = 0

abbrev pub consumer_holds : Consumer → ℕ
consumer_holds Consumer.testing = 1
consumer_holds (Consumer.leaving _) = 1
consumer_holds _ = 0

abbrev pub producer_sleeps : Producer → Bool
producer_sleeps (Producer.sleeping _ _) = true
producer_sleeps _ = false

abbrev pub consumer_sleeps : Consumer → Bool
consumer_sleeps Consumer.sleeping = true
consumer_sleeps _ = false

-- The consumer has taken OVER.
abbrev pub saw_over : Consumer → Bool
saw_over (Consumer.leaving item) = is_over item
saw_over Consumer.ended = true
saw_over _ = false

abbrev pub has_over : List ℤ → Bool
has_over [] = false
has_over (item ∷ l) = is_over item || has_over l

abbrev flag : Bool → ℕ
flag true = 1
flag false = 0

pub record Inv (input : List ℤ) (s : System) : Type 0 where
  pub valid : IsValid s.b
  pub conserved : s.received ++ (contents s.b ++ pending s.producer) ≡ input
  pub lock : producer_holds s.producer + consumer_holds s.consumer ≡ flag s.locked
  pub put_sleep : producer_sleeps s.producer ≡ true → is_full s.b ≡ true
  pub get_sleep : consumer_sleeps s.consumer ≡ true → is_empty s.b ≡ true
  pub overs : has_over s.received ≡ saw_over s.consumer

has_over-append : (l : List ℤ) (item : ℤ) → has_over (l ++ (item ∷ [])) ≡ has_over l || is_over item
has_over-append [] item = ground arith
has_over-append (x ∷ l) item = ground (arith, has_over-append l item)

pending-wake : (p : Producer) → pending (wake_producer p) ≡ pending p
pending-wake (Producer.sleeping _ _) = refl
pending-wake _ = refl

pub Inv-start : (input : List ℤ) → Inv input (start input)
Inv-start input = record {
  valid = init-IsValid;
  conserved = refl;
  lock = refl;
  put_sleep = λ e. cc;
  get_sleep = λ e. cc;
  overs = refl;
}

module _ {input : List ℤ} {s : System} (inv : Inv input s) where
  open inv use {valid, conserved, lock, put_sleep, get_sleep, overs}

  stored :
      (item : ℤ) (rest : List ℤ)
      → s.producer ≡ Producer.testing item rest
      → is_full s.b ≡ false
      → s.received ++ (contents (store s.b item) ++ rest) ≡ input
  stored item rest e room =
      ap (λ l. s.received ++ l)
        (ap (λ l. l ++ rest) (contents-store item valid room)
          ∙ append_assoc (contents s.b) (item ∷ []) rest
          ∙ ap (λ p. contents s.b ++ pending p) (sym e))
      ∙ conserved

  fetched :
      is_empty s.b ≡ false
      → (s.received ++ ((fetch s.b).0 ∷ [])) ++ (contents (fetch s.b).1 ++ pending s.producer)
        ≡ input
  fetched e =
      append_assoc s.received ((fetch s.b).0 ∷ []) (contents (fetch s.b).1 ++ pending s.producer)
      ∙ ap (λ l. s.received ++ (l ++ pending s.producer)) (sym (contents-fetch valid e))
      ∙ conserved

  pub Move-Inv : {t : System} → Move s t → Inv input t
  Move-Inv (put_lock {item} {rest} e free) = record {
    valid = valid;
    conserved = rw e at conserved;
    lock = ground arith;
    put_sleep = λ h. cc;
    get_sleep = get_sleep;
    overs = overs;
  }
  Move-Inv (put_wait {item} {rest} e full) = record {
    valid = valid;
    conserved = rw e at conserved;
    lock = ground arith;
    put_sleep = λ h. full;
    get_sleep = get_sleep;
    overs = overs;
  }
  Move-Inv (put_store {item} {rest} e room) = record {
    valid = store-IsValid item valid;
    conserved = stored item rest e room;
    lock = ground arith;
    put_sleep = λ h. cc;
    get_sleep = λ h. ground arith;
    overs = ground arith;
  }
  Move-Inv (put_unlock {rest} e) = record {
    valid = valid;
    conserved = rw e at conserved;
    lock = ground arith;
    put_sleep = λ h. cc;
    get_sleep = get_sleep;
    overs = overs;
  }
  Move-Inv (put_relock {item} {rest} e free) = record {
    valid = valid;
    conserved = rw e at conserved;
    lock = ground arith;
    put_sleep = λ h. cc;
    get_sleep = get_sleep;
    overs = overs;
  }
  Move-Inv (get_lock e free) = record {
    valid = valid;
    conserved = conserved;
    lock = ground arith;
    put_sleep = put_sleep;
    get_sleep = λ h. cc;
    overs = ground arith;
  }
  Move-Inv (get_wait e empty) = record {
    valid = valid;
    conserved = conserved;
    lock = ground arith;
    put_sleep = put_sleep;
    get_sleep = λ h. empty;
    overs = ground arith;
  }
  Move-Inv (get_fetch e some_item) = record {
    valid = fetch-IsValid valid;
    conserved =
        ap (λ p. (s.received ++ ((fetch s.b).0 ∷ [])) ++ (contents (fetch s.b).1 ++ p))
          (pending-wake s.producer)
        ∙ fetched some_item;
    lock = ground arith;
    put_sleep = λ h. ground arith;
    get_sleep = λ h. cc;
    overs = ground (arith, has_over-append s.received (fetch s.b).0);
  }
  Move-Inv (get_unlock {item} e) = record {
    valid = valid;
    conserved = conserved;
    lock = ground arith;
    put_sleep = put_sleep;
    get_sleep = λ h. ground arith;
    overs = ground arith;
  }
  Move-Inv (get_relock e free) = record {
    valid = valid;
    conserved = conserved;
    lock = ground arith;
    put_sleep = put_sleep;
    get_sleep = λ h. cc;
    overs = ground arith;
  }

pub Step-Inv : {input : List ℤ} {s t : System} → Inv input s → Step s t → Inv input t
Step-Inv inv (move m) = Move-Inv inv m
Step-Inv {s = s} inv spurious_put = record {
  valid = inv.valid;
  conserved = ap (λ p. s.received ++ (contents s.b ++ p)) (pending-wake s.producer) ∙ inv.conserved;
  lock = ground (arith, inv.lock);
  put_sleep = λ h. ground arith;
  get_sleep = inv.get_sleep;
  overs = inv.overs;
}
Step-Inv inv spurious_get = record {
  valid = inv.valid;
  conserved = inv.conserved;
  lock = ground (arith, inv.lock);
  put_sleep = inv.put_sleep;
  get_sleep = λ h. ground arith;
  overs = ground (arith, inv.overs);
}

pub Reach-Inv : {input : List ℤ} {s : System} → Reach input s → Inv input s
Reach-Inv {input} here = Inv-start input
Reach-Inv (next r st) = Step-Inv (Reach-Inv r) st

-- In every reachable state at most one thread is between its `pthread_mutex_lock` and its
-- `pthread_mutex_unlock`, and the lock is free exactly if neither is.
pub mutual_exclusion :
    {input : List ℤ} {s : System}
    → Reach input s
    → (producer_holds s.producer + consumer_holds s.consumer ≤ 1)
      × ((s.locked ≡ false) ↔ (producer_holds s.producer + consumer_holds s.consumer ≡ 0))
mutual_exclusion {s = s} r = ground (arith, (Reach-Inv r).lock)

-- In every reachable state the items that the consumer has received, those in the buffer and those
-- that the producer has yet to put are, in this order, the producer's items: none is lost, none is
-- received twice, and none overtakes another. The buffer holds at most fifteen.
pub fifo_transfer :
    {input : List ℤ} {s : System}
    → Reach input s
    → (s.received ++ (contents s.b ++ pending s.producer) ≡ input) × (length (contents s.b) ≤ 15)
fifo_transfer r = ((Reach-Inv r).conserved, (count_bounds (Reach-Inv r).valid).0)
