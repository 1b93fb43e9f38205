-- ===== src/ProducerConsumer/Contents.antt =====
-- The circular buffer of Assignment4/ProCon.c is a queue of at most `buffer_size - 1` integers.
use cs232_operating_systems.Common.{
  ℕ, zero, suc, ◌+◌, ◌-◌, ◌%◌, ◌≡◌, ◌≤◌, ◌<◌, refl, ap, ap₂, ◌∙◌, arith, true, false, List, [], ◌∷◌,
  ◌++◌, length, get_or, set, length-set, get_or-set_self, get_or-set_ne, ◌↔◌,
}
use cs232_operating_systems.Common.Int.{ℤ, pos}
use cs232_operating_systems.ProducerConsumer.{
  buffer_size, Prodcons, init, is_full, is_empty, advance, store, fetch,
}

-- `n` items from index `r` on, round the end of the buffer.
abbrev pub items : List ℤ → ℕ → ℕ → List ℤ
items buf r zero = []
items buf r (suc n) = get_or buf r (pos 0) ∷ items buf (advance r) n

abbrev pub count : Prodcons → ℕ
count b = (b.writepos + buffer_size - b.readpos) % buffer_size

abbrev pub contents : Prodcons → List ℤ
contents b = items b.buffer b.readpos (count b)

pub record IsValid (b : Prodcons) : Type 0 where
  pub sized : length b.buffer ≡ buffer_size
  pub reads : b.readpos < buffer_size
  pub writes : b.writepos < buffer_size

pub length-items : (buf : List ℤ) (r n : ℕ) → length (items buf r n) ≡ n
length-items buf r zero = refl
length-items buf r (suc n) = ap suc (length-items buf (advance r) n)

-- A write outside the window leaves it alone.
items-set :
    (buf : List ℤ) (w : ℕ) (item : ℤ) (r n : ℕ)
    → r < buffer_size
    → w < buffer_size
    → n ≤ (w + buffer_size - r) % buffer_size
    → items (set buf w item) r n ≡ items buf r n
items-set buf w item r zero hr hw h = refl
items-set buf w item r (suc n) hr hw h =
    ap₂ ◌∷◌ (get_or-set_ne buf w r item (pos 0) (omega arith))
      (items-set buf w item (advance r) n (ground arith) hw (ground arith))

-- A window that reaches up to `w` grows by the item at `w`.
items-snoc :
    (buf : List ℤ) (w r n : ℕ)
    → r < buffer_size
    → w < buffer_size
    → n ≡ (w + buffer_size - r) % buffer_size
    → items buf r (suc n) ≡ items buf r n ++ (get_or buf w (pos 0) ∷ [])
items-snoc buf w r zero hr hw e = ap (λ k. get_or buf k (pos 0) ∷ []) (omega arith)
items-snoc buf w r (suc n) hr hw e =
    ap (λ l. get_or buf r (pos 0) ∷ l)
      (items-snoc buf w (advance r) n (ground arith) hw (ground arith))

pub init-IsValid : IsValid init
init-IsValid = omega arith

pub store-IsValid : {b : Prodcons} (item : ℤ) → IsValid b → IsValid (store b item)
unfolding store
store-IsValid {b} item v = ground (arith, length-set b.buffer b.writepos item)

pub fetch-IsValid : {b : Prodcons} → IsValid b → IsValid (fetch b).1
unfolding fetch
fetch-IsValid v = ground arith

count-store :
    {b : Prodcons} (item : ℤ) → IsValid b → is_full b ≡ false → count (store b item) ≡ suc (count b)
unfolding store is_full
count-store item v room = ground arith

count-fetch : {b : Prodcons} → IsValid b → is_empty b ≡ false → count b ≡ suc (count (fetch b).1)
unfolding fetch is_empty
count-fetch v some_item = ground arith

-- A buffer that is not full takes an item at the end of its queue.
pub contents-store :
    {b : Prodcons} (item : ℤ)
    → IsValid b
    → is_full b ≡ false
    → contents (store b item) ≡ contents b ++ (item ∷ [])
unfolding store
contents-store {b} item v room =
    ap (items (set buffer writepos item) readpos) (count-store item v room)
    ∙ items-snoc (set buffer writepos item) writepos readpos (count b) v.reads v.writes refl
    ∙ ap₂ (λ l x. l ++ (x ∷ []))
        (items-set buffer writepos item readpos (count b) v.reads v.writes (omega arith))
        (get_or-set_self buffer writepos item (pos 0) (omega (arith, v.sized, v.writes)))
  where
    open b use {buffer, readpos, writepos}

-- A buffer that is not empty gives the first item of its queue.
pub contents-fetch :
    {b : Prodcons}
    → IsValid b
    → is_empty b ≡ false
    → let (item, b') = fetch b in contents b ≡ item ∷ contents b'
unfolding fetch
contents-fetch {b} v some_item = ap (items b.buffer b.readpos) (count-fetch v some_item)

pub contents-empty : {b : Prodcons} → IsValid b → is_empty b ≡ true → contents b ≡ []
unfolding is_empty
contents-empty {b} v e = let z : count b ≡ 0 = ground arith in ap (items b.buffer b.readpos) z

pub full-not-empty : {b : Prodcons} → IsValid b → is_full b ≡ true → is_empty b ≡ false
unfolding is_full is_empty
full-not-empty v f = ground arith

-- The queue never holds more than fifteen items, and it holds fifteen when `put` waits.
pub count_bounds :
    {b : Prodcons}
    → IsValid b
    → (length (contents b) ≤ 15) × ((is_full b ≡ true) ↔ (length (contents b) ≡ 15))
unfolding is_full
count_bounds {b} v =
    rw (length-items b.buffer b.readpos (count b))
      (omega arith, ((λ f. ground arith), λ e. ground arith))
