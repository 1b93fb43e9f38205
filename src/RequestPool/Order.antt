-- ===== src/RequestPool/Order.antt =====
-- The threads of Assignment5/web_server/webserver_pool.c take the requests in the order in which
-- they were accepted.
use cs232_operating_systems.Common.{
  ℕ, suc, ◌+◌, ◌%◌, ◌≡◌, ◌≢◌, ◌≤◌, ◌<◌, refl, sym, ap, ◌∙◌, arith, [], ◌∷◌, ◌++◌, none, some,
  assign, length, take, get_elem?, eq-cases, lt-cases, inl, inr, length-append,
}
use cs232_operating_systems.RequestPool.{
  Main, Worker, Pool, alen, Step, accept, put, put_wait, take_out, take_wait, handled,
  spurious_main, spurious_worker, Reach, begin, next,
}
use cs232_operating_systems.RequestPool.Ring.{
  IsWindow, put_room, take_some, get_elem?-append_left, get_elem?-append_last, take-append,
  take_one_more,
}

-- Two of ten numbers in a row have different places.
place-ne : (a m k : ℕ) → a ≤ m → m < a + alen → a ≤ k → k < a + alen → m ≢ k → m % alen ≢ k % alen
place-ne a m k h₁ h₂ h₃ h₄ ne e = omega arith

assign_self : {A : Type 0} (f : ℕ → A) (k : ℕ) (v : A) → assign f k v k ≡ v
assign_self f k v = ground arith

assign_ne : {A : Type 0} (f : ℕ → A) (k : ℕ) (v : A) (m : ℕ) → m ≢ k → assign f k v m ≡ f m
assign_ne f k v m h = ground arith

module _ {p : Pool} (win : IsWindow p) where
  open win use {w_at, r_at, order, room, held, free, prefix}

  put-IsWindow :
      (x : ℕ) (main' : Main) (worker' : ℕ → Worker)
      → p.requests p.w ≡ none
      → IsWindow (record p {
        requests = assign p.requests p.w (some x);
        w = (p.w + 1) % alen;
        main = main';
        worker = worker';
        accepted = p.accepted ++ (x ∷ []);
      })
  put-IsWindow x main' worker' e =
      let h = put_room win e in
      let longer = length-append p.accepted (x ∷ []) in
      record {
        w_at = omega (arith, w_at, longer);
        r_at = r_at;
        order = omega (arith, longer, order);
        room = omega (arith, longer);
        held = λ m lo hi. elim (eq-cases m (length p.accepted)) [
          | inl same ↦
              let place : m % alen ≡ p.w = ap (λ n. n % alen) same ∙ sym w_at in
              ap (assign p.requests p.w (some x)) place
              ∙ assign_self p.requests p.w (some x)
              ∙ sym (
                  ap (get_elem? (p.accepted ++ (x ∷ []))) same ∙ get_elem?-append_last p.accepted x)
          | inr ne ↦
              let other =
                place-ne (length p.taken) m (length p.accepted) lo (omega (arith, longer)) order h
                  ne in
              assign_ne p.requests p.w (some x) (m % alen) (λ z. other (z ∙ w_at))
              ∙ held m lo (omega (arith, longer))
              ∙ sym (get_elem?-append_left p.accepted (x ∷ []) m (omega (arith, longer)))
        ];
        free = λ m lo hi.
            let other =
              place-ne (length p.taken) m (length p.accepted) (omega (arith, longer, order)) hi
                order h (omega (arith, longer)) in
            assign_ne p.requests p.w (some x) (m % alen) (λ z. other (z ∙ w_at))
            ∙ free m (omega (arith, longer)) hi;
        prefix = prefix ∙ sym (take-append (length p.taken) p.accepted (x ∷ []) order);
      }

  take-IsWindow :
      (x : ℕ) (main' : Main) (worker' : ℕ → Worker)
      → p.requests p.r ≡ some x
      → IsWindow (record p {
        requests = assign p.requests p.r none;
        r = (p.r + 1) % alen;
        main = main';
        worker = worker';
        taken = p.taken ++ (x ∷ []);
      })
  take-IsWindow x main' worker' e =
      let (h, it) = take_some win x e in
      let longer = length-append p.taken (x ∷ []) in
      record {
        w_at = w_at;
        r_at = omega (arith, r_at, longer);
        order = omega (arith, longer);
        room = omega (arith, longer, room);
        held = λ m lo hi.
            let other =
              place-ne (length p.taken) m (length p.taken) (omega (arith, longer))
                (omega (arith, room)) (omega arith) (omega arith) (omega (arith, longer)) in
            assign_ne p.requests p.r none (m % alen) (λ z. other (z ∙ r_at))
            ∙ held m (omega (arith, longer)) hi;
        free = λ m lo hi. elim (lt-cases m (length p.taken + alen)) [
          | inl k ↦
              let other =
                place-ne (length p.taken) m (length p.taken) (omega (arith, order)) k (omega arith)
                  (omega arith) (omega arith) in
              assign_ne p.requests p.r none (m % alen) (λ z. other (z ∙ r_at)) ∙ free m lo k
          | inr k ↦
              let place : m % alen ≡ p.r = omega (arith, r_at, longer) in
              ap (assign p.requests p.r none) place ∙ assign_self p.requests p.r none
        ];
        prefix =
            ap (λ l. l ++ (x ∷ [])) prefix
            ∙ take_one_more (length p.taken) p.accepted x it
            ∙ ap (λ n. take n p.accepted) {x = suc (length p.taken)} (omega (arith, longer));
      }

-- The ring does not depend on where the threads stand.
threads-IsWindow :
    {p : Pool} {main' : Main} {worker' : ℕ → Worker}
    → IsWindow p
    → IsWindow (record p { main = main'; worker = worker' })
threads-IsWindow win = record {
  w_at = win.w_at;
  r_at = win.r_at;
  order = win.order;
  room = win.room;
  held = win.held;
  free = win.free;
  prefix = win.prefix;
}

pub Step-IsWindow : {n : ℕ} {p p' : Pool} → IsWindow p → Step n p p' → IsWindow p'
Step-IsWindow win (put x at e) = put-IsWindow win x _ _ e
Step-IsWindow win (take_out i x {main'} {worker'} hi at e sig) = take-IsWindow win x main' worker' e
Step-IsWindow win (accept x e) = threads-IsWindow win
Step-IsWindow win (put_wait x y at e) = threads-IsWindow win
Step-IsWindow win (take_wait i hi at e) = threads-IsWindow win
Step-IsWindow win (handled i x hi e) = threads-IsWindow win
Step-IsWindow win (spurious_main x e) = threads-IsWindow win
Step-IsWindow win (spurious_worker i hi e) = threads-IsWindow win

pub Reach-IsWindow : {n : ℕ} {p : Pool} → Reach n p → IsWindow p
Reach-IsWindow begin = record {
  w_at = refl;
  r_at = refl;
  order = omega arith;
  room = omega arith;
  held = λ m lo hi. absurd (omega arith);
  free = λ m lo hi. refl;
  prefix = refl;
}
Reach-IsWindow (next r m) = Step-IsWindow (Reach-IsWindow r) m

-- In every reachable state, with any number of workers: the requests that were taken out are the first
-- of those that were put in, in their order, so none is lost or taken twice; at most ten are in the
-- ring; and the next request to be taken, if any is in the ring, stands at `r`.
pub requests_in_order :
    {n : ℕ} {p : Pool}
    → Reach n p
    → (p.taken ≡ take (length p.taken) p.accepted)
      × (length p.accepted ≤ length p.taken + alen)
      × (length p.taken < length p.accepted
          → p.requests p.r ≡ get_elem? p.accepted (length p.taken))
requests_in_order {p = p} r =
    let win = Reach-IsWindow r in
    (win.prefix, win.room, λ h. ap p.requests win.r_at ∙ win.held (length p.taken) (omega arith) h)
