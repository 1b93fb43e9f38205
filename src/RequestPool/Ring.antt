-- ===== src/RequestPool/Ring.antt =====
-- The ring of Assignment5/web_server/webserver_pool.c as a window on the list of all requests.
use mathlib.Core.Option.{none-ne-some, some-injective}
use cs232_operating_systems.Common.{
  ℕ, zero, suc, ◌+◌, ◌%◌, ◌≡◌, ◌≤◌, ◌<◌, refl, sym, ap, ◌∙◌, arith, List, [], ◌∷◌, ◌++◌, none, some,
  length, take, get_elem?, lt-cases, inl, inr,
}
use cs232_operating_systems.RequestPool.{Pool, alen}

-- Place `m % 10` of the ring holds request number `m`, from the first that is not taken to the last
-- that is accepted, and the other places are null.
pub record IsWindow (p : Pool) : Type 0 where
  pub w_at : p.w ≡ length p.accepted % alen
  pub r_at : p.r ≡ length p.taken % alen
  pub order : length p.taken ≤ length p.accepted
  pub room : length p.accepted ≤ length p.taken + alen
  pub held :
      (m : ℕ)
      → length p.taken ≤ m
      → m < length p.accepted
      → p.requests (m % alen) ≡ get_elem? p.accepted m
  pub free :
      (m : ℕ) → length p.accepted ≤ m → m < length p.taken + alen → p.requests (m % alen) ≡ none
  pub prefix : p.taken ≡ take (length p.taken) p.accepted

pub get_elem?_in :
    {A : Type 0} (xs : List A) (i : ℕ) → i < length xs → (x : A) × (get_elem? xs i ≡ some x)
get_elem?_in [] i h = absurd (omega arith)
get_elem?_in (x ∷ xs) zero h = (x, refl)
get_elem?_in (x ∷ xs) (suc i) h = get_elem?_in xs i (omega arith)

pub get_elem?-append_left :
    {A : Type 0} (xs ys : List A) (i : ℕ) → i < length xs → get_elem? (xs ++ ys) i ≡ get_elem? xs i
get_elem?-append_left [] ys i h = absurd (omega arith)
get_elem?-append_left (x ∷ xs) ys zero h = refl
get_elem?-append_left (x ∷ xs) ys (suc i) h = get_elem?-append_left xs ys i (omega arith)

pub get_elem?-append_last :
    {A : Type 0} (xs : List A) (x : A) → get_elem? (xs ++ (x ∷ [])) (length xs) ≡ some x
get_elem?-append_last [] x = refl
get_elem?-append_last (y ∷ ys) x = get_elem?-append_last ys x

pub take-append :
    {A : Type 0} (n : ℕ) (xs ys : List A) → n ≤ length xs → take n (xs ++ ys) ≡ take n xs
take-append zero xs ys h = refl
take-append (suc n) [] ys h = absurd (omega arith)
take-append (suc n) (x ∷ xs) ys h = ap (λ l. x ∷ l) (take-append n xs ys (omega arith))

pub take_one_more :
    {A : Type 0} (n : ℕ) (xs : List A) (x : A)
    → get_elem? xs n ≡ some x
    → take n xs ++ (x ∷ []) ≡ take (suc n) xs
take_one_more zero [] x e = absurd (none-ne-some x e)
take_one_more zero (y ∷ ys) x e = ap (λ z. z ∷ []) (sym (some-injective y x e))
take_one_more (suc n) [] x e = absurd (none-ne-some x e)
take_one_more (suc n) (y ∷ ys) x e = ap (λ l. y ∷ l) (take_one_more n ys x e)

module _ {p : Pool} (win : IsWindow p) where
  open win use {w_at, r_at, order, room, held, free, prefix}

  -- The ring has room exactly when the place at `w` is null.
  pub put_room : p.requests p.w ≡ none → length p.accepted < length p.taken + alen
  put_room e = elim (lt-cases (length p.accepted) (length p.taken + alen)) [
    | inl h ↦ h
    | inr h ↦
        let (x, there) = get_elem?_in p.accepted (length p.taken) (omega (arith, room)) in
        let same : p.w ≡ length p.taken % alen = omega (arith, w_at, room) in
        absurd (
          none-ne-some x (
            sym e
            ∙ ap p.requests same
            ∙ held (length p.taken) (omega arith) (omega (arith, room))
            ∙ there))
  ]

  pub full_ring : (y : ℕ) → p.requests p.w ≡ some y → length p.accepted ≡ length p.taken + alen
  full_ring y e = elim (lt-cases (length p.accepted) (length p.taken + alen)) [
    | inl h ↦
        absurd
          (none-ne-some y (sym (ap p.requests w_at ∙ free (length p.accepted) (omega arith) h) ∙ e))
    | inr h ↦ omega (arith, room)
  ]

  pub take_some :
      (x : ℕ)
      → p.requests p.r ≡ some x
      → (length p.taken < length p.accepted) × (get_elem? p.accepted (length p.taken) ≡ some x)
  take_some x e = elim (lt-cases (length p.taken) (length p.accepted)) [
    | inl h ↦ (h, sym (ap p.requests r_at ∙ held (length p.taken) (omega arith) h) ∙ e)
    | inr h ↦
        absurd
          (none-ne-some x (sym (ap p.requests r_at ∙ free (length p.taken) h (omega arith)) ∙ e))
  ]

  pub empty_ring : p.requests p.r ≡ none → length p.accepted ≡ length p.taken
  empty_ring e = elim (lt-cases (length p.taken) (length p.accepted)) [
    | inl h ↦
        let (x, there) = get_elem?_in p.accepted (length p.taken) h in
        absurd (
          none-ne-some x
            (sym e ∙ ap p.requests r_at ∙ held (length p.taken) (omega arith) h ∙ there))
    | inr h ↦ omega (arith, order)
  ]
