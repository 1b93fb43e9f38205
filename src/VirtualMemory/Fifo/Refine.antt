-- ===== src/VirtualMemory/Fifo/Refine.antt =====
-- The handler of Assignment6/vm_assignment/main.c in mode `fifo` implements the queue.
use native.Mathlib.Nat.{mod-eq_of_lt, mod-add-mod, add-mod_left, add-mod_right, mod-eq-sub-mod}
use cs232_operating_systems.Common.{
  ℕ, zero, suc, ◌+◌, ◌-◌, ◌%◌, ◌≡◌, ◌≢◌, ◌≤◌, ◌<◌, refl, sym, ◌∙◌, ap, arith, [], ◌∷◌, ◌++◌, ◌⊎◌,
  length, get_or, length-append, get_or-append_left, get_or-append_last, inl, inr, lt-cases,
  eq-cases,
}
use cs232_operating_systems.VirtualMemory.PageTable.{PageTable}
use cs232_operating_systems.VirtualMemory.PageTable.Entries.{frame_of, bits_of}
use cs232_operating_systems.VirtualMemory.Replacement.{IsResident, IsValid, IsLoaded}
use cs232_operating_systems.VirtualMemory.Fifo.{Queue}

-- The frame of the page at place `d` of a queue of `len` pages, with the hand at `i`.
abbrev slot : ℕ → ℕ → ℕ → ℕ → ℕ
slot n i len d = (i + (n - len) + d) % n

-- The resident pages are those of the queue, and their frames follow the hand in its order.
pub record Represents (pt : PageTable) (i : ℕ) (q : Queue) : Type 0 where
  pub few : length q ≤ pt.nframes
  pub filling : length q < pt.nframes → i ≡ length q
  pub resident : (d : ℕ) → d < length q → IsResident pt (get_or q d 0)
  pub held : (d : ℕ) → d < length q → frame_of pt (get_or q d 0) ≡ slot pt.nframes i (length q) d
  pub complete : (j : ℕ) → IsResident pt j → (d : ℕ) × (d < length q) × (get_or q d 0 ≡ j)

add-mod_small : (n d : ℕ) → d < n → (n + d) % n ≡ d
add-mod_small n d h = add-mod_left n d ∙ mod-eq_of_lt h

slot-filling : (n len d : ℕ) → len < n → d ≤ len → slot n len len d ≡ d
slot-filling n len d h k = ap (λ x. x % n) (omega arith) ∙ add-mod_small n d (omega arith)

-- A full queue: the place after the hand is one step on.
slot-full : (n i d : ℕ) → slot n i n d ≡ (i + d) % n
slot-full n i d = ap (λ x. x % n) (omega arith)

next-slot : (n i d : ℕ) → ((i + 1) % n + d) % n ≡ (i + suc d) % n
next-slot n i d = mod-add-mod (i + 1) n d ∙ ap (λ x. x % n) (omega arith)

around-slot : (n i : ℕ) → i < n → (i + n) % n ≡ i
around-slot n i h = add-mod_right i n ∙ mod-eq_of_lt h

slot-ne : (n i d : ℕ) → i < n → suc d < n → (i + suc d) % n ≢ i
slot-ne n i d h k = elim (lt-cases (i + suc d) n) [
  | inl p ↦ omega (arith, mod-eq_of_lt p)
  | inr p ↦ omega (
    arith,
    mod-eq-sub-mod {n = i + suc d} {m = n} p,
    mod-eq_of_lt {n = i + suc d - n} {m = n} (omega arith),
  )
]

module _ {pt pt' : PageTable} {p i : ℕ} (l : IsLoaded p i pt pt') (fresh : bits_of pt p ≡ 0) where
  new : IsResident pt' p × (frame_of pt' p ≡ i)
  new = (ground (arith, l.bits_at p), ground (arith, l.frames p))

  kept :
      (j : ℕ)
      → IsResident pt j
      → frame_of pt j ≢ i
      → IsResident pt' j × (frame_of pt' j ≡ frame_of pt j)
  kept j r ne = (
    ground (arith, l.bits_at j),
    elim (eq-cases p j) [
      | inl e ↦ absurd (r (rw (← e) fresh))
      | inr other ↦ ground (arith, l.frames j)
    ],
  )

  back : (j : ℕ) → IsResident pt' j → (p ≡ j) ⊎ (IsResident pt j × (frame_of pt j ≢ i))
  back j r = elim (eq-cases p j) [
    | inl e ↦ inl e
    | inr other ↦ inr (ground (arith, l.bits_at j), ground (arith, l.bits_at j))
  ]

  -- While the queue has room, the hand is at a frame that no page has had.
  module _ {q : Queue} (r : Represents pt i q) (room : length q < pt.nframes) where
    at_end : i ≡ length q
    at_end = r.filling room

    old_frame : (d : ℕ) → d < length q → frame_of pt (get_or q d 0) ≡ d
    old_frame d h =
        r.held d h
        ∙ ap (λ x. slot pt.nframes x (length q) d) at_end
        ∙ slot-filling pt.nframes (length q) d room (omega arith)

    grown : length (q ++ (p ∷ [])) ≡ suc (length q)
    grown = omega (arith, length-append q (p ∷ []))

    next_hand : (suc (length q) < pt.nframes → (i + 1) % pt.nframes ≡ suc (length q))
    next_hand h = ap (λ x. x % pt.nframes) (omega (arith, at_end)) ∙ mod-eq_of_lt h

    new_slot :
        (d : ℕ) → d < suc (length q) → slot pt.nframes ((i + 1) % pt.nframes) (suc (length q)) d ≡ d
    new_slot d h = elim (lt-cases (suc (length q)) pt.nframes) [
      | inl more ↦
          rw (next_hand more) (slot-filling pt.nframes (suc (length q)) d more (omega arith))
      | inr last ↦
          let e : (i + 1) % pt.nframes ≡ 0 = grind (arith, at_end) in
          rw e (
            ap (λ x. x % pt.nframes) (omega arith)
            ∙ mod-eq_of_lt {n = d} {m = pt.nframes} (omega arith))
    ]

    grow-IsResident : (d : ℕ) → d < suc (length q) → IsResident pt' (get_or (q ++ (p ∷ [])) d 0)
    grow-IsResident d h = elim (lt-cases d (length q)) [
      | inl old ↦
          rw (get_or-append_left q (p ∷ []) d 0 old)
            (kept (get_or q d 0) (r.resident d old) (omega (arith, old_frame d old, at_end))).0
      | inr last ↦ rw (get_or-append_last q p d 0 (omega arith)) new.0
    ]

    grow-held : (d : ℕ) → d < suc (length q) → frame_of pt' (get_or (q ++ (p ∷ [])) d 0) ≡ d
    grow-held d h = elim (lt-cases d (length q)) [
      | inl old ↦ rw (get_or-append_left q (p ∷ []) d 0 old) (
          (kept (get_or q d 0) (r.resident d old) (omega (arith, old_frame d old, at_end))).1
          ∙ old_frame d old)
      | inr last ↦ rw (get_or-append_last q p d 0 (omega arith)) (new.1 ∙ omega (arith, at_end))
    ]

    grow_complete :
        (j : ℕ)
        → IsResident pt' j
        → (d : ℕ) × (d < suc (length q)) × (get_or (q ++ (p ∷ [])) d 0 ≡ j)
    grow_complete j rj = elim (back j rj) [
      | inl e ↦ (length q, omega arith, get_or-append_last q p (length q) 0 refl ∙ e)
      | inr old ↦
          let (d, h, e) = r.complete j old.0 in
          (d, omega arith, get_or-append_left q (p ∷ []) d 0 h ∙ e)
    ]

    pub grow : Represents pt' ((i + 1) % pt.nframes) (q ++ (p ∷ []))
    grow = record {
      few = omega (arith, grown, l.same_frames);
      filling = λ h. next_hand (omega (arith, grown, l.same_frames)) ∙ sym grown;
      resident = λ d h. grow-IsResident d (omega (arith, grown));
      held = λ d h.
          grow-held d (omega (arith, grown))
          ∙ rw (grown, l.same_frames) (sym (new_slot d (omega (arith, grown))));
      complete = λ j rj. rw grown (grow_complete j rj);
    }

  -- A full queue loses its first page, which has the frame at the hand.
  module _ (v : IsValid pt) (hi : i < pt.nframes) {x : ℕ} {q : Queue} (r : Represents pt i (x ∷ q))
      (full : suc (length q) ≡ pt.nframes) where
    shrunk : length (q ++ (p ∷ [])) ≡ suc (length q)
    shrunk = omega (arith, length-append q (p ∷ []))

    full_frame :
        (d : ℕ) → d < suc (length q) → frame_of pt (get_or (x ∷ q) d 0) ≡ (i + d) % pt.nframes
    full_frame d h = r.held d h ∙ rw full (slot-full pt.nframes i d)

    full_slot :
        (d : ℕ)
        → slot pt.nframes ((i + 1) % pt.nframes) (suc (length q)) d ≡ (i + suc d) % pt.nframes
    full_slot d = rw full (slot-full pt.nframes _ d) ∙ next-slot pt.nframes i d

    rest_kept :
        (d : ℕ)
        → d < length q
        → IsResident pt' (get_or q d 0) × (frame_of pt' (get_or q d 0) ≡ (i + suc d) % pt.nframes)
    rest_kept d h =
        let e = full_frame (suc d) (omega arith) in
        let k =
          kept (get_or q d 0) (r.resident (suc d) (omega arith))
            (λ same. slot-ne pt.nframes i d hi (omega arith) (sym e ∙ same)) in
        (k.0, k.1 ∙ e)

    turn-IsResident : (d : ℕ) → d < suc (length q) → IsResident pt' (get_or (q ++ (p ∷ [])) d 0)
    turn-IsResident d h = elim (lt-cases d (length q)) [
      | inl old ↦ rw (get_or-append_left q (p ∷ []) d 0 old) (rest_kept d old).0
      | inr last ↦ rw (get_or-append_last q p d 0 (omega arith)) new.0
    ]

    turn-held :
        (d : ℕ)
        → d < suc (length q)
        → frame_of pt' (get_or (q ++ (p ∷ [])) d 0) ≡ (i + suc d) % pt.nframes
    turn-held d h = elim (lt-cases d (length q)) [
      | inl old ↦ rw (get_or-append_left q (p ∷ []) d 0 old) (rest_kept d old).1
      | inr last ↦
          rw (get_or-append_last q p d 0 (omega arith)) (
            new.1
            ∙ sym (ap (λ k. (i + k) % pt.nframes) (omega arith) ∙ around-slot pt.nframes i hi))
    ]

    turn_complete :
        (j : ℕ)
        → IsResident pt' j
        → (d : ℕ) × (d < suc (length q)) × (get_or (q ++ (p ∷ [])) d 0 ≡ j)
    turn_complete j rj = elim (back j rj) [
      | inl e ↦ (length q, omega arith, get_or-append_last q p (length q) 0 refl ∙ e)
      | inr old ↦ shift (r.complete j old.0) old.1
    ]
      where
        shift :
            (d : ℕ) × (d < suc (length q)) × (get_or (x ∷ q) d 0 ≡ j)
            → frame_of pt j ≢ i
            → (d : ℕ) × (d < suc (length q)) × (get_or (q ++ (p ∷ [])) d 0 ≡ j)
        shift (zero, h, e) ne = absurd (
            ne (
              ap (frame_of pt) (sym e)
              ∙ full_frame zero h
              ∙ ap (λ k. k % pt.nframes) (omega arith)
              ∙ mod-eq_of_lt hi))
        shift (suc d, h, e) ne =
            (d, omega arith, get_or-append_left q (p ∷ []) d 0 (omega arith) ∙ e)

    pub turn : Represents pt' ((i + 1) % pt.nframes) (q ++ (p ∷ []))
    turn = record {
      few = omega (arith, shrunk, l.same_frames);
      filling = λ h. absurd (omega (arith, shrunk, l.same_frames));
      resident = λ d h. turn-IsResident d (omega (arith, shrunk));
      held = λ d h.
          turn-held d (omega (arith, shrunk)) ∙ rw (shrunk, l.same_frames) (sym (full_slot d));
      complete = λ j rj. rw shrunk (turn_complete j rj);
    }
