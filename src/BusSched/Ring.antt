-- ===== src/BusSched/Ring.antt =====
-- The polling ring: ot_bus_sched_disable() and the well-formedness of the scheduler.
use opentherm_thermostat_fir.Prelude.{
  ℕ, zero, suc, ◌+◌, ◌-◌, ◌≤◌, ◌<◌, ◌≡◌, ◌≢◌, List, [], ◌∷◌, arith, refl, ap, ◌==◌, if◌then◌else◌,
  length, drop, leb, lt→ltb, Bool-cases, inl, inr, ◌∙◌, ◌||◌, sym,
}
use opentherm_thermostat_fir.BusSched.{Sched, compact, disable}

-- The list without an identifier: what the ring should be after a Data-ID is disabled.
unfoldable pub remove : ℕ → List ℕ → List ℕ
remove a [] = []
remove a (p ∷ ps) = let rest = remove a ps in if p == a then rest else p ∷ rest

compact-kept : (a next i : ℕ) (ps : List ℕ) → (compact a next i ps).0 ≡ remove a ps
unfolding compact remove
compact-kept a next i [] = refl
compact-kept a next i (p ∷ ps) = ground (arith, compact-kept a next (i + 1) ps)

compact-right : (a next i : ℕ) (ps : List ℕ) → next ≤ i → (compact a next i ps).1 ≡ 0
unfolding compact
compact-right a next i [] h = refl
compact-right a next i (p ∷ ps) h = ground (arith, compact-right a next (i + 1) ps (omega arith))

compact-le : (a next i k : ℕ) (ps : List ℕ) → next ≡ i + k → (compact a next i ps).1 ≤ k
unfolding compact
compact-le a next i k [] e = omega arith
compact-le a next i zero (p ∷ ps) e = ground (arith, compact-right a next (i + 1) ps (omega arith))
compact-le a next i (suc k) (p ∷ ps) e =
    ground (arith, compact-le a next (i + 1) k ps (omega arith))

drop-suc {ℓ} :
    {A : Type ℓ} (n m : ℕ) (x : A) (xs : List A) → n ≡ suc m → drop n (x ∷ xs) ≡ drop m xs
drop-suc n m x xs e = rw e

index_drop : (k d : ℕ) → suc k - (d + 1) ≡ k - d
index_drop k d = omega arith

-- The entries from `next` on are kept from the corrected position on.
drop-compact :
    (a next i k : ℕ) (ps : List ℕ)
    → next ≡ i + k
    → k ≤ length ps
    → drop (k - (compact a next i ps).1) (remove a ps) ≡ remove a (drop k ps)
unfolding compact remove
drop-compact a next i zero ps e h = rw (compact-right a next i ps (omega arith))
drop-compact a next i (suc k) [] e h = absurd (omega arith)
drop-compact a next i (suc k) (p ∷ ps) e h =
    let d = (compact a next (i + 1) ps).1 in
    let ih = drop-compact a next (i + 1) k ps (omega arith) (omega arith) in
    let le = compact-le a next (i + 1) k ps (omega arith) in
    let left : i < next = omega arith in
    elim (Bool-cases (p == a)) [
      | inl same ↦
          rw (same, lt→ltb i next left) (ap (λ n. drop n (remove a ps)) (index_drop k d) ∙ ih)
      | inr other ↦ rw other (drop-suc (suc k - d) (k - d) p (remove a ps) (omega arith) ∙ ih)
    ]

length_of_drop-ne : (m : ℕ) (xs : List ℕ) → drop m xs ≢ [] → m < length xs
length_of_drop-ne zero [] h = absurd (h refl)
length_of_drop-ne zero (x ∷ xs) h = omega arith
length_of_drop-ne (suc m) [] h = absurd (h refl)
length_of_drop-ne (suc m) (x ∷ xs) h = omega (arith, length_of_drop-ne m xs h)

length_of_drop-nil : (m : ℕ) (xs : List ℕ) → drop m xs ≡ [] → length xs ≤ m
length_of_drop-nil zero [] h = omega arith
length_of_drop-nil zero (x ∷ xs) h = cc
length_of_drop-nil (suc m) [] h = omega arith
length_of_drop-nil (suc m) (x ∷ xs) h = omega (arith, length_of_drop-nil m xs h)

-- The correction of a position past the new end.
index_inside :
    (m : ℕ) (xs : List ℕ)
    → m < length xs
    → (if length xs == 0 || leb (length xs) m then 0 else m) ≡ m
index_inside m xs h = ground arith

index_outside :
    (m : ℕ) (xs : List ℕ)
    → length xs ≤ m
    → (if length xs == 0 || leb (length xs) m then 0 else m) ≡ 0
index_outside m xs h = ground arith

-- The disabled identifier is gone, the other entries keep their order, and none of those not yet
-- asked in this turn of the ring loses its place: the position stands before exactly them. Where
-- none is left of them the position is the start of the ring.
pub disable_keeps_turn :
    (s : Sched) (a : ℕ)
    → s.next ≤ length s.poll
    → let s' = disable s a in
      let ahead = remove a (drop s.next s.poll) in
      (s'.poll ≡ remove a s.poll)
      × (ahead ≢ [] → drop s'.next s'.poll ≡ ahead)
      × (ahead ≡ [] → s'.next ≡ 0)
unfolding disable
disable_keeps_turn s a h =
    let d = drop-compact a s.next 0 s.next s.poll (omega arith) h in
    let k = compact-kept a s.next 0 s.poll in
    let kept = (compact a s.next 0 s.poll).0 in
    let moved = s.next - (compact a s.next 0 s.poll).1 in
    let d' : drop moved kept ≡ remove a (drop s.next s.poll) = rw k d in
    (
      k,
      (λ some_left.
          let inside = length_of_drop-ne moved kept (λ e. some_left (sym d' ∙ e)) in
          rw (index_inside moved kept inside) (rw k d)),
      λ none_left. index_outside moved kept (length_of_drop-nil moved kept (d' ∙ none_left)),
    )
