-- ===== src/Captive/Names.antt =====
-- Which names a question may carry: RFC 1035 against the loop that reads them.
use opentherm_thermostat_fir.Prelude.{
  ℕ, zero, suc, ◌+◌, ◌*◌, ◌/◌, ◌%◌, ◌≤◌, ◌<◌, ◌≡◌, ◌≢◌, ◌∙◌, refl, sym, ap, ap₂, ◌⊎◌, inl, inr,
  arith, length, take, drop, List, [], ◌∷◌, ◌++◌, All,
}
use opentherm_thermostat_fir.Prelude.Bits.{bit_and, bit_and_step, and_mask}
use opentherm_thermostat_fir.Captive.Datagram.{max_name, name_end}

abbrev pub IsByte : ℕ → Type 0
IsByte b = b < 256

abbrev pub IsLabel : List ℕ → Type 0
IsLabel l = (0 < length l) × (length l < 64)

-- The labels with their lengths before them, and the empty one behind them.
unfoldable pub wire : List (List ℕ) → List ℕ
wire [] = 0 ∷ []
wire (l ∷ ls) = length l ∷ (l ++ wire ls)

-- The two top bits of a byte.
top_bits : (a : ℕ) → bit_and a 192 ≡ a / 64 % 4 * 64
top_bits a = omega (
  arith,
  bit_and_step a 192,
  bit_and_step (a / 2) 96,
  bit_and_step (a / 2 / 2) 48,
  bit_and_step (a / 2 / 2 / 2) 24,
  bit_and_step (a / 2 / 2 / 2 / 2) 12,
  bit_and_step (a / 2 / 2 / 2 / 2 / 2) 6,
  and_mask 2 (a / 2 / 2 / 2 / 2 / 2 / 2),
)

pub length-append {ℓ} : {A : Type ℓ} (xs ys : List A) → length (xs ++ ys) ≡ length xs + length ys
length-append [] ys = omega arith
length-append (x ∷ xs) ys = omega (arith, length-append xs ys)

pub drop-append {ℓ} : {A : Type ℓ} (xs ys : List A) → drop (length xs) (xs ++ ys) ≡ ys
drop-append [] ys = refl
drop-append (x ∷ xs) ys = drop-append xs ys

pub take-append {ℓ} : {A : Type ℓ} (xs ys : List A) → take (length xs) (xs ++ ys) ≡ xs
take-append [] ys = refl
take-append (x ∷ xs) ys = ap (λ r. x ∷ r) (take-append xs ys)

take-drop {ℓ} :
    {A : Type ℓ} (n : ℕ) (xs : List A)
    → n ≤ length xs
    → (take n xs ++ drop n xs ≡ xs) × (length (take n xs) ≡ n)
take-drop zero xs h = (refl, refl)
take-drop (suc n) [] h = absurd (omega (arith, h))
take-drop (suc n) (x ∷ xs) h =
    let rest = take-drop n xs (omega (arith, h)) in (ap (λ r. x ∷ r) rest.0, ap suc rest.1)

pub append_assoc {ℓ} : {A : Type ℓ} (xs ys zs : List A) → (xs ++ ys) ++ zs ≡ xs ++ (ys ++ zs)
append_assoc [] ys zs = refl
append_assoc (x ∷ xs) ys zs = ap (λ r. x ∷ r) (append_assoc xs ys zs)

behind_label :
    (l : List ℕ) (ls : List (List ℕ)) (tail : List ℕ)
    → drop (length l) ((l ++ wire ls) ++ tail) ≡ wire ls ++ tail
behind_label l ls tail =
    ap (drop (length l)) (append_assoc l (wire ls) tail) ∙ drop-append l (wire ls ++ tail)

-- A well-formed name is read to its end.
pub name_end-wire :
    (ls : List (List ℕ)) (tail : List ℕ) (n seen name : ℕ)
    → All IsLabel ls
    → length (wire ls ++ tail) ≤ n
    → name + length (wire ls) ≤ max_name
    → name_end n (wire ls ++ tail) seen name ≡ seen + length (wire ls)
unfolding name_end wire
name_end-wire [] tail zero seen name v h g = absurd (omega (arith, h))
name_end-wire [] tail (suc n) seen name v h g = ground (arith, g, top_bits 0)
name_end-wire (l ∷ ls) tail zero seen name v h g = absurd (omega (arith, h))
name_end-wire (l ∷ ls) tail (suc n) seen name v h g =
    let whole : length ((l ++ wire ls) ++ tail) ≡ length l + length (wire ls ++ tail) =
      ap length (append_assoc l (wire ls) tail) ∙ length-append l (wire ls ++ tail) in
    let own = length-append l (wire ls) in
    let rest : name_end n (drop (length l) ((l ++ wire ls) ++ tail)) (seen + 1 + length l)
          (name + 1 + length l)
        ≡ seen + 1 + length l + length (wire ls) =
      rw (behind_label l ls tail) (
        name_end-wire ls tail n (seen + 1 + length l) (name + 1 + length l) v.1
          (omega (arith, h, whole)) (omega (arith, g, own))) in
    ground (arith, v.0, g, whole, own, rest, top_bits (length l))

-- What the loop accepts is such a name.
pub record IsName (p : List ℕ) (seen name behind : ℕ) : Type 0 where
  pub labels : List (List ℕ)
  pub tail : List ℕ
  pub valid : All IsLabel labels
  pub spells : p ≡ wire labels ++ tail
  pub ends : behind ≡ seen + length (wire labels)
  pub short : name + length (wire labels) ≤ max_name

root-IsName :
    (p : List ℕ) (seen name : ℕ) → name + 1 ≤ max_name → IsName (0 ∷ p) seen name (seen + 1)
unfolding wire
root-IsName p seen name h = record {
  labels = [];
  tail = p;
  valid = tt;
  spells = refl;
  ends = refl;
  short = h;
}

longer-IsName :
    (label : ℕ) (p : List ℕ) (seen name behind : ℕ)
    → 0 < label
    → label < 64
    → label ≤ length p
    → IsName (drop label p) (seen + 1 + label) (name + 1 + label) behind
    → IsName (label ∷ p) seen name behind
unfolding wire
longer-IsName label p seen name behind a b c v =
    let cut = take-drop label p c in
    let own = length-append (take label p) (wire v.labels) in
    record {
      labels = take label p ∷ v.labels;
      tail = v.tail;
      valid = ((omega (arith, a, cut.1), omega (arith, b, cut.1)), v.valid);
      spells =
          ap₂ (λ (a : ℕ) (r : List ℕ). a ∷ r) (sym cut.1)
            (sym cut.0
              ∙ ap (λ r. take label p ++ r) v.spells
              ∙ sym (append_assoc (take label p) (wire v.labels) v.tail));
      ends = omega (arith, v.ends, own, cut.1);
      short = omega (arith, v.short, own, cut.1);
    }

pub drop-All : (n : ℕ) (p : List ℕ) → All IsByte p → All IsByte (drop n p)
drop-All zero p b = b
drop-All (suc n) [] b = b
drop-All (suc n) (x ∷ p) b = drop-All n p b.1

one_label :
    (n label : ℕ) (p : List ℕ) (seen name behind : ℕ)
    → IsByte label
    → name_end (suc n) (label ∷ p) seen name ≡ behind
    → behind ≢ 0
    → ((label ≡ 0) × (name + 1 ≤ max_name) × (behind ≡ seen + 1))
      ⊎ ((0 < label)
          × (label < 64)
          × (label ≤ length p)
          × (name_end n (drop label p) (seen + 1 + label) (name + 1 + label) ≡ behind))
unfolding name_end
one_label n label p seen name behind b e z = ground (arith, b, e, z, top_bits label)

pub name_end-IsName :
    (n : ℕ) (p : List ℕ) (seen name behind : ℕ)
    → All IsByte p
    → name_end n p seen name ≡ behind
    → behind ≢ 0
    → IsName p seen name behind
unfolding name_end
name_end-IsName zero p seen name behind b e z = absurd (z (sym e))
name_end-IsName (suc n) [] seen name behind b e z = absurd (z (sym e))
name_end-IsName (suc n) (label ∷ p) seen name behind b e z =
    elim (one_label n label p seen name behind b.0 e z) [
      | inl (nothing, room, at) ↦ rw (nothing, at) (root-IsName p seen name room)
      | inr (positive, top, room, rest) ↦ longer-IsName label p seen name behind positive top room (
          name_end-IsName n (drop label p) (seen + 1 + label) (name + 1 + label) behind
            (drop-All label p b.1) rest z)
    ]
