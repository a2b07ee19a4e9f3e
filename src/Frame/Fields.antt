-- ===== src/Frame/Fields.antt =====
-- What a word carries: ot_frame_encode() and ot_frame_decode() against each other and the layout.
use opentherm_thermostat_fir.Prelude.{
  ℕ, zero, suc, ◌+◌, ◌*◌, ◌/◌, ◌%◌, ◌^◌, ◌<◌, ◌≡◌, ◌≢◌, ◌∙◌, Bool, true, not, none, some, arith,
  refl, if◌then◌else◌, Bool-cases, inl, inr, ap, ◌==◌, ◌&&◌,
}
use opentherm_thermostat_fir.Prelude.Word.{u32}
use opentherm_thermostat_fir.Prelude.Bits.{
  bit_and, bit_or, bit_xor, and_mask, or_fields, fields_or, fields_xor,
}
use opentherm_thermostat_fir.Frame.{
  MsgType, Frame, read_data, write_data, invalid_data, reserved, read_ack, write_ack, data_invalid,
  unknown_dataid, code, msg_type, even_ones, assemble, encode, decode,
}
use opentherm_thermostat_fir.Prelude.Digits.{digit}
use opentherm_thermostat_fir.Frame.Parity.{ones, even_ones-xor}

-- The fields of a struct in C: a byte and sixteen bits.
pub record InRange (f : Frame) : Type 0 where
  pub id_byte : f.data_id < 256
  pub value_word : f.data_value < 65536

-- The word without its parity bit, as a sum.
abbrev pub bare : Frame → ℕ
bare f = code f.kind * 268435456 + f.data_id * 65536 + f.data_value

code-lt : (k : MsgType) → code k < 8
unfolding code
code-lt read_data = omega arith
code-lt write_data = omega arith
code-lt invalid_data = omega arith
code-lt reserved = omega arith
code-lt read_ack = omega arith
code-lt write_ack = omega arith
code-lt data_invalid = omega arith
code-lt unknown_dataid = omega arith

msg_type-code : (k : MsgType) → msg_type (code k) ≡ k
unfolding msg_type code
msg_type-code read_data = refl
msg_type-code write_data = refl
msg_type-code invalid_data = refl
msg_type-code reserved = refl
msg_type-code read_ack = refl
msg_type-code write_ack = refl
msg_type-code data_invalid = refl
msg_type-code unknown_dataid = refl

assemble-bare : (f : Frame) → InRange f → assemble f ≡ bare f
unfolding assemble
assemble-bare f r =
    let c = code-lt f.kind in
    let top : u32 (bit_and (code f.kind) 7 * 268435456) ≡ code f.kind * 268435456 =
      omega (arith, and_mask 3 (code f.kind), c) in
    let middle : u32 (f.data_id * 65536) ≡ f.data_id * 65536 = omega (arith, r.id_byte) in
    let value : bit_and f.data_value 65535 ≡ f.data_value =
      omega (arith, and_mask 16 f.data_value, r.value_word) in
    let upper : bit_or (code f.kind * 268435456) (f.data_id * 65536)
        ≡ (code f.kind * 4096 + f.data_id) * 65536 =
      or_fields 28 (code f.kind) (f.data_id * 65536) (omega (arith, r.id_byte)) ∙ omega arith in
    rw (top, middle, value, upper)
      (or_fields 16 (code f.kind * 4096 + f.data_id) f.data_value r.value_word ∙ omega arith)

-- The parity bit of a frame.
abbrev pub parity_bit : Frame → ℕ
parity_bit f = if even_ones (bare f) then 0 else 1

encode-layout : (f : Frame) → InRange f → encode f ≡ parity_bit f * 2147483648 + bare f
unfolding encode
encode-layout f r =
    let top : bare f < 2 ^ 31 = omega (arith, code-lt f.kind, r.id_byte, r.value_word) in
    rw (assemble-bare f r) (ground (arith, fields_or 31 1 (bare f) top))

-- What is sent passes the check of the receiver.
encode-even : (f : Frame) → InRange f → even_ones (encode f) ≡ true
unfolding ones digit
encode-even f r =
    let top : bare f < 2 ^ 31 = omega (arith, code-lt f.kind, r.id_byte, r.value_word) in
    let toggled : even_ones (bit_xor (bare f) 2147483648) ≡ not (even_ones (bare f)) =
      even_ones-xor (bare f) 2147483648 refl in
    let added : bit_xor (bare f) 2147483648 ≡ 2147483648 + bare f = fields_xor 31 1 (bare f) top in
    elim (Bool-cases (even_ones (bare f))) [
      | inl even ↦
          let plain : encode f ≡ bare f = ground (arith, encode-layout f r, even) in rw plain even
      | inr odd ↦
          rw (encode-layout f r, odd) (ap even_ones (omega (arith, added)) ∙ toggled ∙ ap not odd)
    ]

-- A frame that is assembled and parsed again is the same frame, whatever its type, for an
-- identifier of a byte and a value of sixteen bits.
pub decode-encode : (f : Frame) → InRange f → decode (encode f) ≡ some f
unfolding decode
decode-encode f r =
    let e = encode-layout f r in
    let c = code-lt f.kind in
    let kind' : bit_and (encode f / 268435456) 7 ≡ code f.kind =
      omega (arith, and_mask 3 (encode f / 268435456), e, c, r.id_byte, r.value_word) in
    let id' : bit_and (encode f / 65536) 255 ≡ f.data_id =
      omega (arith, and_mask 8 (encode f / 65536), e, c, r.id_byte, r.value_word) in
    let value' : bit_and (encode f) 65535 ≡ f.data_value =
      omega (arith, and_mask 16 (encode f), e, c, r.id_byte, r.value_word) in
    rw (encode-even f r, kind', id', value', msg_type-code f.kind) refl

-- A word of a frame is laid out as the protocol says: the parity bit on top, the type in the three
-- bits below it, four zeros, the identifier and the value; it has an even number of ones and fits
-- in 32 bits.
pub encode_fields :
    (f : Frame)
    → InRange f
    → (encode f < 4294967296)
      × (encode f / 268435456 % 8 ≡ code f.kind)
      × (encode f / 16777216 % 16 ≡ 0)
      × (encode f / 65536 % 256 ≡ f.data_id)
      × (encode f % 65536 ≡ f.data_value)
      × (even_ones (encode f) ≡ true)
encode_fields f r =
    let e = encode-layout f r in
    let c = code-lt f.kind in
    let p : parity_bit f < 2 = ground arith in
    (
      omega (arith, e, c, p, r.id_byte, r.value_word),
      omega (arith, e, c, p, r.id_byte, r.value_word),
      omega (arith, e, c, p, r.id_byte, r.value_word),
      omega (arith, e, c, p, r.id_byte, r.value_word),
      omega (arith, e, c, p, r.id_byte, r.value_word),
      encode-even f r,
    )

-- Every number below `n` passes.
all_below : ℕ → (ℕ → Bool) → Bool
all_below zero p = true
all_below (suc n) p = p n && all_below n p

all_below-at : (n : ℕ) (p : ℕ → Bool) (x : ℕ) → all_below n p ≡ true → x < n → p x ≡ true
unfolding all_below
all_below-at zero p x h lt = absurd (omega arith)
all_below-at (suc n) p x h lt = ground (arith, all_below-at n p x)

single : (i : ℕ) → i < 32 → (ones 32 0 (2 ^ i) % 2 == 1) ≡ true
unfolding ones digit all_below
single i h = all_below-at 32 (λ i. ones 32 0 (2 ^ i) % 2 == 1) i refl h

-- A word that is accepted is refused after any one of its 32 bits has been flipped on the wire.
pub flipped_bit_refused :
    (raw i : ℕ) → i < 32 → decode raw ≢ none → decode (bit_xor raw (2 ^ i)) ≡ none
unfolding decode
flipped_bit_refused raw i h taken =
    let odd : ones 32 0 (2 ^ i) % 2 ≡ 1 = ground (arith, single i h) in
    let turned = even_ones-xor raw (2 ^ i) odd in
    elim (Bool-cases (even_ones raw)) [
      | inl even ↦ rw (turned, even) refl
      | inr bad ↦ absurd (taken (rw bad refl))
    ]
