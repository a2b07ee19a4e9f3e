-- ===== src/Captive/Lookups.antt =====
-- The lookups of the phones: which name is asked for does not matter.
use opentherm_thermostat_fir.Prelude.{
  ℕ, suc, ◌+◌, ◌*◌, ◌≤◌, ◌<◌, ◌≡◌, ◌∙◌, ap, arith, Bool, true, ◌&&◌, ◌==◌, length, take, drop, List,
  [], ◌∷◌, ◌++◌, All, if◌then◌else◌, ◌%◌, ◌⊎◌, inl, inr, refl,
}
use opentherm_thermostat_fir.Prelude.Bits.{bit_and, bit_or, and_mask}
use opentherm_thermostat_fir.Captive.Datagram.{
  header_len, max_name, answer_len, type_a, class_in, be16, name_end, question_len, is_query,
  header, answer, written, reply,
}
use opentherm_thermostat_fir.Captive.Names.{
  IsLabel, wire, name_end-wire, length-append, drop-append,
}

drop-past {ℓ} : {A : Type ℓ} (k : ℕ) (xs ys : List A) → drop (length xs + k) (xs ++ ys) ≡ drop k ys
drop-past k [] ys = ap (λ n. drop n ys) (omega arith)
drop-past k (x ∷ xs) ys =
    let again : suc (length xs) + k ≡ suc (length xs + k) = omega arith in
    ap (λ n. drop n (x ∷ (xs ++ ys))) again ∙ drop-past k xs ys

take-past {ℓ} :
    {A : Type ℓ} (k : ℕ) (xs ys : List A) → take (length xs + k) (xs ++ ys) ≡ xs ++ take k ys
take-past k [] ys = ap (λ n. take n ys) (omega arith)
take-past k (x ∷ xs) ys =
    let again : suc (length xs) + k ≡ suc (length xs + k) = omega arith in
    ap (λ n. take n (x ∷ (xs ++ ys))) again ∙ ap (λ r. x ∷ r) (take-past k xs ys)

wire-nonempty : (ls : List (List ℕ)) → 0 < length (wire ls)
unfolding wire
wire-nonempty [] = omega arith
wire-nonempty (l ∷ ls) = omega arith

-- The rest of the question's reading, once the end of the name is known.
question_at :
    (p : List ℕ) (behind qtype qclass : ℕ)
    → name_end (length p) p 0 0 ≡ behind
    → 0 < behind
    → behind + 4 ≤ length p
    → be16 (drop behind p) ≡ qtype
    → be16 (drop (behind + 2) p) ≡ qclass
    → question_len p ≡ (behind + 4, qtype, qclass)
unfolding question_len
question_at p behind qtype qclass e a b t c = rw (e, t, c, question_len) (ground (arith, a, b))

question_len-wire :
    (ls : List (List ℕ)) (a b c d : ℕ) (extra : List ℕ)
    → All IsLabel ls
    → length (wire ls) ≤ max_name
    → question_len (wire ls ++ (a ∷ b ∷ c ∷ d ∷ extra))
      ≡ (length (wire ls) + 4, a * 256 + b, c * 256 + d)
unfolding be16
question_len-wire ls a b c d extra v short =
    let w = wire ls in
    let behind = a ∷ b ∷ c ∷ d ∷ extra in
    let size = length-append w behind in
    question_at (w ++ behind) (length w) (a * 256 + b) (c * 256 + d)
      (name_end-wire ls behind (length (w ++ behind)) 0 0 v (omega arith) (omega (arith, short))
        ∙ omega arith)
      (wire-nonempty ls) (omega (arith, size)) (ap be16 (drop-append w behind))
      (ap be16 (drop-past 2 w behind))

reply_at :
    (query address : List ℕ) (out_cap qlen qtype qclass : ℕ)
    → question_len (drop header_len query) ≡ (qlen, qtype, qclass)
    → header_len ≤ length query
    → is_query query ≡ true
    → 0 < qlen
    → reply query address out_cap
      ≡ written query address out_cap qlen (qtype == type_a && qclass == class_in)
unfolding reply
reply_at query address out_cap qlen qtype qclass e long ok some_bytes =
    rw (e, reply) (ground (arith, long, ok, some_bytes))

written_at :
    (query address : List ℕ) (out_cap qlen : ℕ) (answering : Bool)
    → header_len + qlen + answer_len ≤ out_cap
    → written query address out_cap qlen answering
      ≡ header query answering
        ++ take qlen (drop header_len query)
        ++ (if answering then answer address else [])
unfolding written
written_at query address out_cap qlen answering h = ground (arith, h)

-- The flags byte of the reply: QR and AA, and the RD bit of the query.
desired_bit : (flags : ℕ) → bit_or 132 (bit_and flags 1) ≡ 132 + flags % 2
desired_bit flags =
    let low : bit_and flags 1 ≡ flags % 2 = and_mask 1 flags in
    let small : (flags % 2 ≡ 0) ⊎ (flags % 2 ≡ 1) = ground arith in
    elim small [ inl e ↦ rw (low, e) refl | inr e ↦ rw (low, e) refl ]

header_bytes :
    (i0 i1 flags : ℕ) (body : List ℕ) (answering : Bool)
    → header (i0 ∷ i1 ∷ flags ∷ body) answering
      ≡ i0
        ∷ i1
        ∷ (132 + flags % 2)
        ∷ 128
        ∷ 0
        ∷ 1
        ∷ 0
        ∷ (if answering then 1 else 0)
        ∷ 0
        ∷ 0
        ∷ 0
        ∷ 0
        ∷ []
unfolding header
header_bytes i0 i1 flags body answering =
    ap (λ b. i0 ∷ i1 ∷ b ∷ 128 ∷ 0 ∷ 1 ∷ 0 ∷ (if answering then 1 else 0) ∷ 0 ∷ 0 ∷ 0 ∷ 0 ∷ [])
      (desired_bit flags)

-- Every name is ours: a query whose question is a well-formed name of up to 255 bytes, with any
-- type and class and anything behind it, is answered where the buffer has the room. The
-- reply carries the two id bytes of the query in their order, the flags of an authoritative answer
-- without error with the query's own RD bit, one question, the question as it came, byte for byte,
-- and for the address of a host (type A, class IN) one record: a pointer to the name, type A, class
-- IN, no time to live and the four bytes of the device's own address; for any other type no record.
pub every_name_answered :
    (i0 i1 flags : ℕ) (body : List ℕ) (a0 a1 a2 a3 out_cap : ℕ) (ls : List (List ℕ)) (a b c d : ℕ)
    (extra : List ℕ)
    → header_len ≤ length (i0 ∷ i1 ∷ flags ∷ body)
    → is_query (i0 ∷ i1 ∷ flags ∷ body) ≡ true
    → drop header_len (i0 ∷ i1 ∷ flags ∷ body) ≡ wire ls ++ (a ∷ b ∷ c ∷ d ∷ extra)
    → All IsLabel ls
    → length (wire ls) ≤ max_name
    → header_len + (length (wire ls) + 4) + answer_len ≤ out_cap
    → let answering = a * 256 + b == 1 && c * 256 + d == 1 in
      reply (i0 ∷ i1 ∷ flags ∷ body) (a0 ∷ a1 ∷ a2 ∷ a3 ∷ []) out_cap
      ≡ (i0
          ∷ i1
          ∷ (132 + flags % 2)
          ∷ 128
          ∷ 0
          ∷ 1
          ∷ 0
          ∷ (if answering then 1 else 0)
          ∷ 0
          ∷ 0
          ∷ 0
          ∷ 0
          ∷ [])
        ++ (wire ls ++ (a ∷ b ∷ c ∷ d ∷ []))
        ++ (if answering
            then 192 ∷ 12 ∷ 0 ∷ 1 ∷ 0 ∷ 1 ∷ 0 ∷ 0 ∷ 0 ∷ 0 ∷ 0 ∷ 4 ∷ a0 ∷ a1 ∷ a2 ∷ a3 ∷ []
            else [])
unfolding answer
every_name_answered i0 i1 flags body a0 a1 a2 a3 out_cap ls a b c d extra long ok question v short
      room =
    let query = i0 ∷ i1 ∷ flags ∷ body in
    let address = a0 ∷ a1 ∷ a2 ∷ a3 ∷ [] in
    let q = ap question_len question ∙ question_len-wire ls a b c d extra v short in
    let n = length (wire ls) + 4 in
    let answering = a * 256 + b == type_a && c * 256 + d == class_in in
    let tail = if answering then answer address else [] in
    let echoed : take n (drop header_len query) ≡ wire ls ++ (a ∷ b ∷ c ∷ d ∷ []) =
      ap (take n) question ∙ take-past 4 (wire ls) (a ∷ b ∷ c ∷ d ∷ extra) in
    reply_at query address out_cap n (a * 256 + b) (c * 256 + d) q long ok (omega arith)
    ∙ written_at query address out_cap n answering room
    ∙ ap (λ middle. header query answering ++ middle ++ tail) echoed
    ∙ ap (λ head. head ++ (wire ls ++ (a ∷ b ∷ c ∷ d ∷ [])) ++ tail)
        (header_bytes i0 i1 flags body answering)
