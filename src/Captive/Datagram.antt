-- ===== src/Captive/Datagram.antt =====
-- components/ot_captive/ot_captive_dns.c. A buffer and its length are a list of bytes, a pointer
-- into it is the rest of the list, and a reply of length 0 is the empty list. No pointer is NULL.
use opentherm_thermostat_fir.Prelude.{
  ℕ, zero, suc, ◌+◌, ◌*◌, Bool, not, ◌&&◌, ◌||◌, ltb, ◌==◌, length, get_or, take, drop, List, [],
  ◌∷◌, ◌++◌, if◌then◌else◌,
}
use opentherm_thermostat_fir.Prelude.Bits.{bit_and, bit_or}

abbrev pub header_len : ℕ
header_len = 12

abbrev pub max_name : ℕ
max_name = 255

abbrev pub answer_len : ℕ
answer_len = 16

abbrev pub type_a : ℕ
type_a = 1

abbrev pub class_in : ℕ
class_in = 1

unfoldable pub be16 : List ℕ → ℕ
be16 p = get_or p 0 0 * 256 + get_or p 1 0

-- The loop over the labels of the name at `p`, on fuel: the place behind the name, or 0. `seen` is
-- what the C calls `at` and `name` is the length so far.
unfoldable pub name_end : ℕ → List ℕ → ℕ → ℕ → ℕ
name_end zero p seen name = 0
name_end (suc n) [] seen name = 0
name_end (suc n) (label ∷ p) seen name =
    let rest = name_end n (drop label p) (seen + 1 + label) (name + 1 + label) in
    if not (bit_and label 192 == 0)
    then 0
    else if ltb max_name (name + 1 + label)
    then 0
    else if label == 0
    then seen + 1
    else if ltb (length p) label
    then 0
    else rest

-- The length of the question at `p`, with its type and class where it is not 0.
unfoldable pub question_len : List ℕ → ℕ × ℕ × ℕ
question_len p =
    let behind = name_end (length p) p 0 0 in
    if behind == 0 || ltb (length p) (behind + 4)
    then (0, 0, 0)
    else (behind + 4, be16 (drop behind p), be16 (drop (behind + 2) p))

-- What the header of a query must say.
unfoldable pub is_query : List ℕ → Bool
is_query query =
    bit_and (get_or query 2 0) 128 == 0
    && (bit_and (get_or query 2 0) 120 == 0 && be16 (drop 4 query) == 1)

unfoldable pub header : List ℕ → Bool → List ℕ
header query answering =
    get_or query 0 0
    ∷ get_or query 1 0
    ∷ bit_or 132 (bit_and (get_or query 2 0) 1)
    ∷ 128
    ∷ 0
    ∷ 1
    ∷ 0
    ∷ (if answering then 1 else 0)
    ∷ 0
    ∷ 0
    ∷ 0
    ∷ 0
    ∷ []

unfoldable pub answer : List ℕ → List ℕ
answer address =
    192 ∷ header_len ∷ 0 ∷ type_a ∷ 0 ∷ class_in ∷ 0 ∷ 0 ∷ 0 ∷ 0 ∷ 0 ∷ 4 ∷ take 4 address

-- The reply to a question of `qlen` bytes.
unfoldable pub written : List ℕ → List ℕ → ℕ → ℕ → Bool → List ℕ
written query address out_cap qlen answering =
    if ltb out_cap (header_len + qlen + (if answering then answer_len else 0))
    then []
    else header query answering
      ++ take qlen (drop header_len query)
      ++ (if answering then answer address else [])

unfoldable pub reply : List ℕ → List ℕ → ℕ → List ℕ
reply query address out_cap =
    let (qlen, qtype, qclass) = question_len (drop header_len query) in
    if ltb (length query) header_len || not (is_query query)
    then []
    else if qlen == 0
    then []
    else written query address out_cap qlen (qtype == type_a && qclass == class_in)
