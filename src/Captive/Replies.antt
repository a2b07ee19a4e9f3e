-- ===== src/Captive/Replies.antt =====
-- What ot_captive_dns_reply() answers, and to whom.
use opentherm_thermostat_fir.Prelude.{
  ℕ, zero, suc, ◌+◌, ◌≤◌, ◌<◌, ◌≡◌, ◌≢◌, refl, ◌⊎◌, inl, inr, arith, min, Bool, true, false, ◌&&◌,
  ◌==◌, length, get_or, take, drop, List, [], ◌∷◌, All,
}
use opentherm_thermostat_fir.Prelude.Bits.{bit_and, bit_or, and_mask}
use opentherm_thermostat_fir.Captive.Datagram.{
  header_len, max_name, type_a, class_in, name_end, question_len, is_query, header, answer, written,
  reply,
}
use opentherm_thermostat_fir.Captive.Names.{
  IsByte, IsName, name_end-IsName, length-append, drop-All,
}

length-take {ℓ} : {A : Type ℓ} (n : ℕ) (xs : List A) → length (take n xs) ≤ n
length-take zero xs = omega arith
length-take (suc n) [] = omega arith
length-take (suc n) (x ∷ xs) = omega (arith, length-take n xs)

-- The length of an accepted question is bounded by that of a name.
question_len-bound : (p : List ℕ) → All IsByte p → (question_len p).0 ≤ max_name + 4
unfolding question_len
question_len-bound p b =
    let behind = name_end (length p) p 0 0 in
    let small : behind ≢ 0 → behind ≤ max_name = λ n.
      let v = name_end-IsName (length p) p 0 0 behind b refl n in omega (arith, v.ends, v.short) in
    ground (arith, small)

written-length :
    (query address : List ℕ) (out_cap qlen : ℕ) (answering : Bool)
    → qlen ≤ max_name + 4
    → length (written query address out_cap qlen answering) ≤ min out_cap 287
unfolding written header answer
written-length query address out_cap qlen true h = ground (
  arith,
  h,
  length-append (take qlen (drop header_len query)) (answer address),
  length-take qlen (drop header_len query),
  length-take 4 address,
)
written-length query address out_cap qlen false h = ground (
  arith,
  h,
  length-append {A = ℕ} (take qlen (drop header_len query)) [],
  length-take qlen (drop header_len query),
)

-- The reply fits the buffer, and no buffer of more than 287 bytes is ever needed.
pub reply_bounded :
    (query address : List ℕ) (out_cap : ℕ)
    → All IsByte query
    → length (reply query address out_cap) ≤ min out_cap 287
unfolding reply
reply_bounded query address out_cap b =
    let p = drop header_len query in
    let q = question_len p in
    ground (
      arith,
      written-length query address out_cap q.0 (q.1 == type_a && q.2 == class_in)
          (question_len-bound p (drop-All header_len query b)),
    )

-- The first bytes of what is written.
written_flags :
    (query address : List ℕ) (out_cap qlen : ℕ) (answering : Bool)
    → let out = written query address out_cap qlen answering in
      (out ≡ []) ⊎ (get_or out 2 0 ≡ bit_or 132 (bit_and (get_or query 2 0) 1))
unfolding written header
written_flags query address out_cap qlen answering = ground arith

flag_stands : (x : ℕ) → x < 2 → (bit_and (bit_or 132 x) 128 == 0) ≡ false
flag_stands zero h = refl
flag_stands (suc zero) h = refl
flag_stands (suc (suc x)) h = absurd (omega (arith, h))

silent_to :
    (query address : List ℕ) (out_cap : ℕ)
    → is_query query ≡ false
    → reply query address out_cap ≡ []
unfolding reply
silent_to query address out_cap h = ground (arith, h)

answer_is_no_query :
    (out : List ℕ) (x : ℕ) → x < 2 → get_or out 2 0 ≡ bit_or 132 x → is_query out ≡ false
unfolding is_query
answer_is_no_query out x h e = rw e (ground (arith, flag_stands x h))

replied_flags :
    (query address : List ℕ) (out_cap : ℕ)
    → let out = reply query address out_cap in
      (out ≡ []) ⊎ (get_or out 2 0 ≡ bit_or 132 (bit_and (get_or query 2 0) 1))
unfolding reply
replied_flags query address out_cap =
    let q = question_len (drop header_len query) in
    ground (arith, written_flags query address out_cap q.0 (q.1 == type_a && q.2 == class_in))

empty_is_short : (address : List ℕ) (out_cap : ℕ) → reply [] address out_cap ≡ []
unfolding reply
empty_is_short address out_cap = ground arith

-- No two responders can start trading packets: what one of them sends is never answered by
-- another, nor by itself, whatever the first query, the addresses and the buffers were.
pub no_answer_to_an_answer :
    (query address address' : List ℕ) (out_cap out_cap' : ℕ)
    → reply (reply query address out_cap) address' out_cap' ≡ []
no_answer_to_an_answer query address address' out_cap out_cap' =
    elim (replied_flags query address out_cap) [
      | inl silent ↦ rw silent (empty_is_short address' out_cap')
      | inr flags ↦ silent_to (reply query address out_cap) address' out_cap' (
          answer_is_no_query (reply query address out_cap) (bit_and (get_or query 2 0) 1)
            (omega (arith, and_mask 1 (get_or query 2 0))) flags)
    ]

question_len-named : (p : List ℕ) → (question_len p).0 ≢ 0 → name_end (length p) p 0 0 ≢ 0
unfolding question_len
question_len-named p n = ground (arith, n)

replied_to :
    (query address : List ℕ) (out_cap : ℕ)
    → reply query address out_cap ≢ []
    → (is_query query ≡ true) × ((question_len (drop header_len query)).0 ≢ 0)
unfolding reply
replied_to query address out_cap n = ground (arith, n)

-- Only a lookup is answered: where there is a reply, the datagram was a query with one question and
-- the bytes behind its header spell a name of labels of 1 to 63 bytes, 255 bytes long at most with
-- its end: no compression pointer, no label that runs off the datagram and no name without an end.
pub only_names_answered :
    (query address : List ℕ) (out_cap : ℕ)
    → All IsByte query
    → reply query address out_cap ≢ []
    → let p = drop header_len query in
      (is_query query ≡ true) × IsName p 0 0 (name_end (length p) p 0 0)
only_names_answered query address out_cap b n =
    let p = drop header_len query in
    let asked = replied_to query address out_cap n in
    (
      asked.0,
      name_end-IsName (length p) p 0 0 (name_end (length p) p 0 0) (drop-All header_len query b)
          refl (question_len-named p asked.1),
    )
