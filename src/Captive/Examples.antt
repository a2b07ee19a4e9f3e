-- ===== src/Captive/Examples.antt =====
-- A phone asks for the address of a.b.
use opentherm_thermostat_fir.Prelude.{
  ℕ, ◌+◌, ◌*◌, ◌%◌, ◌≤◌, ◌≡◌, ◌≢◌, ◌==◌, ◌&&◌, refl, arith, min, true, List, [], ◌∷◌, ◌++◌, drop,
  length, All, if◌then◌else◌,
}
use opentherm_thermostat_fir.Captive.Datagram.{
  header_len, max_name, answer_len, is_query, be16, reply, name_end,
}
use opentherm_thermostat_fir.Captive.Names.{IsByte, IsLabel, wire, IsName}
use opentherm_thermostat_fir.Captive.Replies.{
  reply_bounded, no_answer_to_an_answer, only_names_answered,
}
use opentherm_thermostat_fir.Captive.Lookups.{every_name_answered}

abbrev lookup : List ℕ
lookup = 18 ∷ 52 ∷ 1 ∷ 0 ∷ 0 ∷ 1 ∷ 0 ∷ 0 ∷ 0 ∷ 0 ∷ 0 ∷ 0 ∷ 1 ∷ 97 ∷ 1 ∷ 98 ∷ 0 ∷ 0 ∷ 1 ∷ 0 ∷ 1 ∷ []

abbrev home : List ℕ
home = 192 ∷ 168 ∷ 4 ∷ 1 ∷ []

abbrev labels : List (List ℕ)
labels = (97 ∷ []) ∷ (98 ∷ []) ∷ []

lookup_bytes : All IsByte lookup
lookup_bytes = ground arith

lookup-is_query : is_query lookup ≡ true
unfolding is_query be16
lookup-is_query = refl

lookup_question : drop header_len lookup ≡ wire labels ++ (0 ∷ 1 ∷ 0 ∷ 1 ∷ [])
unfolding wire
lookup_question = refl

lookup_labels : All IsLabel labels
lookup_labels = ground arith

lookup_short : length (wire labels) ≤ max_name
unfolding wire
lookup_short = omega arith

lookup_room : header_len + (length (wire labels) + 4) + answer_len ≤ 512
unfolding wire
lookup_room = omega arith

reply_bounded_example : length (reply lookup home 512) ≤ min 512 287
reply_bounded_example = reply_bounded lookup home 512 lookup_bytes

no_answer_to_an_answer_example : reply (reply lookup home 512) home 512 ≡ []
no_answer_to_an_answer_example = no_answer_to_an_answer lookup home home 512 512

every_name_answered_example :
    let answering = 0 * 256 + 1 == 1 && 0 * 256 + 1 == 1 in
    reply lookup home 512
    ≡ (18
        ∷ 52
        ∷ (132 + 1 % 2)
        ∷ 128
        ∷ 0
        ∷ 1
        ∷ 0
        ∷ (if answering then 1 else 0)
        ∷ 0
        ∷ 0
        ∷ 0
        ∷ 0
        ∷ [])
      ++ (wire labels ++ (0 ∷ 1 ∷ 0 ∷ 1 ∷ []))
      ++ (if answering
          then 192 ∷ 12 ∷ 0 ∷ 1 ∷ 0 ∷ 1 ∷ 0 ∷ 0 ∷ 0 ∷ 0 ∷ 0 ∷ 4 ∷ 192 ∷ 168 ∷ 4 ∷ 1 ∷ []
          else [])
every_name_answered_example =
    every_name_answered 18 52 1 (drop 3 lookup) 192 168 4 1 512 labels 0 1 0 1 [] (omega arith)
      lookup-is_query lookup_question lookup_labels lookup_short lookup_room

answered : reply lookup home 512 ≢ []
answered = ground (arith, every_name_answered_example)

only_names_answered_example :
    let p = drop header_len lookup in
    (is_query lookup ≡ true) × IsName p 0 0 (name_end (length p) p 0 0)
only_names_answered_example = only_names_answered lookup home 512 lookup_bytes answered
