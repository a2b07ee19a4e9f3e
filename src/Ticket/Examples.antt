-- ===== src/Ticket/Examples.antt =====
-- Runs of the ticket table.
use opentherm_thermostat_fir.Prelude.{ℕ, ◌≤◌, some, List, [], ◌∷◌, refl}
use opentherm_thermostat_fir.Ticket.{reset}
use opentherm_thermostat_fir.Ticket.Once.{
  TicketOp, issued, presented, accepted, handed_out, never_more_than_issued,
}

abbrev letters : List ℕ
letters =
    b'a' ∷ b'b' ∷ b'c' ∷ b'd' ∷ b'e' ∷ b'f' ∷ b'0' ∷ b'1' ∷ b'2' ∷ b'3' ∷ b'4' ∷ b'5' ∷ b'6' ∷ b'7'
    ∷ b'8' ∷ b'9' ∷ b'a' ∷ b'b' ∷ b'c' ∷ b'd' ∷ b'e' ∷ b'f' ∷ b'0' ∷ b'1' ∷ b'2' ∷ b'3' ∷ b'4'
    ∷ b'5' ∷ b'6' ∷ b'7' ∷ b'8' ∷ b'9' ∷ []

abbrev visits : List TicketOp
visits =
    issued (some letters) 1000 ∷ presented (some letters) 2000 ∷ presented (some letters) 3000 ∷ []

never_more_than_issued_example : accepted letters reset visits ≤ handed_out letters visits
never_more_than_issued_example = never_more_than_issued letters visits refl
