-- ===== src/SendCursor/Tests.antt =====
-- A write of a five-byte message in three parts, and the theorems at it.
use iocp_engine.Base.{◌≡◌, refl, true, some, [], ◌∷◌, ◌++◌, arith}
use iocp_engine.SendCursor.{
  SendCursor, new, total_size, remaining, complete, consume, header_remainder, payload_remainder,
}
use iocp_engine.SendCursor.Progress.{IsValid, unsent, transmit, transmit_lem, transmit_all}

abbrev two_and_three : SendCursor
two_and_three = record {
  header = 1 ∷ 2 ∷ 0 ∷ 0 ∷ 0 ∷ 0 ∷ 0 ∷ 0 ∷ 0 ∷ 0 ∷ 0 ∷ 0 ∷ 0 ∷ 0 ∷ 0 ∷ 0 ∷ [];
  header_size = 2;
  payload = some (7 ∷ 8 ∷ 9 ∷ []);
  sent = 0;
}

new-two_and_three : new (1 ∷ 2 ∷ []) (some (7 ∷ 8 ∷ 9 ∷ [])) ≡ some two_and_three
unfolding new
new-two_and_three = refl

past_the_header : unsent (consume two_and_three 3) ≡ 8 ∷ 9 ∷ []
unfolding consume remaining total_size header_remainder payload_remainder
past_the_header = refl

two_and_three-IsValid : IsValid two_and_three
two_and_three-IsValid = omega arith

transmit_lem_example :
    let (out, d) = transmit (1 ∷ 3 ∷ []) two_and_three in
    (out ++ unsent d ≡ 1 ∷ 2 ∷ 7 ∷ 8 ∷ 9 ∷ []) × IsValid d
unfolding header_remainder payload_remainder
transmit_lem_example = transmit_lem (1 ∷ 3 ∷ []) two_and_three two_and_three-IsValid

transmit_all_example :
    let (out, d) = transmit (1 ∷ 3 ∷ 1 ∷ []) two_and_three in
    (complete d ≡ true) × (out ≡ 1 ∷ 2 ∷ 7 ∷ 8 ∷ 9 ∷ [])
unfolding header_remainder payload_remainder
transmit_all_example =
    transmit_all (1 ∷ 3 ∷ 1 ∷ []) two_and_three two_and_three-IsValid (omega arith)
