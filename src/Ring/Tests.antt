-- ===== src/Ring/Tests.antt =====
-- The ring buffer at concrete states.
use nre.Base.{ℕ, ◌+◌, ◌<◌, ◌≡◌, refl, arith, true, false, List, [], ◌∷◌, ◌++◌, length, update}
use nre.Ring.{Ring, next_pos, current, publish, write, produce, reset}
use nre.Ring.Fifo.{Holds, IsSize, produce_refines}
use nre.Ring.Interleaved.{
  Both, writes, publishes, Steps, here, go_on, start, Delivers, Steps-Delivers,
}

abbrev empty : Ring ℕ
empty = record { rpos = 7; wpos = 9; buffer = λ i. 0 }

-- Items 5 and 6 from position 3 on; the second one stands at position 0.
abbrev wrapped : Ring ℕ
wrapped = record { rpos = 3; wpos = 1; buffer = update (update (λ i. 0) 3 5) 0 6 }

abbrev items : List ℕ
items = 5 ∷ 6 ∷ []

wrapped-Holds : Holds 4 wrapped items
wrapped-Holds = record {
  reads = omega arith;
  room = omega arith;
  stands = refl;
  cells = (refl, (refl, tt));
}

four-IsSize : IsSize 2 4
four-IsSize = record { power = refl; word = omega arith }

produce_runs : produce 4 wrapped 8 ≡ (true, publish 4 (write wrapped 1 8))
unfolding produce current next_pos
produce_runs = refl

produce_refines_example :
    (length items + 1 ≡ 4 → produce 4 wrapped 8 ≡ (false, wrapped))
    × (length items + 1 < 4
        → ((produce 4 wrapped 8).0 ≡ true) × Holds 4 (produce 4 wrapped 8).1 (5 ∷ 6 ∷ 8 ∷ []))
produce_refines_example = produce_refines 2 4 four-IsSize wrapped items 8 wrapped-Holds

abbrev first : Both ℕ
first = start empty

abbrev second : Both ℕ
second = record first { ring = write first.ring 0 8 }

abbrev third : Both ℕ
third = record second {
  ring = publish 4 second.ring;
  sent = second.sent ++ second.ring.buffer 0 ∷ [];
}

first-Steps : Steps 4 (start empty) third
unfolding current next_pos write reset
first-Steps =
    go_on first second third (go_on first first second (here first) (writes first 0 8 refl))
      (publishes second 0 refl)

Steps-Delivers_example : Delivers 4 third
Steps-Delivers_example = Steps-Delivers 2 4 empty four-IsSize (omega arith) first-Steps
