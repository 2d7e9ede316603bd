-- ===== src/Pic/Tests.antt =====
-- The controller at concrete values.
use nre.Base.{
  ℕ, not, ◌&&◌, ◌||◌, ◌%◌, ◌+◌, ◌<◌, ◌≤◌, ◌≡◌, ◌↔◌, refl, true, false, Option, none, ◌==◌,
}
use nre.Pic.{Pic, line, blocked, wanted, find_irq, is_slave, bit}
use nre.Pic.Ports.{fresh}
use nre.Pic.Search.{IsRaised, LetsPass, at_priority, find_irq_iff}
use nre.Pic.Rounds.{Like}
use nre.Pic.Served.{serve, ended, serve-found}

no_slaves : ℕ → Option ℕ
no_slaves i = none

-- A slave with vectors from 112 on, whose lines 2 and 5 are raised.
abbrev raised : Pic
raised = record (fresh 0xa0 2 0x4d1 8) {
  second_icw = 112;
  prio_lowest = 7;
  irr = λ i. i == 2 || i == 5;
}

find_irq_runs : find_irq raised 8 0 ≡ (true, 2)
unfolding find_irq line blocked wanted
find_irq_runs = refl

find_irq_iff_example : (find_irq raised 8 0 ≡ (true, 2)) ↔ (
    (n : ℕ) × (n < 8)
    × (2 ≡ at_priority raised n)
    × IsRaised raised (at_priority raised n)
    × ((m : ℕ) → m ≤ n → LetsPass raised (at_priority raised m))
    × ((m : ℕ) → m < n → ¬ IsRaised raised (at_priority raised m)))
find_irq_iff_example = find_irq_iff raised 2

-- A master with slaves on its lines 2 and 4, whose line 1 is raised.
abbrev cascaded : Pic
cascaded = record (fresh 0x20 0 0x4d0 8) {
  second_icw = 8;
  third_icw = 0x14;
  prio_lowest = 7;
  irr = λ i. i == 1 || i == 4;
}

cascaded_finds : find_irq cascaded 8 0 ≡ (true, 1)
unfolding find_irq line blocked wanted
cascaded_finds = refl

line_alone : (not (is_slave cascaded) && bit 0x14 1) ≡ false
unfolding is_slave
line_alone = refl

serve-found_example :
    ((serve no_slaves cascaded).0 ≡ (1 + 8) % 256)
    × Like (serve no_slaves cascaded).1 (ended 1 cascaded)
    × ((j : ℕ) → (serve no_slaves cascaded).1.isr j ≡ cascaded.isr j)
serve-found_example = serve-found no_slaves cascaded 1 (refl, refl, refl) line_alone cascaded_finds
