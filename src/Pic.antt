-- ===== src/Pic.antt =====
-- nre/apps/vancouver/model/pic8259.cc: the interrupt controller that the virtual machine monitor
-- emulates. A register with a bit per line is a function from the lines, a command word a number.
-- A step returns the new state and the messages that it sends, in their order.
pub mod Search
pub mod Ports
pub mod Rounds
pub mod Served
mod Tests
use nre.Base.{
  ℕ, zero, suc, ◌+◌, ◌-◌, ◌/◌, ◌%◌, ◌^◌, Bool, true, false, ◌&&◌, ◌||◌, not, Option, none, some,
  List, [], ◌∷◌, ◌++◌, ◌==◌, leb, if◌then◌else◌,
}

-- The lines of an 8-bit register.
abbrev pub Lines : Type 0
Lines = ℕ → Bool

abbrev pub bit : ℕ → Lines
bit v i = (v / 2 ^ i) % 2 == 1

abbrev pub byte_below : ℕ → Lines → ℕ
byte_below zero lines = 0
byte_below (suc n) lines = (if lines n then 2 ^ n else 0) + byte_below n lines

abbrev pub any_below : ℕ → Lines → Bool
any_below zero lines = false
any_below (suc n) lines = lines n || any_below n lines

abbrev pub set : ℕ → Lines → Lines
set i lines j = if j == i then true else lines j

abbrev pub clear : ℕ → Lines → Lines
clear i lines j = if j == i then false else lines j

pub data IcwMode : Type 0 where
  ocw1 icw2 icw3 icw4 : IcwMode

pub data Msg : Type 0 where
  intr deass_intr : Msg
  assert_upstream : ℕ → Msg
  irq_notify : ℕ → Lines → Msg

pub record Pic : Type 0 where
  pub base : ℕ
  pub upstream_irq : ℕ
  pub elcr_base : ℕ
  pub virq : ℕ
  pub first_icw : ℕ
  pub second_icw : ℕ
  pub third_icw : ℕ
  pub fourth_icw : ℕ
  pub icw_mode : IcwMode
  pub rotate_on_aeoi : Bool
  pub smm : Bool
  pub read_isr_reg : Bool
  pub poll_mode : Bool
  pub prio_lowest : ℕ
  pub imr : Lines
  pub isr : Lines
  pub irr : Lines
  pub elcr : Lines
  pub notify : Lines

pub is_slave : Pic → Bool
is_slave p = if bit p.fourth_icw 3 then not (bit p.fourth_icw 2) else not (p.virq == 0)

pub rotate_prios : Pic → Pic
rotate_prios p = record p { prio_lowest = (p.prio_lowest + 1) % 8 }

-- The notifications at the beginning of `prioritize_irq`.
pub tell : Pic → Pic × List Msg
tell p =
    let tonotify : Lines = λ i. not (p.irr i) && p.notify i in
    if any_below 8 tonotify
    then (
      record p { notify = λ i. p.notify i && not (tonotify i) },
      irq_notify p.virq tonotify ∷ [],
    )
    else (p, [])

-- The line of a round of the loops.
unfoldable pub line : Pic → ℕ → ℕ
line p n = (p.prio_lowest + 1 + n) % 8

-- A line in service that stops the search.
unfoldable pub blocked : Pic → Lines
blocked p i = not p.smm && p.isr i && not (bit p.fourth_icw 4 && bit p.third_icw i)

-- A line that is raised and not masked.
unfoldable pub wanted : Pic → Lines
wanted p i = p.irr i && not (p.imr i)

-- The loop of `prioritize_irq`: whether it finds a line, and `irq_index` at its end.
pub find_irq : Pic → ℕ → ℕ → Bool × ℕ
unfolding line blocked wanted
find_irq p zero n = (false, (p.prio_lowest + n) % 8)
find_irq p (suc left) n =
    let rest = find_irq p left (suc n) in
    if blocked p (line p n)
    then (false, line p n)
    else if wanted p (line p n)
    then (true, line p n)
    else rest

pub propagate_irq : Bool → Pic → Pic × List Msg
unfolding tell find_irq
propagate_irq send_deassert p =
    let (p', told) = tell p in
    if (find_irq p' 8 0).0
    then (p', told ++ (if p'.virq == 0 then intr else assert_upstream p'.upstream_irq) ∷ [])
    else if send_deassert && p'.virq == 0
    then (p', told ++ deass_intr ∷ [])
    else (p', told)

pub specific_eoi : ℕ → Pic → Pic × List Msg
unfolding propagate_irq
specific_eoi i p = propagate_irq false (record p { isr = clear i p.isr })

-- The loop of `non_specific_eoi`: the line it ends.
pub find_eoi : Pic → ℕ → ℕ → Option ℕ
unfolding line
find_eoi p zero n = none
find_eoi p (suc left) n =
    let rest = find_eoi p left (suc n) in
    if p.isr (line p n) && not (p.smm && not (p.imr (line p n))) then some (line p n) else rest

pub non_specific_eoi : Pic → Pic × List Msg
unfolding find_eoi specific_eoi
non_specific_eoi p = elim (find_eoi p 8 0) [ none ↦ (p, []) | some i ↦ specific_eoi i p ]

-- The acknowledgement of the line that `prioritize_irq` found.
pub acknowledge : ℕ → Pic → Pic × List Msg
unfolding non_specific_eoi rotate_prios
acknowledge i p =
    let p₁ = record p { isr = set i p.isr; irr = if p.elcr i then p.irr else clear i p.irr } in
    if bit p.fourth_icw 1
    then (let (p₂, sent) = non_specific_eoi p₁ in
        (if p₂.rotate_on_aeoi then rotate_prios p₂ else p₂, sent))
    else (p₁, [])

pub prioritize_irq : Bool → Pic → (Bool × ℕ) × Pic × List Msg
unfolding tell find_irq acknowledge
prioritize_irq int_ack p =
    let (p₁, told) = tell p in
    let (found, i) = find_irq p₁ 8 0 in
    let (p₂, sent) = acknowledge i p₁ in
    if found && int_ack then ((found, i), p₂, told ++ sent) else ((found, i), p₁, told)

-- The vector, where `ask` is the answer of the slaves to a message on the bus between the
-- controllers.
pub get_irqvector : (ℕ → Option ℕ) → Pic → ℕ × Pic × List Msg
unfolding prioritize_irq is_slave
get_irqvector ask p =
    let ((found, i), p', sent) = prioritize_irq true p in
    let own : ℕ × Pic × List Msg = ((i + p'.second_icw) % 256, p', sent) in
    if found
    then (if not (is_slave p') && bit p'.third_icw i
        then elim (ask i) [ none ↦ own | some vector ↦ (vector, p', sent) ]
        else own)
    else ((7 + p'.second_icw) % 256, p', sent)

-- The acknowledgement cycle of the processor.
pub receive_inta : (ℕ → Option ℕ) → Pic → ℕ × Pic × List Msg
unfolding get_irqvector propagate_irq
receive_inta ask p =
    let (vector, p₁, sent) = get_irqvector ask p in
    let (p₂, told) = propagate_irq true p₁ in (vector, p₂, sent ++ told)

-- A request of the master to the slave with this number.
pub receive_pic : (ℕ → Option ℕ) → ℕ → Pic → Option ℕ × Pic × List Msg
unfolding get_irqvector propagate_irq is_slave
receive_pic ask slave p =
    let (vector, p₁, sent) = get_irqvector ask p in
    let (p₂, told) = propagate_irq false p₁ in
    if is_slave p && slave == p.third_icw % 8
    then (some vector, p₂, sent ++ told)
    else (none, p, [])

pub data IrqType : Type 0 where
  assert_irq assert_notify deassert_irq : IrqType

abbrev asks_notify : IrqType → Bool
asks_notify assert_notify = true
asks_notify _ = false

abbrev lowers : IrqType → Bool
lowers deassert_irq = true
lowers _ = false

-- The answer of a controller that took the message.
abbrev pub taken : Pic × List Msg → Bool × Pic × List Msg
taken (p, sent) = (true, p, sent)

-- Whether the message is for this controller, and the step.
pub receive_irq_lines : IrqType → ℕ → Pic → Bool × Pic × List Msg
unfolding propagate_irq
receive_irq_lines type number p =
    let i = number - p.virq in
    let p₁ = if asks_notify type then record p { notify = set i p.notify } else p in
    if not (leb p.virq number && leb number (p.virq + 7))
    then (false, p, [])
    else if lowers type
    then (if p₁.irr i && p₁.elcr i
        then taken (propagate_irq true (record p₁ { irr = clear i p₁.irr }))
        else (true, p₁, []))
    else if p₁.irr i
    then (true, p₁, [])
    else taken (propagate_irq false (record p₁ { irr = set i p₁.irr }))
