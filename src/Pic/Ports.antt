-- ===== src/Pic/Ports.antt =====
-- The ports of the controller, and its reset.
use nre.Base.{
  ℕ, ◌+◌, ◌*◌, ◌/◌, ◌%◌, Bool, true, false, ◌&&◌, ◌||◌, not, List, [], ◌==◌, leb, if◌then◌else◌,
}
use nre.Pic.{
  bit, byte_below, Msg, Pic, ocw1, icw2, icw3, icw4, is_slave, rotate_prios, propagate_irq,
  specific_eoi, non_specific_eoi, prioritize_irq, IcwMode, taken,
}

pub reset_values : Pic → Pic × List Msg
unfolding is_slave propagate_irq
reset_values p =
    let p₁ = if bit p.first_icw 0 then p else record p { fourth_icw = 0 } in
    propagate_irq true (record p₁ {
      irr = λ i. false;
      imr = λ i. false;
      prio_lowest = 7;
      smm = false;
      read_isr_reg = false;
      third_icw = if is_slave p₁ then 7 else 0;
      isr = λ i. false;
      poll_mode = false;
      elcr = λ i. bit p₁.first_icw 3;
      notify = λ i. false;
    })

-- The state that the constructor begins with.
abbrev pub fresh : ℕ → ℕ → ℕ → ℕ → Pic
fresh base upstream_irq elcr_base virq = record {
  base = base;
  upstream_irq = upstream_irq;
  elcr_base = elcr_base;
  virq = virq;
  first_icw = 0;
  second_icw = 0;
  third_icw = 0;
  fourth_icw = 0;
  icw_mode = ocw1;
  rotate_on_aeoi = false;
  smm = false;
  read_isr_reg = false;
  poll_mode = false;
  prio_lowest = 0;
  imr = λ i. false;
  isr = λ i. false;
  irr = λ i. false;
  elcr = λ i. false;
  notify = λ i. false;
}

pub create : ℕ → ℕ → ℕ → ℕ → Pic × List Msg
unfolding reset_values
create base upstream_irq elcr_base virq = reset_values (fresh base upstream_irq elcr_base virq)

-- Whether a byte access of this port is for the controller.
abbrev pub its_port : Pic → ℕ → Bool
its_port p port = (leb p.base port && leb port (p.base + 1)) || port == p.elcr_base

-- A read: whether it is the controller's, the value, and the step.
pub receive_in : ℕ → ℕ → Pic → Bool × ℕ × Pic × List Msg
unfolding prioritize_irq
receive_in port value p =
    let ((found, v), polled, sent) = prioritize_irq true (record p { poll_mode = false }) in
    if not (its_port p port)
    then (false, value, p, [])
    else if port == p.elcr_base
    then (true, byte_below 8 p.elcr, p, [])
    else if p.poll_mode
    then (true, (if found then v + 0x80 else v), polled, sent)
    else if port == p.base
    then (true, byte_below 8 (if p.read_isr_reg then p.isr else p.irr), p, [])
    else (true, byte_below 8 p.imr, p, [])

-- The second operation command word.
pub write_ocw2 : ℕ → Pic → Pic × List Msg
unfolding specific_eoi non_specific_eoi rotate_prios
write_ocw2 value p =
    let (ended, sent) = if bit value 5 then specific_eoi (value % 8) p else (p, []) in
    let (done, told) = non_specific_eoi p in
    if bit value 6
    then ((if bit value 7 then record ended { prio_lowest = value % 8 } else ended), sent)
    else if bit value 5
    then ((if bit value 7 then rotate_prios done else done), told)
    else (record p { rotate_on_aeoi = bit value 7 }, [])

-- The third operation command word.
pub write_ocw3 : ℕ → Pic → Pic
write_ocw3 value p = record p {
  smm = if bit value 6 then bit value 5 else p.smm;
  read_isr_reg = if bit value 1 then bit value 0 else p.read_isr_reg;
  poll_mode = bit value 2;
}

pub write_imr : ℕ → Pic → Pic × List Msg
unfolding propagate_irq
write_imr value p = propagate_irq true (record p { imr = bit value })

-- The mode's cases, of which the third and the fourth may fall through.
pub write_icw4 : ℕ → Pic → Pic × List Msg
unfolding write_imr
write_icw4 value p =
    let p₁ = record p { icw_mode = ocw1 } in
    if bit p.first_icw 0 then (record p₁ { fourth_icw = value }, []) else write_imr value p₁

pub write_icw3 : ℕ → Pic → Pic × List Msg
unfolding write_icw4
write_icw3 value p =
    let p₁ = record p { icw_mode = icw4 } in
    if bit p.first_icw 1 then write_icw4 value p₁ else (record p₁ { third_icw = value }, [])

pub write_second : IcwMode → ℕ → Pic → Pic × List Msg
unfolding write_imr write_icw4 write_icw3
write_second icw2 value p = (record p { second_icw = value / 8 * 8; icw_mode = icw3 }, [])
write_second icw3 value p = write_icw3 value p
write_second icw4 value p = write_icw4 value p
write_second ocw1 value p = write_imr value p

pub write_first : ℕ → Pic → Pic × List Msg
unfolding reset_values write_ocw2 write_ocw3
write_first value p =
    let (p₁, sent) = reset_values (record p { first_icw = value }) in
    if bit value 4
    then (record p₁ { icw_mode = icw2 }, sent)
    else if bit value 3
    then (write_ocw3 value p, [])
    else write_ocw2 value p

-- A write: whether it is the controller's, and the step.
pub receive_out : ℕ → ℕ → Pic → Bool × Pic × List Msg
unfolding write_second write_first
receive_out port value p =
    if not (its_port p port)
    then (false, p, [])
    else if port == p.elcr_base
    then (true, record p { elcr = bit value }, [])
    else if port == p.base
    then taken (write_first value p)
    else taken (write_second p.icw_mode value p)
