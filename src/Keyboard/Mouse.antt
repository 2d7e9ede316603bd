-- ===== src/Keyboard/Mouse.antt =====
-- `HostKeyboard::handle_aux` and the mouse's `read`: the bytes of the mouse become packets. The
-- commands that `enable_mouse` sends are not modelled; `id` is the device's answer to them.
pub mod Packets
use nre.Base.{
  ℕ, suc, ◌+◌, ◌/◌, ◌%◌, Bool, true, false, ◌||◌, Option, none, some, List, [], ◌∷◌, ◌==◌,
  if◌then◌else◌, bit_and,
}
use nre.Keyboard.Scan.{Input}

pub record MousePacket : Type 0 where
  pub status : ℕ
  pub x : ℕ
  pub y : ℕ
  pub z : ℕ

pub record Mouse : Type 0 where
  pub state : ℕ
  pub wheel : Bool

pub enable_mouse : ℕ → Mouse → Mouse
enable_mouse id m = record m { wheel = if id == 3 || id == 4 then true else m.wheel }

-- whether a packet is complete, the new state, and the packet so far
pub handle_aux : ℕ → Mouse → MousePacket → ℕ → Bool × Mouse × MousePacket
unfolding enable_mouse
handle_aux id m packet byte =
    if m.state == 0xfe
    then (false, (if byte == 0xaa then record m { state = 0xff } else m), packet)
    else if m.state == 0xff
    then (false, (if byte == 0 then enable_mouse id (record m { state = 0 }) else m), packet)
    else if m.state == 0
    then (if bit_and byte 0x8 == 0
        then (false, m, packet)
        else (false, record m { state = 1 }, record packet { status = byte }))
    else if m.state == 1
    then (false, record m { state = 2 }, record packet { x = byte })
    else if m.state == 2
    then (if m.wheel
        then (false, record m { state = 3 }, record packet { y = byte })
        else (true, record m { state = 0 }, record packet { y = byte }))
    else if m.state == 3
    then (true, record m { state = 0 }, record packet { z = byte })
    else (true, m, packet)

-- `read` into `data`: whether a packet is complete, the new state, the packet, and the input left.
pub read_mouse : ℕ → Mouse → MousePacket → List Input → Bool × Mouse × MousePacket × List Input
unfolding handle_aux
read_mouse id m packet [] = (false, m, packet, [])
read_mouse id m packet ((from_mouse, b) ∷ input) =
    let (complete, m', packet') = handle_aux id m packet b in
    let rest = read_mouse id m' packet' input in
    if from_mouse
    then (if complete then (true, m', packet', input) else rest)
    else (false, m, packet, (from_mouse, b) ∷ input)
