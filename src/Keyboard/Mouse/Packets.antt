-- ===== src/Keyboard/Mouse/Packets.antt =====
-- Packets of the mouse, as bytes and back.
use nre.Base.{
  ℕ, ◌≡◌, ◌≢◌, refl, arith, Bool, true, false, List, [], ◌∷◌, ◌++◌, map, All, bit_and, ◌==◌,
}
use nre.Keyboard.Scan.{Input}
use nre.Keyboard.Mouse.{Mouse, MousePacket, handle_aux, read_mouse}

-- The first byte of a packet has this bit.
abbrev pub InSync : MousePacket → Type 0
InSync p = bit_and p.status 0x8 ≢ 0

-- The bytes of a packet.
pub bytes_of : Bool → MousePacket → List Input
bytes_of true p = (true, p.status) ∷ (true, p.x) ∷ (true, p.y) ∷ (true, p.z) ∷ []
bytes_of false p = (true, p.status) ∷ (true, p.x) ∷ (true, p.y) ∷ []

-- What the packet holds when its bytes were read into `old`.
abbrev pub over : Bool → MousePacket → MousePacket → MousePacket
over true p old = p
over false p old = record p { z = old.z }

abbrev pub idle : Bool → Mouse
idle wheel = record { state = 0; wheel = wheel }

-- The bytes of a packet that come at once are read as this packet, with a wheel or without, and the
-- input behind them is left; a packet of a mouse without a wheel keeps the wheel's field of `data`.
pub read_mouse-bytes_of :
    (id : ℕ) (wheel : Bool) (p old : MousePacket) (rest : List Input)
    → InSync p
    → read_mouse id (idle wheel) old (bytes_of wheel p ++ rest)
      ≡ (true, idle wheel, over wheel p old, rest)
unfolding read_mouse handle_aux bytes_of
read_mouse-bytes_of id true p old rest h =
    let sync : (bit_and p.status 0x8 == 0) ≡ false = ground arith in rw sync refl
read_mouse-bytes_of id false p old rest h =
    let sync : (bit_and p.status 0x8 == 0) ≡ false = ground arith in rw sync refl

-- Bytes out of sync are dropped until a packet begins.
pub read_mouse-noise :
    (id : ℕ) (wheel : Bool) (noise : List ℕ) (p old : MousePacket) (rest : List Input)
    → All (λ b. bit_and b 0x8 ≡ 0) noise
    → InSync p
    → read_mouse id (idle wheel) old (map (λ b. (true, b)) noise ++ (bytes_of wheel p ++ rest))
      ≡ (true, idle wheel, over wheel p old, rest)
unfolding read_mouse handle_aux
read_mouse-noise id wheel [] p old rest h k = read_mouse-bytes_of id wheel p old rest k
read_mouse-noise id wheel (b ∷ noise) p old rest h k =
    let out : (bit_and b 0x8 == 0) ≡ true = let e = h.0 in ground arith in
    rw out (read_mouse-noise id wheel noise p old rest h.1 k)

-- If the three bytes of a packet come with an interrupt each, and each call of `read` begins with a
-- packet of its own, the packet delivered has only the last byte: its status and its first
-- coordinate are what the third packet held before.
pub read_mouse-apart :
    (id : ℕ) (p old₁ old₂ old₃ : MousePacket)
    → InSync p
    → let first = read_mouse id (idle false) old₁ ((true, p.status) ∷ []) in
      let second = read_mouse id first.1 old₂ ((true, p.x) ∷ []) in
      let third = read_mouse id second.1 old₃ ((true, p.y) ∷ []) in
      (first.0 ≡ false)
      × (second.0 ≡ false)
      × (third.0 ≡ true)
      × (third.2 ≡ record old₃ { y = p.y })
unfolding read_mouse handle_aux
read_mouse-apart id p old₁ old₂ old₃ h =
    let sync : (bit_and p.status 0x8 == 0) ≡ false = ground arith in
    rw sync (refl, refl, refl, refl)
