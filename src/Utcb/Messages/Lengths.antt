-- ===== src/Utcb/Messages/Lengths.antt =====
-- The length of a string that is received.
use nre.Base.{◌-◌, ◌*◌, ◌^◌, ◌≤◌, ◌<◌, ◌≡◌, arith, some}
use nre.Math.{blockcount}
use nre.Utcb.{msg, untyped}
use nre.Utcb.Messages.{FrameRef, Copied, counted, reset_string, lacks_untyped, take_string}

-- Where the length that a frame gives for a string is at most 2 ^ 64 - 8, the string is taken only if the
-- words that it occupies are among those that were sent, and so many characters are copied.
pub take_string-Within :
    (f : FrameRef) (copied : Copied) (f' : FrameRef)
    → f.upos ≤ untyped f.mem
    → untyped f.mem < 2 ^ 16
    → f.mem (msg f.upos) ≤ 2 ^ 64 - 8
    → take_string f ≡ some (copied, f')
    → (copied ≡ counted (f.mem (msg f.upos)))
      × (f.mem (msg f.upos) ≤ 8 * (untyped f.mem - f.upos - 1))
unfolding take_string lacks_untyped blockcount reset_string
take_string-Within f copied f' h k small e =
    (ground (arith, e, h, k, small), ground (arith, e, h, k, small))
