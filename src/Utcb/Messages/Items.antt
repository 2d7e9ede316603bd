-- ===== src/Utcb/Messages/Items.antt =====
-- Typed items: what is delegated is what the receiver gets.
use nre.Base.{
  ℕ, ◌+◌, ◌-◌, ◌*◌, ◌/◌, ◌%◌, ◌^◌, ◌≤◌, ◌<◌, ◌≡◌, refl, ap, ◌∙◌, arith, bit_or, bit_and_low, update,
  add64, Bool, true, false, if◌then◌else◌, ltb, ◌==◌, not, none, some,
}
use nre.Bits.Digits.{bit_or_digit, or_parts, bit_or-zero, zero_bit_or}
use nre.Utcb.{Memory, top, slot, pos_slot, typed, untyped, set_typed, free_typed, typed_of}
use nre.Utcb.Messages.{
  TypedItem, crd, crd_offset, crd_order, crd_attr, del_item, add_typed, get_typed, get_delegated,
  get_translated, is_delegation,
}

crd_fields :
    (offset order attr : ℕ)
    → offset < 2 ^ 52
    → order < 32
    → attr < 128
    → crd offset order attr ≡ offset * 2 ^ 12 + order * 2 ^ 7 + attr
unfolding crd
crd_fields offset order attr ho hr ha =
    let inner = or_parts 12 offset 0 0 (order * 2 ^ 7) (omega arith) (omega (arith, hr)) in
    let outer = or_parts 7 (offset * 2 ^ 5 + order) 0 0 attr (omega arith) ha in
    let a : offset * 2 ^ 12 % 2 ^ 64 ≡ offset * 2 ^ 12 + 0 = omega (arith, ho) in
    let b : order * 2 ^ 7 % 2 ^ 32 ≡ 0 * 2 ^ 12 + order * 2 ^ 7 = omega (arith, hr) in
    let joined : bit_or (offset * 2 ^ 12 % 2 ^ 64) (order * 2 ^ 7 % 2 ^ 32)
        ≡ (offset * 2 ^ 5 + order) * 2 ^ 7 + 0 =
      cc (a, b) ∙ inner ∙ omega (arith, bit_or-zero offset, zero_bit_or (order * 2 ^ 7)) in
    ap (λ (x : ℕ). bit_or x attr) joined
    ∙ ap (λ (x : ℕ). bit_or ((offset * 2 ^ 5 + order) * 2 ^ 7 + 0) x) (omega arith)
    ∙ outer
    ∙ omega (arith, bit_or-zero (offset * 2 ^ 5 + order), zero_bit_or attr)

-- A descriptor of an offset below 2 ^ 52, an order below 32 and a type with rights below 128: the offset
-- and the order are read back; of the type with rights, the lower five bits.
pub crd_lem :
    (offset order attr : ℕ)
    → offset < 2 ^ 52
    → order < 32
    → attr < 128
    → (crd_offset (crd offset order attr) ≡ offset)
      × (crd_order (crd offset order attr) ≡ order)
      × (crd_attr (crd offset order attr) ≡ attr % 32)
unfolding crd_offset crd_order crd_attr
crd_lem offset order attr ho hr ha =
    let e = crd_fields offset order attr ho hr ha in
    (
      omega (arith, e, hr, ha),
      bit_and_low 5 (crd offset order attr / 2 ^ 7) ∙ omega (arith, e, hr, ha),
      bit_and_low 5 (crd offset order attr) ∙ omega (arith, e, hr, ha),
    )

typed-set_typed :
    (m : Memory) (t : ℕ)
    → t < 2 ^ 16
    → (typed (set_typed m t) ≡ t) × (untyped (set_typed m t) ≡ untyped m)
unfolding typed untyped set_typed
typed-set_typed m t h = (omega (arith, h), omega arith)

-- An item for which there is room between the saved ones and the words of the others is added, and the
-- receiver that has taken as many as were there takes it.
add_typed-get_typed :
    (m : Memory) (item : TypedItem) (u : ℕ)
    → typed_of (m slot) + typed m * 2 + 2 ≤ pos_slot
    → (m' : Memory) × (add_typed m item ≡ some m')
      × (typed m' ≡ typed m + 1)
      × (get_typed (record { mem = m'; upos = u; tpos = typed m })
          ≡ some (item, record { mem = m'; upos = u; tpos = typed m + 1 }))
unfolding add_typed get_typed set_typed free_typed
add_typed-get_typed m item u room =
    let t = typed m in
    let w = update (update m (top - (t * 2 + 1)) item.aux) (top - (t * 2 + 2)) item.desc in
    let fits : ltb (free_typed m) 1 ≡ false = ground (arith, room) in
    let counted : typed (set_typed w (t + 1)) ≡ t + 1 =
      (typed-set_typed w (t + 1) (omega (arith, room))).0 in
    let present : ltb (typed (set_typed w (t + 1))) (add64 t 1) ≡ false =
      ground (arith, counted, room) in
    let low : set_typed w (t + 1) (top - (t * 2 + 2)) ≡ item.desc = ground (arith, room) in
    let high : set_typed w (t + 1) (top - (t * 2 + 1)) ≡ item.aux = ground (arith, room) in
    (set_typed w (t + 1), rw fits refl, counted, rw present (cc (low, high)))

item_desc : (desc flags hotspot : ℕ) → (del_item desc flags hotspot).desc ≡ desc
unfolding del_item
item_desc desc flags hotspot = refl

stays_odd : (x y : ℕ) → x % 2 ≡ 1 → bit_or x y % 2 ≡ 1
stays_odd x y h = ground (arith, h, bit_or_digit x y)

marks_delegation : (desc flags hotspot : ℕ) → is_delegation (del_item desc flags hotspot) ≡ true
unfolding is_delegation del_item
marks_delegation desc flags hotspot =
    let marked = bit_and_low 1 (bit_or (bit_or 1 flags) (hotspot * 2 ^ 12 % 2 ^ 64)) in
    let odd = stays_odd (bit_or 1 flags) (hotspot * 2 ^ 12 % 2 ^ 64) (stays_odd 1 flags refl) in
    ground (arith, marked, odd)

when_equal {ℓ} :
    {A : Type ℓ} (same : Bool) (x y : A) → (if not same then x else y) ≡ (if same then y else x)
when_equal true x y = refl
when_equal false x y = refl

-- A descriptor with a type that is not 0 is delegated in a frame that has room for it, with whatever flags
-- and hotspot. Then the receiver that is at this item gets exactly this descriptor when it expects a
-- delegation of this order, and nothing when it expects a delegation of another order or a translation.
pub add_typed-get_delegated :
    (m : Memory) (offset order attr flags hotspot u expected : ℕ)
    → typed_of (m slot) + typed m * 2 + 2 ≤ pos_slot
    → offset < 2 ^ 52
    → order < 32
    → attr < 128
    → 0 < attr
    → (m' : Memory) × (add_typed m (del_item (crd offset order attr) flags hotspot) ≡ some m')
      × (get_delegated (record { mem = m'; upos = u; tpos = typed m }) expected ≡ (
          if order == expected
          then some (crd offset order attr, record { mem = m'; upos = u; tpos = typed m + 1 })
          else none))
      × (get_translated (record { mem = m'; upos = u; tpos = typed m }) expected ≡ none)
unfolding get_delegated get_translated
add_typed-get_delegated m offset order attr flags hotspot u expected room ho hr ha some_type =
    let item = del_item (crd offset order attr) flags hotspot in
    let (m', run, counted, got) = add_typed-get_typed m item u room in
    let marked = marks_delegation (crd offset order attr) flags hotspot in
    let same = item_desc (crd offset order attr) flags hotspot in
    let order_read = (crd_lem offset order attr ho hr ha).1 in
    let not_null : (crd offset order attr == 0) ≡ false =
      ground (arith, crd_fields offset order attr ho hr ha, some_type) in
    (
      m',
      run,
      rw (got, get_delegated)
          (rw (marked, same, order_read, not_null) (when_equal (order == expected) none _)),
      rw (got, get_translated) (ground (arith, marked)),
    )
