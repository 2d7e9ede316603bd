-- ===== src/Subsystem/Slots/Portals.antt =====
-- The selectors of the portals of all children.
use native.Mathlib.Nat.{
  mul-add-div_right, mul-add-mod_self_right, div-eq_of_lt, mod-eq_of_lt, one-le-pow, mul-le-mul,
  mul-le-mul_left,
}
use nre.Base.{ℕ, ◌+◌, ◌*◌, ◌/◌, ◌%◌, ◌^◌, ◌≤◌, ◌<◌, ◌≡◌, sym, ap, ◌∙◌, arith, sub32, add64, u32_mod}
use nre.Math.Powers.{next_pow2_lem, exponent_le}
use nre.Math.Blocks.{lower}
use nre.Subsystem.Slots.{ChildManager, per_child_caps, index_of, get_cpu, get_vector, portal_of}

-- The quotient and the rest of a sum of a multiple and something smaller.
split_sum : (q d r : ℕ) → r < d → ((q * d + r) / d ≡ q) × ((q * d + r) % d ≡ r)
split_sum q d r h =
    let pos : 0 < d = omega (arith, h) in
    (
      mul-add-div_right pos q r ∙ omega (arith, div-eq_of_lt h),
      mul-add-mod_self_right q d r ∙ mod-eq_of_lt h,
    )

-- The portals of a child: a power of two, enough for the portals on all processors, and a multiple
-- of the portals on one.
per_child_lem :
    (cm : ChildManager) (k : ℕ)
    → cm.service_caps ≡ 2 ^ k
    → 0 < cm.cpus
    → cm.service_caps * cm.cpus ≤ 2 ^ 30
    → (cm.service_caps * cm.cpus ≤ per_child_caps cm)
      × (q : ℕ) × (per_child_caps cm ≡ q * cm.service_caps)
unfolding per_child_caps
per_child_lem cm k power some_cpus few =
    let service = one-le-pow k 2 (omega arith) in
    let positive : 0 < cm.service_caps * cm.cpus = omega (
      arith,
      power,
      mul-le-mul {n₁ = 1} {m₁ = 1} {n₂ = cm.service_caps} {m₂ = cm.cpus}
          (omega (arith, power, service)) some_cpus,
    ) in
    let (m, is_power, room, _) = next_pow2_lem (cm.service_caps * cm.cpus) positive few in
    let one : 2 ^ k ≤ cm.service_caps * cm.cpus =
      omega (arith, power, mul-le-mul_left cm.service_caps some_cpus) in
    let (q, e) =
      lower (2 ^ m) m k
        (exponent_le k m (2 ^ m) (omega (arith, one, room)) (omega (arith, one-le-pow m 2)))
        (1, omega arith) in
    (omega (arith, is_power, room), q, is_power ∙ e ∙ ap (λ (x : ℕ). q * x) (sym power))

-- A power of two of portals for each processor, at most 2 ^ 30 for all processors of a child, at most
-- 256 processors, and the portals of the child below 2 ^ 32: the child, the processor and the vector
-- are found again from the selector of the portal that `load` makes for them.
pub portal_of_lem :
    (cm : ChildManager) (k i cpu vector : ℕ)
    → cm.service_caps ≡ 2 ^ k
    → cm.service_caps * cm.cpus ≤ 2 ^ 30
    → cm.cpus ≤ 2 ^ 8
    → cpu < cm.cpus
    → vector < cm.service_caps
    → cm.portal_caps + (i + 1) * per_child_caps cm < 2 ^ 32
    → (index_of cm (portal_of cm i cpu vector) ≡ i)
      × (get_cpu cm (portal_of cm i cpu vector) ≡ cpu)
      × (get_vector cm (portal_of cm i cpu vector) ≡ vector)
unfolding index_of get_cpu get_vector portal_of
portal_of_lem cm k i cpu vector power few cpus on_cpu small fits =
    let (room, q, multiple) = per_child_lem cm k power (omega (arith, on_cpu)) few in
    let per = per_child_caps cm in
    let s = cm.service_caps in
    let r = cpu * s + vector in
    let inside : r < per = omega (arith, small, room, mul-le-mul_left cm.service_caps on_cpu) in
    let offset : cpu * s % u32_mod ≡ cpu * s = omega (arith, inside, fits) in
    let pts : add64 cm.portal_caps (i * per) % u32_mod ≡ cm.portal_caps + i * per =
      omega (arith, inside, fits) in
    let selector : portal_of cm i cpu vector ≡ cm.portal_caps + i * per + cpu * s + vector =
      rw (offset, portal_of) (rw (pts, portal_of) (omega (arith, inside, fits))) in
    let off : sub32 (portal_of cm i cpu vector) cm.portal_caps ≡ i * per + r =
      omega (arith, selector, inside, fits) in
    let (child, rest) = split_sum i per r inside in
    let (on, at) = split_sum cpu s vector small in
    let spread : i * per + r ≡ (i * q + cpu) * s + vector =
      omega (arith, ap (λ (x : ℕ). i * x) multiple) in
    (
      ap (λ (x : ℕ). x / per) off ∙ child,
      ap (λ (x : ℕ). x % per / s % 2 ^ 8) off
          ∙ ap (λ (x : ℕ). x / s % 2 ^ 8) rest
          ∙ omega (arith, on, on_cpu, cpus),
      ap (λ (x : ℕ). x % s) (off ∙ spread) ∙ (split_sum (i * q + cpu) s vector small).1,
    )
