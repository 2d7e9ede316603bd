-- ===== src/Pic/Search.antt =====
-- What the search of `prioritize_irq` finds.
use nre.Base.{
  ℕ, zero, suc, ◌+◌, ◌%◌, ◌≤◌, ◌<◌, ◌≡◌, ◌↔◌, inl, inr, refl, ap, sym, ◌∙◌, arith, Bool, true,
  false, Bool-cases, ◌==◌, ==_iff,
}
use nre.Pic.{Pic, bit, line, blocked, wanted, find_irq}

-- The line of round `n` is wanted, and it and no line of an earlier round, from `s` on, stops the
-- search or is wanted.
abbrev pub First : Pic → ℕ → ℕ → Type 0
First p s n =
    (wanted p (line p n) ≡ true)
    × ((m : ℕ) → s ≤ m → m ≤ n → blocked p (line p m) ≡ false)
    × ((m : ℕ) → s ≤ m → m < n → wanted p (line p m) ≡ false)

find_irq_end : (p : Pic) (s : ℕ) → (find_irq p 0 s).0 ≡ false
unfolding find_irq
find_irq_end p s = refl

-- A round of the search: it stops, finds its line or goes on.
find_irq-blocked :
    (p : Pic) (left s : ℕ)
    → blocked p (line p s) ≡ true
    → find_irq p (suc left) s ≡ (false, line p s)
unfolding find_irq
find_irq-blocked p left s b = rw b refl

find_irq-wanted :
    (p : Pic) (left s : ℕ)
    → blocked p (line p s) ≡ false
    → wanted p (line p s) ≡ true
    → find_irq p (suc left) s ≡ (true, line p s)
unfolding find_irq
find_irq-wanted p left s b w = rw (b, w) refl

find_irq_next :
    (p : Pic) (left s : ℕ)
    → blocked p (line p s) ≡ false
    → wanted p (line p s) ≡ false
    → find_irq p (suc left) s ≡ find_irq p left (suc s)
unfolding find_irq
find_irq_next p left s b w = rw (b, w) refl

both : {a b : Bool} {i j : ℕ} → ◌≡◌ {A = Bool × ℕ} (a, i) (b, j) → (a ≡ b) × (i ≡ j)
both h = (ap (λ (x : Bool × ℕ). x.0) h, ap (λ (x : Bool × ℕ). x.1) h)

-- A property of each number from a first one on, from the property of the first and of the rest.
from_on :
    (f : ℕ → Bool) (s : ℕ)
    → f s ≡ false
    → (m : ℕ) → s ≤ m
    → ((suc s ≤ m) → f m ≡ false)
    → f m ≡ false
from_on f s h m k g = elim (Bool-cases (m == s)) [
  | inl e ↦ ap f ((==_iff m s).0 e) ∙ h
  | inr e ↦ g (ground (arith, e))
]

found_from :
    (p : Pic) (left s i : ℕ)
    → find_irq p left s ≡ (true, i)
    → (n : ℕ) × (s ≤ n) × (n < s + left) × (i ≡ line p n) × First p s n
found_from p zero s i h =
    absurd (ground (arith, sym (find_irq_end p s) ∙ ap (λ (x : Bool × ℕ). x.0) h))
found_from p (suc left) s i h = elim (Bool-cases (blocked p (line p s))) [
  | inl b ↦ absurd (ground (arith, both (sym (find_irq-blocked p left s b) ∙ h)))
  | inr b ↦ elim (Bool-cases (wanted p (line p s))) [
    | inl w ↦ (
      s,
      omega arith,
      omega arith,
      sym (both (sym (find_irq-wanted p left s b w) ∙ h)).1,
      (
        w,
        (λ m k l. ap (λ (x : ℕ). blocked p (line p x)) (omega (arith, k, l)) ∙ b),
        (λ m k l. absurd (omega (arith, k, l))),
      ),
    )
    | inr w ↦
        (let (n, low, high, e, (w', none_blocked, none_wanted)) =
            found_from p left (suc s) i (sym (find_irq_next p left s b w) ∙ h) in
          (
            n,
            omega (arith, low),
            omega (arith, high),
            e,
            (
              w',
              (λ m k l. from_on (λ x. blocked p (line p x)) s b m k (λ k'. none_blocked m k' l)),
              (λ m k l. from_on (λ x. wanted p (line p x)) s w m k (λ k'. none_wanted m k' l)),
            ),
          ))
  ]
]

find_irq-First :
    (p : Pic) (left s n : ℕ)
    → s ≤ n
    → n < s + left
    → First p s n
    → find_irq p left s ≡ (true, line p n)
find_irq-First p zero s n low high f = absurd (omega (arith, low, high))
find_irq-First p (suc left) s n low high (w, none_blocked, none_wanted) =
    let b : blocked p (line p s) ≡ false = none_blocked s (omega arith) low in
    elim (Bool-cases (s == n)) [
      | inl e ↦
          (let e' = (==_iff s n).0 e in
            find_irq-wanted p left s b (ap (λ (x : ℕ). wanted p (line p x)) e' ∙ w)
            ∙ ap (λ (x : ℕ). (true, line p x)) e')
      | inr e ↦
          (let later : suc s ≤ n = ground (arith, e, low) in
            find_irq_next p left s b (none_wanted s (omega arith) later)
            ∙ find_irq-First p left (suc s) n later (omega (arith, high)) (
              w,
              (λ m k l. none_blocked m (omega (arith, k)) l),
              (λ m k l. none_wanted m (omega (arith, k)) l),
            ))
    ]

pub find_irq-First_iff :
    (p : Pic) (i : ℕ)
    → (find_irq p 8 0 ≡ (true, i)) ↔ ((n : ℕ) × (n < 8) × (i ≡ line p n) × First p 0 n)
find_irq-First_iff p i = (forth, back)
  where
    forth : find_irq p 8 0 ≡ (true, i) → (n : ℕ) × (n < 8) × (i ≡ line p n) × First p 0 n
    forth h = let (n, low, high, e, f) = found_from p 8 0 i h in (n, omega (arith, high), e, f)

    back : (n : ℕ) × (n < 8) × (i ≡ line p n) × First p 0 n → find_irq p 8 0 ≡ (true, i)
    back (n, high, e, f) =
        find_irq-First p 8 0 n (omega arith) (omega (arith, high)) f
        ∙ ap (λ (x : ℕ). (true, x)) (sym e)

-- A line is raised and not masked.
abbrev pub IsRaised : Pic → ℕ → Type 0
IsRaised p i = (p.irr i ≡ true) × (p.imr i ≡ false)

-- A line lets the lines below it pass: it is not in service, or the special mask mode is on, or it is
-- the line of another controller (a bit of the third word) in the special fully nested mode (bit 4 of
-- the fourth word).
abbrev pub LetsPass : Pic → ℕ → Type 0
LetsPass p i =
    (p.isr i ≡ true) → p.smm ≡ false → (bit p.fourth_icw 4 ≡ true) × (bit p.third_icw i ≡ true)

-- The line with the priority `n`, where 0 is the highest, and that of the line behind the lowest.
abbrev pub at_priority : Pic → ℕ → ℕ
at_priority p n = (p.prio_lowest + 1 + n) % 8

IsRaised-iff : (p : Pic) (i : ℕ) → (wanted p i ≡ true) ↔ IsRaised p i
unfolding wanted
IsRaised-iff p i = (λ h. (ground (arith, h), ground (arith, h)), λ (h, k). ground (arith, h, k))

passing : (p : Pic) (i : ℕ) → LetsPass p i → blocked p i ≡ false
unfolding blocked
passing p i h = elim (Bool-cases (p.isr i)) [
  | inr e ↦ ground (arith, e)
  | inl e ↦ elim (Bool-cases p.smm) [
    | inl m ↦ ground (arith, m)
    | inr m ↦ let (nested, other) = h e m in ground (arith, nested, other)
  ]
]

not_raised : (p : Pic) (i : ℕ) → ¬ IsRaised p i → wanted p i ≡ false
not_raised p i h = elim (Bool-cases (wanted p i)) [
  | inl w ↦ absurd (h ((IsRaised-iff p i).0 w))
  | inr w ↦ w
]

passes_iff : (p : Pic) (i : ℕ) → (blocked p i ≡ false) ↔ LetsPass p i
unfolding blocked
passes_iff p i =
    ((λ h s m. (ground (arith, h, s, m), ground (arith, h, s, m))), (λ h. passing p i h))

-- The search finds a line if and only if it is the line of one of the eight priorities that is raised
-- and not masked, no line of a higher priority is, and neither this line nor one of a higher priority
-- keeps the others from passing: a line in service does, unless the special mask mode is on, or the
-- special fully nested mode is and the line is that of another controller.
pub find_irq_iff :
    (p : Pic) (i : ℕ)
    → (find_irq p 8 0 ≡ (true, i)) ↔ (
        (n : ℕ) × (n < 8)
        × (i ≡ at_priority p n)
        × IsRaised p (at_priority p n)
        × ((m : ℕ) → m ≤ n → LetsPass p (at_priority p m))
        × ((m : ℕ) → m < n → ¬ IsRaised p (at_priority p m)))
unfolding line
find_irq_iff p i = (
  (λ h.
      let (n, low, e, (w, pass, none)) = (find_irq-First_iff p i).0 h in
      (
        n,
        low,
        e,
        (IsRaised-iff p (at_priority p n)).0 w,
        (λ m l. (passes_iff p (at_priority p m)).0 (pass m (omega arith) l)),
        (λ m l r. ground (arith, none m (omega arith) l, (IsRaised-iff p (at_priority p m)).1 r)),
      )),
  (λ (n, low, e, raised, pass, none). (find_irq-First_iff p i).1 (
    n,
    low,
    e,
    (
      (IsRaised-iff p (at_priority p n)).1 raised,
      (λ m k l. (passes_iff p (at_priority p m)).1 (pass m l)),
      (λ m k l. not_raised p (at_priority p m) (none m l)),
    ),
  )),
)

-- Where nothing stops the search and it finds no line, no line is wanted.
pub none_from :
    (p : Pic) (left s : ℕ)
    → (find_irq p left s).0 ≡ false
    → ((m : ℕ) → s ≤ m → m < s + left → blocked p (line p m) ≡ false)
    → (m : ℕ) → s ≤ m
    → m < s + left
    → wanted p (line p m) ≡ false
none_from p zero s h unblocked m low high = absurd (omega (arith, low, high))
none_from p (suc left) s h unblocked m low high =
    let b : blocked p (line p s) ≡ false = unblocked s (omega arith) (omega arith) in
    elim (Bool-cases (wanted p (line p s))) [
      | inl w ↦
          absurd (ground (arith, h, ap (λ (x : Bool × ℕ). x.0) (find_irq-wanted p left s b w)))
      | inr w ↦
          from_on (λ x. wanted p (line p x)) s w m low
            (λ k.
              none_from p left (suc s)
                (ap (λ (x : Bool × ℕ). x.0) (sym (find_irq_next p left s b w)) ∙ h)
                (λ x y z. unblocked x (omega (arith, y)) (omega (arith, z))) m k
                (omega (arith, high)))
    ]
