-- ===== src/Pic/Rounds.antt =====
-- An acknowledgement and the end of the interrupt behind it.
use nre.Base.{
  ℕ, zero, suc, ◌+◌, ◌%◌, ◌≤◌, ◌<◌, ◌≡◌, refl, ap, sym, ◌∙◌, arith, Bool, true, false, ◌&&◌, not,
  Option, some, List, [], ◌==◌, if◌then◌else◌,
}
use nre.Pic.{
  Pic, Lines, Msg, bit, any_below, set, clear, line, blocked, wanted, is_slave, tell, find_irq,
  propagate_irq, find_eoi, acknowledge, prioritize_irq, get_irqvector, receive_inta,
}

-- No special mask mode, no automatic end of interrupt, no special fully nested mode.
abbrev pub Plain : Pic → Type 0
Plain p = (p.smm ≡ false) × (bit p.fourth_icw 1 ≡ false) × (bit p.fourth_icw 4 ≡ false)

abbrev pub telling : Pic → Lines → Pic
telling p x = record p { notify = x }

if-telling :
    (b : Bool) (p : Pic) (x : Lines) (sent : List Msg)
    → let s : Pic × List Msg = if b then (telling p x, sent) else (p, []) in
      s.0 ≡ telling p s.0.notify
if-telling true p x sent = refl
if-telling false p x sent = refl

one_state :
    (b c : Bool) (p : Pic) (x y z : List Msg)
    → let s : Pic × List Msg = if b then (p, x) else if c then (p, y) else (p, z) in s.0 ≡ p
one_state true c p x y z = refl
one_state false true p x y z = refl
one_state false false p x y z = refl

-- What is left to notify.
abbrev pub left : Pic → Lines
left p = (tell p).0.notify

tell_state : (p : Pic) → (tell p).0 ≡ telling p (left p)
unfolding tell
tell_state p = if-telling (any_below 8 (λ i. not (p.irr i) && p.notify i)) p _ _

find_irq-telling : (p : Pic) (x : Lines) (n s : ℕ) → find_irq (telling p x) n s ≡ find_irq p n s
unfolding find_irq line blocked wanted
find_irq-telling p x zero s = refl
find_irq-telling p x (suc n) s = rw (find_irq-telling p x n (suc s)) refl

pub propagate_irq_state :
    (send_deassert : Bool) (p : Pic) → (propagate_irq send_deassert p).0 ≡ telling p (left p)
unfolding propagate_irq
propagate_irq_state d p =
    one_state (find_irq (tell p).0 8 0).0 (d && (tell p).0.virq == 0) (tell p).0 _ _ _
    ∙ tell_state p

-- `prioritize_irq` finds what the search finds before the notifications.
find_irq-tell : (p : Pic) (n s : ℕ) → find_irq (tell p).0 n s ≡ find_irq p n s
find_irq-tell p n s =
    ap (λ (q : Pic). find_irq q n s) (tell_state p) ∙ find_irq-telling p (left p) n s

-- The state with a line acknowledged.
abbrev pub taking : ℕ → Pic → Pic
taking i p = record p { isr = set i p.isr; irr = if p.elcr i then p.irr else clear i p.irr }

acknowledge_state :
    (i : ℕ) (p : Pic) → bit p.fourth_icw 1 ≡ false → acknowledge i p ≡ (taking i p, [])
unfolding acknowledge
acknowledge_state i p h = rw h refl

prioritize_irq-found :
    (p : Pic) (i : ℕ)
    → bit p.fourth_icw 1 ≡ false
    → find_irq p 8 0 ≡ (true, i)
    → let (result, q, sent) = prioritize_irq true p in
      (result ≡ (true, i)) × (q ≡ taking i (telling p (left p)))
unfolding prioritize_irq
prioritize_irq-found p i h f =
    let f' : find_irq (tell p).0 8 0 ≡ (true, i) = find_irq-tell p 8 0 ∙ f in
    let known : bit (tell p).0.fourth_icw 1 ≡ false =
      ap (λ (q : Pic). bit q.fourth_icw 1) (tell_state p) ∙ h in
    rw f' (
      refl,
      ap (λ (s : Pic × List Msg). s.0) (acknowledge_state i (tell p).0 known)
          ∙ ap (λ (q : Pic). taking i q) (tell_state p),
    )

-- A line that is not another controller's.
abbrev pub Alone : Pic → ℕ → Type 0
Alone p i = (not (is_slave p) && bit p.third_icw i) ≡ false

get_irqvector-found :
    (ask : ℕ → Option ℕ) (p : Pic) (i : ℕ)
    → bit p.fourth_icw 1 ≡ false
    → Alone p i
    → find_irq p 8 0 ≡ (true, i)
    → let (vector, q, sent) = get_irqvector ask p in
      (vector ≡ (i + p.second_icw) % 256) × (q ≡ taking i (telling p (left p)))
unfolding get_irqvector is_slave
get_irqvector-found ask p i h alone f =
    let (result, state) = prioritize_irq-found p i h f in
    let own : (not (is_slave (prioritize_irq true p).1)
          && bit (prioritize_irq true p).1.third_icw i)
        ≡ false =
      ap (λ (q : Pic). not (is_slave q) && bit q.third_icw i) state ∙ alone in
    rw (result, own) (ap (λ (q : Pic). (i + q.second_icw) % 256) state, state)

-- A state is another one but for what is left to notify.
abbrev pub Like : Pic → Pic → Type 0
Like q q' = q ≡ telling q' q.notify

pub like : (q q' : Pic) (x : Lines) → q ≡ telling q' x → Like q q'
like q q' x e = e ∙ ap (λ (n : Lines). telling q' n) (sym (ap (λ (r : Pic). r.notify) e))

pub receive_inta-found :
    (ask : ℕ → Option ℕ) (p : Pic) (i : ℕ)
    → bit p.fourth_icw 1 ≡ false
    → Alone p i
    → find_irq p 8 0 ≡ (true, i)
    → let (vector, q, sent) = receive_inta ask p in
      (vector ≡ (i + p.second_icw) % 256) × Like q (taking i p)
unfolding receive_inta
receive_inta-found ask p i h alone f =
    let (vector, state) = get_irqvector-found ask p i h alone f in
    let q = (get_irqvector ask p).1 in
    (
      vector,
      like (propagate_irq true q).0 (taking i p) (left q)
          (propagate_irq_state true q ∙ ap (λ (r : Pic). telling r (left q)) state),
    )

-- The search for the line to end.
pub find_eoi-here :
    (p : Pic) (n s i : ℕ)
    → p.smm ≡ false
    → i < n
    → p.isr (line p (s + i)) ≡ true
    → ((m : ℕ) → s ≤ m → m < s + i → p.isr (line p m) ≡ false)
    → find_eoi p n s ≡ some (line p (s + i))
unfolding find_eoi
find_eoi-here p zero s i h k f none_before = absurd (omega (arith, k))
find_eoi-here p (suc n) s zero h k f none_before =
    let e : line p (s + 0) ≡ line p s = ap (λ (m : ℕ). line p m) (omega arith) in
    let f' : p.isr (line p s) ≡ true = sym (ap p.isr e) ∙ f in
    rw (f', h) (ap (λ (m : ℕ). some m) (sym e))
find_eoi-here p (suc n) s (suc i) h k f none_before =
    let g : p.isr (line p s) ≡ false = none_before s (omega arith) (omega arith) in
    let e : line p (suc s + i) ≡ line p (s + suc i) = ap (λ (m : ℕ). line p m) (omega arith) in
    rw g (
      find_eoi-here p n (suc s) i h (omega (arith, k)) (ap p.isr e ∙ f)
        (λ m low high. none_before m (omega (arith, low)) (omega (arith, high)))
      ∙ ap (λ (m : ℕ). some m) e)
