-- ===== src/Pic/Served.antt =====
-- An interrupt that is acknowledged and ended, and all that wait.
use nre.Base.{
  ℕ, ◌+◌, ◌%◌, ◌<◌, ◌≡◌, refl, ap, sym, ◌∙◌, arith, Bool, true, false, Option, some, List, ◌==◌,
  ==_iff, if◌then◌else◌,
}
use nre.Pic.{
  Pic, Lines, Msg, set, clear, line, blocked, find_irq, propagate_irq, specific_eoi, find_eoi,
  non_specific_eoi, receive_inta,
}
use nre.Pic.Search.{First, find_irq-First_iff}
use nre.Pic.Rounds.{
  Plain, Alone, Like, telling, taking, like, left, receive_inta-found, find_eoi-here,
  propagate_irq_state,
}

-- The vector and the state, after the processor's acknowledgement and the command that ends the
-- interrupt.
pub serve : (ℕ → Option ℕ) → Pic → ℕ × Pic
unfolding receive_inta non_specific_eoi
serve ask p =
    let (vector, q, sent) = receive_inta ask p in let (r, told) = non_specific_eoi q in (vector, r)

-- The state with a line acknowledged and ended.
abbrev pub ended : ℕ → Pic → Pic
ended i p = record (taking i p) { isr = clear i (set i p.isr) }

line_apart : (p : Pic) (m n : ℕ) → m < n → n < 8 → (line p m == line p n) ≡ false
unfolding line
line_apart p m n h k = ground (arith, h, k)

-- In a plain mode, a line that does not stop the search is not in service.
at_rest : (p : Pic) (i : ℕ) → Plain p → blocked p i ≡ false → p.isr i ≡ false
unfolding blocked
at_rest p i plain h = ground (arith, h, plain)

set-here : (i : ℕ) (f : Lines) → set i f i ≡ true
set-here i f = ground arith

set-apart : (i j : ℕ) (f : Lines) → (j == i) ≡ false → f j ≡ false → set i f j ≡ false
set-apart i j f h k = rw h k

find_eoi-taking :
    (p : Pic) (x : Lines) (n : ℕ)
    → Plain p
    → n < 8
    → First p 0 n
    → find_eoi (telling (taking (line p n) p) x) 8 0 ≡ some (line p n)
unfolding line
find_eoi-taking p x n plain k (w, none_blocked, none_wanted) =
    let q = telling (taking (line p n) p) x in
    let zero_add : 0 + n ≡ n = omega arith in
    find_eoi-here q 8 0 n plain.0 k
      (ap (λ (m : ℕ). set (line p n) p.isr (line p m)) zero_add ∙ set-here (line p n) p.isr)
      (λ m low high.
        set-apart (line p n) (line p m) p.isr (line_apart p m n (omega (arith, high)) k)
          (at_rest p (line p m) plain (none_blocked m low (omega (arith, high)))))
    ∙ ap (λ (m : ℕ). some (line p m)) zero_add

-- A command to end the interrupt, once its line is known.
non_specific_eoi_lem :
    (q : Pic) (i : ℕ) → find_eoi q 8 0 ≡ some i → non_specific_eoi q ≡ specific_eoi i q
unfolding non_specific_eoi
non_specific_eoi_lem q i h = rw (h, non_specific_eoi) refl

specific_eoi-Like : (q : Pic) (i : ℕ) → Like (specific_eoi i q).0 (record q { isr = clear i q.isr })
unfolding specific_eoi
specific_eoi-Like q i =
    let r = record q { isr = clear i q.isr } in
    like (propagate_irq false r).0 r (left r) (propagate_irq_state false r)

eoi-Like :
    (p q : Pic) (i : ℕ)
    → Like q (taking i p)
    → find_eoi q 8 0 ≡ some i
    → Like (non_specific_eoi q).0 (ended i p)
eoi-Like p q i h f =
    let r = (specific_eoi i q).0 in
    let e : r ≡ telling (ended i p) r.notify =
      specific_eoi-Like q i
      ∙ ap (λ (g : Pic). telling (record g { isr = clear i g.isr }) r.notify) h in
    let same = ap (λ (s : Pic × List Msg). s.0) (non_specific_eoi_lem q i f) in
    like (non_specific_eoi q).0 (ended i p) r.notify (same ∙ e)

if_twice :
    (b x : Bool) → (b ≡ true → x ≡ false) → (if b then false else (if b then true else x)) ≡ x
if_twice true x h = sym (h refl)
if_twice false x h = refl

clear-set : (f : Lines) (i j : ℕ) → f i ≡ false → clear i (set i f) j ≡ f j
clear-set f i j h = if_twice (j == i) (f j) (λ e. ap f ((==_iff j i).0 e) ∙ h)

-- In a plain mode, when the search finds line `i` and no other controller is on this line: the
-- processor gets the line's vector; after the command to end the interrupt, the lines in service are
-- those from before, the line is no longer raised if it is triggered by edges, and nothing else has
-- changed but what is left to notify.
pub serve-found :
    (ask : ℕ → Option ℕ) (p : Pic) (i : ℕ)
    → Plain p
    → Alone p i
    → find_irq p 8 0 ≡ (true, i)
    → ((serve ask p).0 ≡ (i + p.second_icw) % 256)
      × Like (serve ask p).1 (ended i p)
      × ((j : ℕ) → (serve ask p).1.isr j ≡ p.isr j)
unfolding serve
serve-found ask p i plain alone f =
    let (n, k, e, first) = (find_irq-First_iff p i).0 f in
    let (vector, acked) = receive_inta-found ask p i plain.1 alone f in
    let q = (receive_inta ask p).1 in
    let eoi : find_eoi q 8 0 ≡ some i =
      ap (λ (g : Pic). find_eoi g 8 0) acked
      ∙ ap (λ (l : ℕ). find_eoi (telling (taking l p) q.notify) 8 0) e
      ∙ find_eoi-taking p q.notify n plain k first
      ∙ ap (λ (l : ℕ). some l) (sym e) in
    let end = eoi-Like p q i acked eoi in
    let free : p.isr i ≡ false =
      at_rest p i plain (ap (λ (l : ℕ). blocked p l) e ∙ first.1 n (omega arith) (omega arith)) in
    (vector, end, (λ j. ap (λ (g : Pic). g.isr j) end ∙ clear-set p.isr i j free))
