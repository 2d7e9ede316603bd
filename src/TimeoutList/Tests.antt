-- ===== src/TimeoutList/Tests.antt =====
-- The timeout list at concrete states.
use nre.Base.{ℕ, ◌≡◌, refl, arith, true, false, some, List, [], ◌∷◌, update, ◌==◌}
use nre.TimeoutList.{TimeoutList, never, cancel, timeout, request}
use nre.TimeoutList.Queue.{Holds, contains, waits_behind, without, enqueue}
use nre.TimeoutList.Cancel.{cancel_refines}
use nre.TimeoutList.Request.{request_refines}

-- The entries 2 and 1 are queued, due at 50 and at 100.
abbrev two : TimeoutList
two = record {
  next = update (update (update (λ i. i) 0 2) 2 1) 1 0;
  prev = update (update (update (λ i. i) 0 1) 1 2) 2 0;
  timeout_of = update (update (update (λ i. 0) 0 never) 1 100) 2 50;
  data_of = update (λ i. 0) 2 0x1234;
  is_free = update (update (λ i. true) 1 false) 2 false;
}

abbrev queue : List ℕ
queue = 2 ∷ 1 ∷ []

two-Holds : Holds two queue
two-Holds = record {
  chain = (refl, refl, (refl, refl, (refl, refl)));
  distinct = (
    ((λ e. absurd (omega arith)), ((λ e. absurd (omega arith)), tt)),
    (((λ e. absurd (omega arith)), tt), (tt, tt)),
  );
  alone = λ x h a. (
    let a0 = a.0 in let a1 = a.1.0 in ground arith,
    let a0 = a.0 in let a1 = a.1.0 in ground arith,
  );
  sorted = ((omega arith, tt), (tt, tt));
  bounded = (omega arith, (omega arith, tt));
  last = refl;
}

cancel_refines_example : ((cancel two 1).0 ≡ true) × Holds (cancel two 1).1 (2 ∷ [])
unfolding without waits_behind contains
cancel_refines_example = cancel_refines two 1 queue (λ e. absurd (omega arith)) two-Holds

request_refines_example :
    (t' : TimeoutList) × (request 3 two 3 70 ≡ some (timeout t' == timeout two, t'))
    × Holds t' (2 ∷ 3 ∷ 1 ∷ [])
    × (t'.timeout_of ≡ update two.timeout_of 3 70)
unfolding without enqueue
request_refines_example =
    request_refines 3 two 3 70 queue (λ e. absurd (omega arith)) (omega arith) (omega arith)
      two-Holds
