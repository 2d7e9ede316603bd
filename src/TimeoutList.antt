-- ===== src/TimeoutList.antt =====
-- nre/include/util/TimeoutList.h. The array `_entries` is one function for each field of an entry;
-- a pointer to an entry is its index, and a pointer to the user's data is a number, 0 for null.
-- Timeouts are 64-bit numbers. `ENTRIES` is the parameter `entries`.
pub mod Links
pub mod Queue
pub mod Cancel
pub mod Request
pub mod Slots
mod Tests
use nre.Base.{
  ℕ, zero, suc, ◌+◌, ◌-◌, ◌^◌, Bool, true, false, not, Option, none, some, ltb, leb, ◌==◌,
  if◌then◌else◌, update,
}

pub record TimeoutList : Type 0 where
  pub next : ℕ → ℕ
  pub prev : ℕ → ℕ
  pub timeout_of : ℕ → ℕ
  pub data_of : ℕ → ℕ
  pub is_free : ℕ → Bool

-- `~0ULL`
abbrev pub never : ℕ
never = 2 ^ 64 - 1

pub init : TimeoutList
init = record {
  next = λ i. i;
  prev = λ i. i;
  timeout_of = update (λ i. 0) 0 never;
  data_of = λ i. 0;
  is_free = λ i. true;
}

-- The loop of `alloc` with so many entries left from index `i` on.
pub alloc_from : ℕ → ℕ → TimeoutList → ℕ → Option (ℕ × TimeoutList)
alloc_from zero i t dat = none
alloc_from (suc left) i t dat =
    let rest = alloc_from left (i + 1) t dat in
    if not (t.is_free i)
    then rest
    else some (i, record t { data_of = update t.data_of i dat; is_free = update t.is_free i false })

-- `none` is the exception E_CAPACITY.
pub alloc : ℕ → TimeoutList → ℕ → Option (ℕ × TimeoutList)
unfolding alloc_from
alloc entries t dat = alloc_from (entries - 1) 1 t dat

pub cancel : TimeoutList → ℕ → Bool × TimeoutList
cancel t nr =
    let res = not (t.next 0 == nr) in
    let prev' = update t.prev (t.next nr) (t.prev nr) in
    let next' = update t.next (prev' nr) (t.next nr) in
    if t.next nr == nr
    then (false, t)
    else (res, record t { next = update next' nr nr; prev = update prev' nr nr })

pub dealloc : TimeoutList → ℕ → Bool → Bool × TimeoutList
dealloc t nr withcancel =
    let t' = if withcancel then (cancel t nr).1 else t in
    if t.is_free nr
    then (false, t)
    else (true, record t' { is_free = update t'.is_free nr true; data_of = update t'.data_of nr 0 })

unfoldable pub timeout : TimeoutList → ℕ
timeout t = t.timeout_of (t.next 0)

-- The loop `do t = t->_next; while(t->_timeout < to);` from the entry `at`.
pub seek : ℕ → TimeoutList → ℕ → ℕ → Option ℕ
seek zero t to at = none
seek (suc fuel) t to at =
    let onwards = seek fuel t to (t.next at) in
    if ltb (t.timeout_of (t.next at)) to then onwards else some (t.next at)

-- The writes that put the entry `nr` before the entry `at`.
pub link_before : TimeoutList → ℕ → ℕ → ℕ → TimeoutList
link_before t nr to at =
    let next' = update t.next nr at in
    let prev' = update t.prev nr (t.prev at) in
    record t {
      timeout_of = update t.timeout_of nr to;
      next = update next' (prev' at) nr;
      prev = update prev' at nr;
    }

-- `none` is a search that the fuel does not reach the end of.
pub request : ℕ → TimeoutList → ℕ → ℕ → Option (Bool × TimeoutList)
request fuel t nr to =
    let old = timeout t in
    let t' = (cancel t nr).1 in
    elim (seek fuel t' to 0) [
      | none ↦ none
      | some at ↦ let t'' = link_before t' nr to at in some (timeout t'' == old, t'')
    ]

-- The entry whose timeout has passed, with its data; 0 if there is none.
pub trigger : TimeoutList → ℕ → ℕ × Option ℕ
trigger t now = if leb (timeout t) now then (t.next 0, some (t.data_of (t.next 0))) else (0, none)
