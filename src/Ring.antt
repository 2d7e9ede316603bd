-- ===== src/Ring.antt =====
-- nre/include/ipc/Producer.h and nre/include/ipc/Consumer.h: the ring buffer in a dataspace that a
-- producer and a consumer share. The buffer is a function from positions; `max` is `_max`. The
-- semaphore is the kernel's, and only its calls' effect on the control flow is modelled.
pub mod Fifo
pub mod Interleaved
pub mod Size
mod Tests
use nre.Base.{
  ℕ, ◌+◌, ◌-◌, ◌/◌, Bool, true, false, bit_and, add64, sub64, ◌==◌, if◌then◌else◌, update, Option,
  none, some,
}
use nre.Math.{prev_pow2}

-- `Interface`
pub record Ring {ℓ} (T : Type ℓ) : Type ℓ where
  pub rpos : ℕ
  pub wpos : ℕ
  pub buffer : ℕ → T

-- The length that both constructors compute from the size of the dataspace, the size of the
-- interface's header and the size of an item.
pub rblength : ℕ → ℕ → ℕ → ℕ
rblength ds_size header item = prev_pow2 (sub64 ds_size header / item)

pub reset {ℓ} : {T : Type ℓ} → Ring T → Ring T
reset r = record r { rpos = 0; wpos = 0 }

-- `(pos + 1) & (_max - 1)`
pub next_pos : ℕ → ℕ → ℕ
next_pos max pos = bit_and (add64 pos 1) (sub64 max 1)

-- `Producer::current`: the position to write to, or `none` for the null pointer.
pub current {ℓ} : {T : Type ℓ} → ℕ → Ring T → Option ℕ
unfolding next_pos
current max r = if next_pos max r.wpos == r.rpos then none else some r.wpos

-- `Producer::next`, but for the semaphore, whose failure it ignores.
pub publish {ℓ} : {T : Type ℓ} → ℕ → Ring T → Ring T
unfolding next_pos
publish max r = record r { wpos = next_pos max r.wpos }

pub write {ℓ} : {T : Type ℓ} → Ring T → ℕ → T → Ring T
write r i v = record r { buffer = update r.buffer i v }

pub produce {ℓ} : {T : Type ℓ} → ℕ → Ring T → T → Bool × Ring T
unfolding current publish write
produce max r v = elim (current max r) [
  | none ↦ (false, r)
  | some i ↦ (true, publish max (write r i v))
]

pub has_data {ℓ} : {T : Type ℓ} → Ring T → Bool
has_data r = if r.rpos == r.wpos then false else true

-- What one turn of the loop of `Consumer::get` comes to: an item, the null pointer, or a wait at
-- the semaphore before the next turn. Where the wait throws, because the capabilities were revoked,
-- `get` returns the null pointer instead of the next turn.
pub data Got {ℓ} (T : Type ℓ) : Type ℓ where
  item : T → Got T
  stopped : Got T
  waits : Got T

pub get {ℓ} : {T : Type ℓ} → Bool → Ring T → Got T
get stop r = if r.rpos == r.wpos then (if stop then stopped else waits) else item (r.buffer r.rpos)

-- `Consumer::next`
pub release {ℓ} : {T : Type ℓ} → ℕ → Ring T → Ring T
unfolding next_pos
release max r = record r { rpos = next_pos max r.rpos }
