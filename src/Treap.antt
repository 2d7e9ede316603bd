-- ===== src/Treap.antt =====
-- nre/include/collection/Treap.h. The nodes that the links `_left` and `_right` reach from `_root`
-- form a tree; `id` stands for the address of a node. Priorities are the bit patterns of 32-bit
-- `int`s, compared as signed numbers.
pub mod Order
pub mod Find
pub mod Heap
mod Tests
use mathlib.Core.Option
use nre.Base.{
  ℕ, ◌+◌, ◌^◌, Bool, true, false, ◌&&◌, Option, none, some, ltb, ◌==◌, if◌then◌else◌, add32,
}

pub record Node : Type 0 where
  pub id : ℕ
  pub key : ℕ
  pub prio : ℕ

pub data Tree : Type 0 where
  leaf : Tree
  node : Node → Tree → Tree → Tree

-- `_root`, and the priority of the next node to insert.
pub record Treap : Type 0 where
  pub root : Tree
  pub prio : ℕ

pub init : Treap
init = record { root = leaf; prio = 314159265 }

-- `a < b` of two `int`s
abbrev pub slt : ℕ → ℕ → Bool
slt a b = ltb (add32 a (2 ^ 31)) (add32 b (2 ^ 31))

-- The address of the node that the search meets.
unfoldable pub find : Tree → ℕ → Option ℕ
find leaf key = none
find (node n l r) key =
    let left = find l key in
    let right = find r key in
    if n.key == key then some n.id else if ltb key n.key then left else right

-- The loop that hands the nodes of a subtree to the left and to the right of a key.
unfoldable pub split : Tree → ℕ → Tree × Tree
split leaf key = (leaf, leaf)
split (node n a b) key =
    let low = split a key in
    let high = split b key in
    if ltb key n.key then (low.0, node n low.1 b) else (node n a high.0, high.1)

-- The descent by priority, and the new node above the parts of what stands there.
unfoldable pub insert_at : Tree → Node → Tree
insert_at leaf x = node x leaf leaf
insert_at (node n l r) x =
    let left = insert_at l x in
    let right = insert_at r x in
    let parts = split (node n l r) x.key in
    if slt n.prio x.prio
    then (if ltb x.key n.key then node n left r else node n l right)
    else node x parts.0 parts.1

-- `insert` of the node at the address `id` with its key.
unfoldable pub insert : Treap → ℕ → ℕ → Treap
insert t id key = record {
  root = insert_at t.root (record { id = id; key = key; prio = t.prio });
  prio = add32 t.prio 0x9e3779b9;
}

-- The rotations that move a node with these two subtrees down until it has one child at most, and
-- take it out: what then stands in its place.
unfoldable pub remove_from : Tree → Tree → Tree
remove_from leaf r = r
remove_from (node a al ar) leaf = node a al ar
remove_from (node a al ar) (node b bl br) = elim (slt a.prio b.prio) [
  | true ↦ node a al (remove_from ar (node b bl br))
  | false ↦ node b (remove_from (node a al ar) bl) br
]

-- The descent to the node with the address `id` by its key; `none` where the search leaves the tree
-- without meeting it, which the source does not check.
unfoldable pub remove_at : Tree → ℕ → ℕ → Option Tree
remove_at leaf id key = none
remove_at (node n l r) id key =
    let left = remove_at l id key in
    let right = remove_at r id key in
    if n.id == id
    then some (remove_from l r)
    else if ltb key n.key
    then Option.map (λ t. node n t r) left
    else Option.map (λ t. node n l t) right

unfoldable pub remove : Treap → ℕ → ℕ → Option Treap
remove t id key = elim (remove_at t.root id key) [
  | none ↦ none
  | some root ↦ some (record t { root = root })
]
