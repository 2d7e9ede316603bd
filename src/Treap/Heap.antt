-- ===== src/Treap/Heap.antt =====
-- The heap order of the priorities, and the invariant of the whole treap.
use nre.Base.{
  ℕ, ◌^◌, ◌≤◌, ◌≡◌, arith, some, none, ltb, ◌==◌, if◌then◌else◌, add32, IfSome, IfSome-map,
  if_intro,
}
use nre.Treap.{
  Treap, Node, Tree, leaf, node, init, split, find, insert_at, remove_from, remove_at, insert,
  remove,
}
use nre.Treap.Order.{
  Every, Fresh, IsSearchTree, split-Every, insert_at-Every, remove_from-Every, remove_at-Every,
  insert_at-IsSearchTree, remove_at-IsSearchTree, both,
}
use nre.Treap.Find.{OwnsId, find-insert_at, find-remove_at}

-- A signed priority in the order of the natural numbers.
abbrev pub rank : ℕ → ℕ
rank p = add32 p (2 ^ 31)

-- No node of the tree has a smaller priority.
abbrev pub Least : ℕ → Tree → Type 0
Least p = Every (λ x. rank p ≤ rank x.prio)

abbrev pub IsHeap : Tree → Type 0
IsHeap leaf = Unit
IsHeap (node n l r) = Least n.prio l × Least n.prio r × IsHeap l × IsHeap r

Least-mono : (p q : ℕ) (t : Tree) → rank p ≤ rank q → Least q t → Least p t
Least-mono p q leaf h e = tt
Least-mono p q (node n l r) h e = (omega arith, Least-mono p q l h e.1, Least-mono p q r h e.2)

split-IsHeap : (t : Tree) (k : ℕ) → IsHeap t → IsHeap (split t k).0 × IsHeap (split t k).1
unfolding split
split-IsHeap leaf k h = (tt, tt)
split-IsHeap (node n a b) k h = ground (
  arith,
  split-IsHeap a k,
  split-IsHeap b k,
  split-Every (λ x. rank n.prio ≤ rank x.prio) a k,
  split-Every (λ x. rank n.prio ≤ rank x.prio) b k,
)

insert_at-IsHeap : (t : Tree) (x : Node) → IsHeap t → IsHeap (insert_at t x)
unfolding insert_at
insert_at-IsHeap leaf x h = (tt, tt, tt, tt)
insert_at-IsHeap (node n a b) x h = ground (
  arith,
  insert_at-IsHeap a x,
  insert_at-IsHeap b x,
  insert_at-Every (λ y. rank n.prio ≤ rank y.prio) a x,
  insert_at-Every (λ y. rank n.prio ≤ rank y.prio) b x,
  split-IsHeap (node n a b) x.key h,
  split-Every (λ y. rank x.prio ≤ rank y.prio) (node n a b) x.key,
  Least-mono x.prio n.prio a,
  Least-mono x.prio n.prio b,
)

remove_from-IsHeap : (l r : Tree) → IsHeap l → IsHeap r → IsHeap (remove_from l r)
unfolding remove_from
remove_from-IsHeap leaf r h k = k
remove_from-IsHeap (node a al ar) leaf h k = h
remove_from-IsHeap (node a al ar) (node b bl br) h k = ground (
  arith,
  remove_from-IsHeap ar (node b bl br),
  remove_from-IsHeap (node a al ar) bl,
  remove_from-Every (λ y. rank a.prio ≤ rank y.prio) ar (node b bl br),
  remove_from-Every (λ y. rank b.prio ≤ rank y.prio) (node a al ar) bl,
  Least-mono a.prio b.prio bl,
  Least-mono a.prio b.prio br,
  Least-mono b.prio a.prio al,
  Least-mono b.prio a.prio ar,
)

remove_at-IsHeap : (t : Tree) (id k : ℕ) → IsHeap t → IfSome IsHeap (remove_at t id k)
unfolding remove_at
remove_at-IsHeap leaf id k s = tt
remove_at-IsHeap (node n l r) id k s =
    if_intro (IfSome IsHeap) (n.id == id) (λ e. remove_from-IsHeap l r s.2 s.3)
      (λ e.
        if_intro (IfSome IsHeap) (ltb k n.key)
          (λ e'.
            IfSome-map (λ t. Least n.prio t × IsHeap t) IsHeap (λ t. node n t r)
              (λ t p. (p.0, s.1, p.1, s.3)) (remove_at l id k)
              (both (Least n.prio) IsHeap (remove_at l id k)
                (remove_at-Every (λ x. rank n.prio ≤ rank x.prio) l id k s.0)
                (remove_at-IsHeap l id k s.2)))
          (λ e'.
            IfSome-map (λ t. Least n.prio t × IsHeap t) IsHeap (λ t. node n l t)
              (λ t p. (s.0, p.0, s.2, p.1)) (remove_at r id k)
              (both (Least n.prio) IsHeap (remove_at r id k)
                (remove_at-Every (λ x. rank n.prio ≤ rank x.prio) r id k s.1)
                (remove_at-IsHeap r id k s.3))))

-- The keys differ and are in search order, and the priorities are in heap order.
pub record IsValid (t : Treap) : Type 0 where
  pub search : IsSearchTree t.root
  pub heap : IsHeap t.root

pub init-IsValid : IsValid init
unfolding init
init-IsValid = record { search = tt; heap = tt }

-- For a treap in search and heap order and a key that it does not hold: `insert` keeps both
-- orders, whatever the next priority is.
pub insert-IsValid :
    (t : Treap) (id key : ℕ) → IsValid t → Fresh key t.root → IsValid (insert t id key)
unfolding insert
insert-IsValid t id key v f = record {
  search = insert_at-IsSearchTree t.root _ v.search f;
  heap = insert_at-IsHeap t.root _ v.heap;
}

-- For a treap in search and heap order and a key that it does not hold: after `insert` the key finds
-- the new node, and every other key finds what it found before.
pub find-insert :
    (t : Treap) (id key j : ℕ)
    → IsValid t
    → Fresh key t.root
    → find (insert t id key).root j ≡ (if key == j then some id else find t.root j)
unfolding insert
find-insert t id key j v f =
    find-insert_at t.root (record { id = id; key = key; prio = t.prio }) j v.search f

-- For a treap in search and heap order in which `find` meets a node under its key, and in which no
-- node with another key has that node's address: `remove` of the node succeeds and keeps both
-- orders, the key then finds nothing, and every other key finds what it found before.
pub find-remove :
    (t : Treap) (id key : ℕ)
    → IsValid t
    → OwnsId id key t.root
    → find t.root key ≡ some id
    → (u : Treap) × (remove t id key ≡ some u)
      × IsValid u
      × ((j : ℕ) → find u.root j ≡ (if j == key then none else find t.root j))
unfolding remove
find-remove t id key v o f =
    let (root, e, g) = find-remove_at t.root id key v.search o f in
    (
      record t { root = root },
      rw (e, remove),
      record {
        search = rw e at (remove_at-IsSearchTree t.root id key v.search);
        heap = rw e at (remove_at-IsHeap t.root id key v.heap);
      },
      g,
    )
