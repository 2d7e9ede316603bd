-- ===== src/Treap/Find.antt =====
-- `find` after `insert` and after `remove`.
use nre.Base.{
  ℕ, ◌≤◌, ◌<◌, ◌≡◌, refl, arith, none, some, ltb, ◌==◌, if◌then◌else◌, Bool-cases, inl, inr,
}
use native.Mathlib.Decide.{dec_lt, ℕ_discrete}
use nre.Treap.{Node, Tree, leaf, node, slt, find, split, insert_at, remove_from, remove_at}
use nre.Treap.Order.{Every, Below, Above, IsSearchTree, Fresh}

pub find-Below : (t : Tree) (a k : ℕ) → Below a t → a ≤ k → find t k ≡ none
unfolding find
find-Below leaf a k b h = refl
find-Below (node n l r) a k b h = ground (arith, find-Below l a k, find-Below r a k)

pub find-Above : (t : Tree) (a k : ℕ) → Above a t → k ≤ a → find t k ≡ none
unfolding find
find-Above leaf a k b h = refl
find-Above (node n l r) a k b h = ground (arith, find-Above l a k, find-Above r a k)

-- A split keeps what is found, on the side of the key where it belongs.
find-split :
    (t : Tree) (k j : ℕ)
    → IsSearchTree t
    → Fresh k t
    → (j < k → find (split t k).0 j ≡ find t j) × (k < j → find (split t k).1 j ≡ find t j)
unfolding find split
find-split leaf k j s f = (λ h. refl, λ h. refl)
find-split (node n a b) k j s f = (
  λ h. ground (arith, find-split a k j s.2 f.1, find-split b k j s.3 f.2, find-Above b n.key j s.1),
  λ h. ground (arith, find-split a k j s.2 f.1, find-split b k j s.3 f.2, find-Below a n.key j s.0),
)

pub find-insert_at :
    (t : Tree) (x : Node) (j : ℕ)
    → IsSearchTree t
    → Fresh x.key t
    → find (insert_at t x) j ≡ (if x.key == j then some x.id else find t j)
unfolding find insert_at
find-insert_at leaf x j s f = ground arith
find-insert_at (node n a b) x j s f = ground (
  arith,
  find-insert_at a x j s.2 f.1,
  find-insert_at b x j s.3 f.2,
  find-split (node n a b) x.key j s f,
)

-- What takes the place of a removed node has the nodes of its two subtrees.
find-remove_from :
    (l r : Tree) (k j : ℕ)
    → Below k l
    → Above k r
    → IsSearchTree l
    → IsSearchTree r
    → find (remove_from l r) j ≡ (if ltb j k then find l j else if j == k then none else find r j)
unfolding find remove_from
find-remove_from leaf r k j h h' s s' = ground (arith, find-Above r k j h')
find-remove_from (node a al ar) leaf k j h h' s s' = ground (arith, find-Below (node a al ar) k j h)
find-remove_from (node a al ar) (node b bl br) k j h h' s s' =
    elim (Bool-cases (slt a.prio b.prio)) [
      | inl e ↦
          rw (e, remove_from) (ground (arith, find-remove_from ar (node b bl br) k j h.2 h' s.3 s'))
      | inr e ↦
          rw (e, remove_from) (ground (arith, find-remove_from (node a al ar) bl k j h h'.1 s s'.2))
    ]

-- No node but the one with the given key stands at the given address.
abbrev pub OwnsId : ℕ → ℕ → Tree → Type 0
OwnsId id key = Every (λ n. n.id ≡ id → n.key ≡ key)

-- A node that `find` meets under its key is taken out, and no other key is affected.
pub find-remove_at :
    (t : Tree) (id key : ℕ)
    → IsSearchTree t
    → OwnsId id key t
    → find t key ≡ some id
    → (u : Tree) × (remove_at t id key ≡ some u)
      × ((j : ℕ) → find u j ≡ (if j == key then none else find t j))
unfolding find remove_at
find-remove_at leaf id key s o f = absurd (cc f)
find-remove_at (node n l r) id key s o f = elim (ℕ_discrete n.key key) [
  | yes e ↦ (
    remove_from l r,
    ground arith,
    λ j. ground (arith, find-remove_from l r n.key j s.0 s.1 s.2 s.3),
  )
  | no ne ↦ elim (dec_lt key n.key) [
    | yes lt ↦
        let (u, e, g) = find-remove_at l id key s.2 o.1 (ground arith) in
        (node n u r, ground (arith, e), λ j. ground (arith, g j, find-Below l n.key j s.0))
    | no ge ↦
        let (u, e, g) = find-remove_at r id key s.3 o.2 (ground arith) in
        (node n l u, ground (arith, e), λ j. ground (arith, g j, find-Above r n.key j s.1))
  ]
]
