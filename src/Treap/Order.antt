-- ===== src/Treap/Order.antt =====
-- The search order: keys to the left of a node are smaller, keys to its right are greater.
use nre.Base.{ℕ, ◌≤◌, ◌<◌, ◌≢◌, arith, Option, none, some, ltb, ◌==◌, IfSome, IfSome-map, if_intro}
use nre.Treap.{Node, Tree, leaf, node, split, insert_at, remove_from, remove_at}

-- A property of every node of a tree.
abbrev pub Every {ℓ} : (Node → Type ℓ) → Tree → Type ℓ
Every P leaf = Unit
Every P (node n l r) = P n × Every P l × Every P r

abbrev pub Below : ℕ → Tree → Type 0
Below k = Every (λ n. n.key < k)

abbrev pub Above : ℕ → Tree → Type 0
Above k = Every (λ n. k < n.key)

-- All keys of the tree differ, and the tree is ordered by them.
abbrev pub IsSearchTree : Tree → Type 0
IsSearchTree leaf = Unit
IsSearchTree (node n l r) = Below n.key l × Above n.key r × IsSearchTree l × IsSearchTree r

abbrev pub Fresh : ℕ → Tree → Type 0
Fresh k = Every (λ n. n.key ≢ k)

module _ {ℓ} (P : Node → Type ℓ) where
  pub split-Every : (t : Tree) (k : ℕ) → Every P t → Every P (split t k).0 × Every P (split t k).1
  unfolding split
  split-Every leaf k h = (tt, tt)
  split-Every (node n a b) k h = ground (arith, split-Every a k, split-Every b k)

  pub insert_at-Every : (t : Tree) (x : Node) → Every P t → P x → Every P (insert_at t x)
  unfolding insert_at
  insert_at-Every leaf x h p = (p, tt, tt)
  insert_at-Every (node n a b) x h p =
      ground (arith, insert_at-Every a x, insert_at-Every b x, split-Every (node n a b) x.key h)

  pub remove_from-Every : (l r : Tree) → Every P l → Every P r → Every P (remove_from l r)
  unfolding remove_from
  remove_from-Every leaf r h k = k
  remove_from-Every (node a al ar) leaf h k = h
  remove_from-Every (node a al ar) (node b bl br) h k =
      ground (arith, remove_from-Every ar (node b bl br), remove_from-Every (node a al ar) bl)

  pub remove_at-Every : (t : Tree) (id k : ℕ) → Every P t → IfSome (Every P) (remove_at t id k)
  unfolding remove_at
  remove_at-Every leaf id k h = tt
  remove_at-Every (node n l r) id k h =
      if_intro (IfSome (Every P)) (n.id == id) (λ e. remove_from-Every l r h.1 h.2)
        (λ e.
          if_intro (IfSome (Every P)) (ltb k n.key)
            (λ e'.
              IfSome-map (Every P) (Every P) (λ t. node n t r) (λ t p. (h.0, p, h.2))
                (remove_at l id k) (remove_at-Every l id k h.1))
            (λ e'.
              IfSome-map (Every P) (Every P) (λ t. node n l t) (λ t p. (h.0, h.1, p))
                (remove_at r id k) (remove_at-Every r id k h.2)))

pub Below-mono : {a b : ℕ} (t : Tree) → a ≤ b → Below a t → Below b t
Below-mono leaf h p = tt
Below-mono (node n l r) h p = (omega arith, Below-mono l h p.1, Below-mono r h p.2)

pub Above-mono : {a b : ℕ} (t : Tree) → a ≤ b → Above b t → Above a t
Above-mono leaf h p = tt
Above-mono (node n l r) h p = (omega arith, Above-mono l h p.1, Above-mono r h p.2)

-- The two parts of a split are search trees on either side of the key.
pub split-order :
    (t : Tree) (k : ℕ)
    → IsSearchTree t
    → Fresh k t
    → Below k (split t k).0
      × Above k (split t k).1
      × IsSearchTree (split t k).0
      × IsSearchTree (split t k).1
unfolding split
split-order leaf k s f = (tt, tt, tt, tt)
split-order (node n a b) k s f = ground (
  arith,
  split-order a k,
  split-order b k,
  split-Every (λ x. x.key < n.key) a k,
  split-Every (λ x. n.key < x.key) b k,
  Below-mono {a = n.key} {b = k} a,
  Above-mono {a = k} {b = n.key} b,
)

pub insert_at-IsSearchTree :
    (t : Tree) (x : Node) → IsSearchTree t → Fresh x.key t → IsSearchTree (insert_at t x)
unfolding insert_at
insert_at-IsSearchTree leaf x s f = (tt, tt, tt, tt)
insert_at-IsSearchTree (node n a b) x s f = ground (
  arith,
  insert_at-IsSearchTree a x,
  insert_at-IsSearchTree b x,
  insert_at-Every (λ y. y.key < n.key) a x,
  insert_at-Every (λ y. n.key < y.key) b x,
  split-order (node n a b) x.key s f,
)

-- Two trees of which one lies below a key and the other above it.
pub remove_from-IsSearchTree :
    (l r : Tree) (k : ℕ)
    → Below k l
    → Above k r
    → IsSearchTree l
    → IsSearchTree r
    → IsSearchTree (remove_from l r)
unfolding remove_from
remove_from-IsSearchTree leaf r k h h' s s' = s'
remove_from-IsSearchTree (node a al ar) leaf k h h' s s' = s
remove_from-IsSearchTree (node a al ar) (node b bl br) k h h' s s' = ground (
  arith,
  remove_from-IsSearchTree ar (node b bl br) k,
  remove_from-IsSearchTree (node a al ar) bl k,
  remove_from-Every (λ y. a.key < y.key) ar (node b bl br),
  remove_from-Every (λ y. y.key < b.key) (node a al ar) bl,
  Above-mono {a = a.key} {b = k} (node b bl br),
  Below-mono {a = k} {b = b.key} (node a al ar),
)

-- Two properties of what an option holds, taken together.
pub both {ℓ κ μ} :
    {A : Type ℓ} (P : A → Type κ) (Q : A → Type μ) (o : Option A)
    → IfSome P o
    → IfSome Q o
    → IfSome (λ a. P a × Q a) o
both P Q none p q = tt
both P Q (some a) p q = (p, q)

pub remove_at-IsSearchTree :
    (t : Tree) (id k : ℕ) → IsSearchTree t → IfSome IsSearchTree (remove_at t id k)
unfolding remove_at
remove_at-IsSearchTree leaf id k s = tt
remove_at-IsSearchTree (node n l r) id k s =
    if_intro (IfSome IsSearchTree) (n.id == id)
      (λ e. remove_from-IsSearchTree l r n.key s.0 s.1 s.2 s.3)
      (λ e.
        if_intro (IfSome IsSearchTree) (ltb k n.key)
          (λ e'.
            IfSome-map (λ t. Below n.key t × IsSearchTree t) IsSearchTree (λ t. node n t r)
              (λ t p. (p.0, s.1, p.1, s.3)) (remove_at l id k)
              (both (Below n.key) IsSearchTree (remove_at l id k)
                (remove_at-Every (λ x. x.key < n.key) l id k s.0)
                (remove_at-IsSearchTree l id k s.2)))
          (λ e'.
            IfSome-map (λ t. Above n.key t × IsSearchTree t) IsSearchTree (λ t. node n l t)
              (λ t p. (s.0, p.0, s.2, p.1)) (remove_at r id k)
              (both (Above n.key) IsSearchTree (remove_at r id k)
                (remove_at-Every (λ x. n.key < x.key) r id k s.1)
                (remove_at-IsSearchTree r id k s.3))))
