-- ===== src/Treap/Tests.antt =====
-- A treap of three nodes.
use nre.Base.{ℕ, ◌≡◌, refl, arith, some, none, if◌then◌else◌, ◌==◌}
use nre.Treap.{Treap, init, find, split, insert_at, insert, remove}
use nre.Treap.Heap.{IsValid, find-insert, find-remove}

abbrev one : Treap
one = insert init 1 50

abbrev three : Treap
three = insert (insert one 2 70) 3 60

lookups :
    (find three.root 60 ≡ some 3) × (find three.root 70 ≡ some 2) × (find three.root 61 ≡ none)
unfolding init insert insert_at split find
lookups = (refl, refl, refl)

one-IsValid : IsValid one
unfolding init insert insert_at
one-IsValid = omega arith

three-IsValid : IsValid three
unfolding init insert insert_at split
three-IsValid = omega arith

find-insert_example :
    find (insert one 2 70).root 50 ≡ (if 70 == 50 then some 2 else find one.root 50)
unfolding init insert insert_at
find-insert_example = find-insert one 2 70 50 one-IsValid (omega arith)

find-remove_example :
    (u : Treap) × (remove three 3 60 ≡ some u)
    × IsValid u
    × ((j : ℕ) → find u.root j ≡ (if j == 60 then none else find three.root j))
unfolding init insert insert_at split find
find-remove_example = find-remove three 3 60 three-IsValid (ground arith) refl
