-- ===== src/Arguments/Words.antt =====
-- A command line of words with a space between each two.
use nre.Base.{
  ℕ, zero, suc, ◌+◌, ◌<◌, ◌≡◌, ◌≢◌, refl, sym, ap, ◌∙◌, arith, List, [], ◌∷◌, ◌++◌, append_assoc,
  map, length, length-append, ◌==◌, if◌then◌else◌, All,
}
use nre.Arguments.{space, walk_from, walk}

abbrev pub IsWord : List ℕ → Type 0
IsWord w = (w ≢ []) × All (λ c. (c ≢ 0) × (c ≢ space)) w

-- The words with a space between each two, and with a zero behind each.
unfoldable pub spaced : List ℕ → List (List ℕ) → List ℕ
spaced w [] = w
spaced w (v ∷ ws) = w ++ (space ∷ spaced v ws)

pub zeroed : List ℕ → List (List ℕ) → List ℕ → List ℕ
zeroed w [] rest = w ++ (0 ∷ rest)
zeroed w (v ∷ ws) rest = w ++ (0 ∷ zeroed v ws rest)

-- Where the words begin.
pub starts : ℕ → List ℕ → List (List ℕ) → List ℕ
starts pos w [] = pos ∷ []
starts pos w (v ∷ ws) = pos ∷ starts (pos + length w + 1) v ws

-- The string at an address: the characters up to a zero.
pub string_at : List ℕ → ℕ → List ℕ
string_at [] offset = []
string_at (c ∷ mem) (suc offset) = string_at mem offset
string_at (c ∷ mem) zero = let rest = string_at mem zero in if c == 0 then [] else c ∷ rest

-- What a step of the second loop gives.
abbrev onto : ℕ → List ℕ × List ℕ → List ℕ × List ℕ
onto c (offsets, text) = (offsets, c ∷ text)

abbrev pub ending : ℕ → List ℕ × List ℕ → List ℕ × List ℕ
ending begin (offsets, text) = (begin ∷ offsets, 0 ∷ text)

walk_from_next :
    (c : ℕ) (mem : List ℕ) (i begin pos : ℕ)
    → (c ≢ 0) × (c ≢ space)
    → 0 < i
    → walk_from i begin pos (c ∷ mem) ≡ onto c (walk_from (i + 1) begin (pos + 1) mem)
unfolding walk_from
walk_from_next c mem i begin pos h k = ground (arith, h, k)

walk_from_first :
    (c : ℕ) (mem : List ℕ) (begin pos : ℕ)
    → (c ≢ 0) × (c ≢ space)
    → walk_from 0 begin pos (c ∷ mem) ≡ onto c (walk_from 1 pos (pos + 1) mem)
unfolding walk_from
walk_from_first c mem begin pos h = ground (arith, h)

pub walk_from-space :
    (mem : List ℕ) (i begin pos : ℕ)
    → 0 < i
    → walk_from i begin pos (space ∷ mem) ≡ ending begin (walk_from 0 begin (pos + 1) mem)
unfolding walk_from
walk_from-space mem i begin pos k = ground (arith, k)

pub walk_from_end :
    (mem : List ℕ) (i begin pos : ℕ)
    → 0 < i
    → walk_from i begin pos (0 ∷ mem) ≡ (begin ∷ [], 0 ∷ mem)
unfolding walk_from
walk_from_end mem i begin pos k = ground (arith, k)

abbrev pub over : List ℕ → List ℕ × List ℕ → List ℕ × List ℕ
over w (offsets, text) = (offsets, w ++ text)

-- The loop over the rest of a word.
walk_from-word :
    (w mem : List ℕ) (i begin pos : ℕ)
    → All (λ c. (c ≢ 0) × (c ≢ space)) w
    → 0 < i
    → walk_from i begin pos (w ++ mem)
      ≡ over w (walk_from (i + length w) begin (pos + length w) mem)
walk_from-word [] mem i begin pos h k =
    ap (λ (n : ℕ). walk_from n begin pos mem) (omega arith)
    ∙ ap (λ (p : ℕ). over [] (walk_from (i + 0) begin p mem)) (omega arith)
walk_from-word (c ∷ w) mem i begin pos h k =
    walk_from_next c (w ++ mem) i begin pos h.0 k
    ∙ ap (λ (r : List ℕ × List ℕ). onto c r)
        (walk_from-word w mem (i + 1) begin (pos + 1) h.1 (omega (arith, k)))
    ∙ ap (λ (n : ℕ). over (c ∷ w) (walk_from n begin (pos + 1 + length w) mem)) (omega arith)
    ∙ ap (λ (p : ℕ). over (c ∷ w) (walk_from (i + suc (length w)) begin p mem)) (omega arith)

-- The loop from the beginning of a word on.
pub walk_from-begin :
    (c : ℕ) (w mem : List ℕ) (begin pos : ℕ)
    → All (λ c. (c ≢ 0) × (c ≢ space)) (c ∷ w)
    → walk_from 0 begin pos ((c ∷ w) ++ mem)
      ≡ over (c ∷ w) (walk_from (1 + length w) pos (pos + 1 + length w) mem)
walk_from-begin c w mem begin pos h =
    walk_from_first c (w ++ mem) begin pos h.0
    ∙ ap (λ (r : List ℕ × List ℕ). onto c r)
        (walk_from-word w mem 1 pos (pos + 1) h.1 (omega arith))

walk_from-spaced :
    (w : List ℕ) (ws : List (List ℕ)) (rest : List ℕ) (begin pos : ℕ)
    → IsWord w
    → All IsWord ws
    → walk_from 0 begin pos (spaced w ws ++ (0 ∷ rest)) ≡ (starts pos w ws, zeroed w ws rest)
unfolding spaced starts zeroed
walk_from-spaced [] ws rest begin pos h k = absurd (h.0 refl)
walk_from-spaced (c ∷ w) [] rest begin pos h k =
    walk_from-begin c w (0 ∷ rest) begin pos h.1
    ∙ ap (λ (r : List ℕ × List ℕ). over (c ∷ w) r)
        (walk_from_end rest (1 + length w) pos (pos + 1 + length w) (omega arith))
walk_from-spaced (c ∷ w) (v ∷ ws) rest begin pos h k =
    let mem = spaced v ws ++ (0 ∷ rest) in
    let p' = pos + 1 + length w in
    ap (λ (m : List ℕ). walk_from 0 begin pos m)
      (append_assoc (c ∷ w) (space ∷ spaced v ws) (0 ∷ rest))
    ∙ walk_from-begin c w (space ∷ mem) begin pos h.1
    ∙ ap (λ (r : List ℕ × List ℕ). over (c ∷ w) r)
        (walk_from-space mem (1 + length w) pos p' (omega arith))
    ∙ ap (λ (r : List ℕ × List ℕ). over (c ∷ w) (ending pos r))
        (walk_from-spaced v ws rest pos (p' + 1) k.0 k.1)
    ∙ ap (λ (p : ℕ). (pos ∷ starts p v ws, (c ∷ w) ++ (0 ∷ zeroed v ws rest))) (omega arith)

string_at-word :
    (w rest : List ℕ) → All (λ c. (c ≢ 0) × (c ≢ space)) w → string_at (w ++ (0 ∷ rest)) 0 ≡ w
unfolding string_at
string_at-word [] rest h = refl
string_at-word (c ∷ w) rest h = ground (arith, h, string_at-word w rest h.1)

string_at-append :
    (pre mem : List ℕ) (o : ℕ) → string_at (pre ++ mem) (length pre + o) ≡ string_at mem o
unfolding string_at
string_at-append [] mem o = ap (λ (n : ℕ). string_at mem n) (omega arith)
string_at-append (c ∷ pre) mem o =
    let e : suc (length pre) + o ≡ suc (length pre + o) = omega arith in
    ap (λ (n : ℕ). string_at (c ∷ (pre ++ mem)) n) e ∙ string_at-append pre mem o

-- The string at the end of what stands in front.
string_at_here :
    (pre w rest : List ℕ) → IsWord w → string_at (pre ++ (w ++ (0 ∷ rest))) (length pre) ≡ w
string_at_here pre w rest h =
    ap (λ (n : ℕ). string_at (pre ++ (w ++ (0 ∷ rest))) n) (omega arith)
    ∙ string_at-append pre (w ++ (0 ∷ rest)) 0
    ∙ string_at-word w rest h.1

map-starts :
    (pre w : List ℕ) (ws : List (List ℕ)) (rest : List ℕ)
    → IsWord w
    → All IsWord ws
    → map (string_at (pre ++ zeroed w ws rest)) (starts (length pre) w ws) ≡ w ∷ ws
unfolding zeroed starts
map-starts pre w [] rest h k = ap (λ (v : List ℕ). v ∷ []) (string_at_here pre w rest h)
map-starts pre w (v ∷ ws) rest h k =
    let pre' = pre ++ (w ++ (0 ∷ [])) in
    let mem = zeroed v ws rest in
    let e : pre' ++ mem ≡ pre ++ (w ++ (0 ∷ mem)) =
      append_assoc pre (w ++ (0 ∷ [])) mem
      ∙ ap (λ (m : List ℕ). pre ++ m) (append_assoc w (0 ∷ []) mem) in
    let n : length pre' ≡ length pre + length w + 1 =
      omega (arith, length-append pre (w ++ (0 ∷ [])), length-append w (0 ∷ [])) in
    let later = map-starts pre' v ws rest k.0 k.1 in
    rw (string_at_here pre w mem h) (
      ap (λ (m : List ℕ). w ∷ map (string_at m) (starts (length pre + length w + 1) v ws)) (sym e)
      ∙ ap (λ (p : ℕ). w ∷ map (string_at (pre' ++ mem)) (starts p v ws)) (sym n)
      ∙ ap (λ (l : List (List ℕ)). w ∷ l) later)

-- The loop over a command line of words stores where each word begins, and a zero behind each.
pub walk-spaced :
    (w : List ℕ) (ws : List (List ℕ)) (rest : List ℕ)
    → IsWord w
    → All IsWord ws
    → let (offsets, text) = walk (spaced w ws ++ (0 ∷ rest)) in
      map (string_at text) offsets ≡ w ∷ ws
unfolding walk
walk-spaced w ws rest h k =
    ap (λ (r : List ℕ × List ℕ). map (string_at r.1) r.0) (walk_from-spaced w ws rest 0 0 h k)
    ∙ map-starts [] w ws rest h k
