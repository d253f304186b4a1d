-- ===== src/Scheduler/Sources.antt =====
-- What julius/collection/scheduler.py reads of a `Source` (julius/collection/sources.py), and its
-- order of release, `_downstream_counts`.
use julius.Common.{
  ℕ, zero, suc, String, Bool, ◌&&◌, ◌||◌, List, [], ◌∷◌, map, elem, all, select, length, ltb, ◌==◌,
  string_eq, nat_eq, if◌then◌else◌,
}

pub record Source : Type 0 where
  pub name : String
  pub depends_on : List String
  pub services : List String
  pub parallel_safe : Bool

abbrev pub names : List Source → List String
names = map (λ s. s.name)

-- `xs <= ys` on sets
abbrev pub subset : List String → List String → Bool
subset xs ys = all (λ x. elem x ys) xs

-- Set union that keeps each name once.
unfoldable pub union : List String → List String → List String
union [] ys = ys
union (x ∷ xs) ys = let rest = union xs ys in if elem x rest then rest else x ∷ rest

-- children[name]
unfoldable pub children : List Source → String → List String
children sources name = names (select (λ s. elem name s.depends_on) sources)

-- The descendants that `descendants` collects, with the depth of the recursion as fuel: on a DAG a
-- chain of children is shorter than the list of sources.
unfoldable pub descendants : ℕ → List Source → List String → List String
unfolding union children
descendants zero sources found = []
descendants (suc depth) sources [] = []
descendants (suc depth) sources (n ∷ ns) =
    union (n ∷ descendants depth sources (children sources n)) (descendants (suc depth) sources ns)

-- `_downstream_counts`, at one source
unfoldable pub downstream_count : List Source → String → ℕ
unfolding descendants
downstream_count sources name =
    length (descendants (suc (length sources)) sources (children sources name))

-- positions[name]
unfoldable pub position : List Source → String → ℕ
position [] n = 0
position (s ∷ rest) n = if s.name == n then 0 else suc (position rest n)

-- key=lambda source: (-priorities[source.name], positions[source.name])
unfoldable pub released_before : List Source → Source → Source → Bool
unfolding downstream_count position
released_before sources s t =
    let p = downstream_count sources s.name in
    let q = downstream_count sources t.name in
    ltb q p || (p == q && ltb (position sources s.name) (position sources t.name))

-- key=lambda item: positions[running[item].name]
unfoldable pub applied_before : List Source → Source → Source → Bool
unfolding position
applied_before sources s t = ltb (position sources s.name) (position sources t.name)
