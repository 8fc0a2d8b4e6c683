-- ===== src/A2a/Metadata/Fuel.antt =====
-- The containers of a memory are fuel enough, and what the check decides.
use agentops_open_course.Prelude.{ℕ, zero, suc, ◌+◌, List, if◌then◌else◌}
use agentops_open_course.A2a.Metadata.{at_place, Memory, visits}

-- The places below `n` whose identity is not being visited.
unvisited : Memory → ℕ → List ℕ → ℕ
unvisited memory zero visiting = 0
unvisited memory (suc n) visiting =
    (if visits visiting (at_place memory n).identity then 0 else 1) + unvisited memory n visiting
