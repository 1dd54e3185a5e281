-- ===== src/Tests/Sampling.antt =====
-- A sample of four prompts in two categories.
use one_gl.Prelude.{
  ℕ, ◌≡◌, Bool, true, false, none, some, List, [], ◌∷◌, ◌++◌, map, String, min, All, sum_by,
}
use mathlib.Core.List.{Perm}
use one_gl.Sampling.Quota.{Group, capacity, allocate_quotas}
use one_gl.Sampling.Quota.Shares.{IsShare, quotas}
use one_gl.Sampling.Quota.Allocated.{allocate_quotas-IsShare}
use one_gl.Sampling.Select.{Prompt, select_prompts}
use one_gl.Sampling.Select.Partition.{label, select_prompts-perm}

abbrev digest : ℕ → List ℕ
digest n = 3000000000 ∷ 7 ∷ 1000000000 ∷ 4294967295 ∷ 0 ∷ 5 ∷ 2500000000 ∷ n ∷ []

abbrev never_after : String → String → Bool
never_after a b = false

abbrev prompts : List Prompt
prompts =
    record { id = 1; text = "p1"; category = some "a" }
    ∷ record { id = 2; text = "p2"; category = none }
    ∷ record { id = 3; text = "p3"; category = some "a" }
    ∷ record { id = 4; text = "p4"; category = some "a" }
    ∷ []

abbrev groups : List Group
groups = ("a", 3) ∷ ("b", 5) ∷ ("c", 1) ∷ []

allocate_quotas-IsShare_example :
    let es = allocate_quotas never_after 4 groups in
    (quotas es ≡ min 4 (sum_by capacity groups)) × All (IsShare 4 9 groups) es
allocate_quotas-IsShare_example = allocate_quotas-IsShare never_after 4 groups

select_prompts-perm_example :
    (rest : List Prompt) × Perm
      (select_prompts never_after digest true 2 prompts ++ rest)
      (map label prompts)
select_prompts-perm_example = select_prompts-perm never_after digest true 2 prompts
