-- ===== src/Containers/Prune/Exclusion.antt =====
-- How far pruning and creation exclude each other.
use c_faas_emulator.Common.{ℕ, ◌≤◌, Bool, true, List, [], ◌∷◌, ◌≡◌, arith}
use c_faas_emulator.Common.Int.{ℤ}
use c_faas_emulator.Common.Sums.{count_by, count_by-middle}
use c_faas_emulator.Containers.Prune.{
  Creator, outside, checked, creating, PruneState, Move, passes, counts, leaves, Step, creator,
  prunes,
}
use c_faas_emulator.Containers.Prune.Counter.{is_creating}

-- Past the wait for the flag.
abbrev pub is_inside : Creator → ℕ
is_inside outside = 0
is_inside checked = 1
is_inside creating = 1

abbrev pub inside : PruneState → ℕ
inside s = count_by is_inside s.creators

-- A run during which the flag stays up.
pub data StepsRaised (s : PruneState) : PruneState → Type 0 where
  begin : StepsRaised s s
  next :
      {t u : PruneState} → StepsRaised s t → t.prune_in_progress ≡ true → Step t u → StepsRaised s u

Move-inside :
    {flag : Bool} {n n' : ℤ} {c c' : Creator}
    → Move flag n c n' c'
    → flag ≡ true
    → is_inside c' ≤ is_inside c
Move-inside passes e = cc
Move-inside counts e = omega arith
Move-inside leaves e = omega arith

Step-inside : (s t : PruneState) → Step s t → s.prune_in_progress ≡ true → inside t ≤ inside s
Step-inside _ _ (creator {c} {c'} p before after m) up = omega (
  arith,
  Move-inside m up,
  count_by-middle is_inside before after c,
  count_by-middle is_inside before after c',
)
Step-inside _ _ (prunes cs m) up = omega arith

StepsRaised-inside : (s t : PruneState) → StepsRaised s t → inside t ≤ inside s
StepsRaised-inside s _ begin = omega arith
StepsRaised-inside s t (next {t = u} past up step) =
    omega (arith, StepsRaised-inside s u past, Step-inside u t step up)

creating-inside : (cs : List Creator) → count_by is_creating cs ≤ count_by is_inside cs
creating-inside [] = omega arith
creating-inside (outside ∷ cs) = omega (arith, creating-inside cs)
creating-inside (checked ∷ cs) = omega (arith, creating-inside cs)
creating-inside (creating ∷ cs) = omega (arith, creating-inside cs)

-- In a run during which the flag stays up, the workers that create a container are never more
-- than those that were past the wait for the flag at the start of the run. So none creates if
-- all were outside then.
pub StepsRaised-creating :
    (s t : PruneState) → StepsRaised s t → count_by is_creating t.creators ≤ inside s
StepsRaised-creating s t run = omega (arith, StepsRaised-inside s t run, creating-inside t.creators)
