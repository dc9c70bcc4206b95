-- ===== src/Examples/Podman.antt =====
-- Runs of the parts that talk to Podman.
use c_faas_emulator.Common.{◌≤◌, true, false, some, [], ◌∷◌, ◌++◌, ◌≡◌, refl, arith}
use c_faas_emulator.Common.Int.{pos, ◌+ℤ◌}
use c_faas_emulator.Common.Name.{codes}
use c_faas_emulator.Common.Sums.{count_by}
use c_faas_emulator.Containers.{Attempt, create_container}
use c_faas_emulator.Containers.Buffers.{create_container-bodies}
use c_faas_emulator.Containers.Prune.{
  PruneState, outside, checked, creating, sleeping, flagged, pruning, Steps, start, later, creator,
  prunes, passes, counts, raises, begins,
}
use c_faas_emulator.Containers.Prune.Counter.{Counter, is_creating}
use c_faas_emulator.Containers.Prune.Exclusion.{
  inside, StepsRaised, begin, next, StepsRaised-creating,
}

abbrev refused_attempt : Attempt
refused_attempt = record { succeeds = false; chunks = codes "{" ∷ [] }

abbrev good_attempt : Attempt
good_attempt = record { succeeds = true; chunks = codes "{Id" ∷ codes "}" ∷ [] }

create_container-bodies_example :
    create_container (refused_attempt ∷ good_attempt ∷ []) ≡ some (codes "{" ++ codes "{Id}")
create_container-bodies_example =
    create_container-bodies (refused_attempt ∷ []) good_attempt [] (refl, tt) refl

-- A worker, with the pruning thread asleep.
abbrev quiet : PruneState
quiet = record {
  creation_in_progress = pos 0;
  prune_in_progress = false;
  pruner = sleeping;
  creators = outside ∷ [];
}

-- The worker is past its wait, and the flag goes up.
abbrev overtaken : PruneState
overtaken = record {
  creation_in_progress = pos 0;
  prune_in_progress = true;
  pruner = flagged;
  creators = checked ∷ [];
}

to_overtaken : Steps quiet overtaken
to_overtaken =
    later (later start (creator sleeping [] [] passes))
      (prunes (checked ∷ []) (raises (ground arith)))

quiet-Counter : Counter quiet
quiet-Counter = record { count = refl; flag = refl }

-- The prune begins, and the worker creates a container during it.
abbrev meeting : PruneState
meeting = record {
  creation_in_progress = pos 0 +ℤ pos 1;
  prune_in_progress = true;
  pruner = pruning;
  creators = creating ∷ [];
}

to_meeting : StepsRaised overtaken meeting
to_meeting =
    next (next begin refl (prunes (checked ∷ []) begins)) refl (creator pruning [] [] counts)

StepsRaised-creating_example : count_by is_creating meeting.creators ≤ inside overtaken
StepsRaised-creating_example = StepsRaised-creating overtaken meeting to_meeting
