-- ===== src/Containers/Prune.antt =====
-- How `pruneDisk` of source/disk_cache.c and `createContainer` of source/containers.c keep out of
-- each other's way: the flag `prune_in_progress` and the counter `creation_in_progress`, one step
-- for each section under `prune_lock` or `creation_lock`.
pub mod Counter
pub mod Exclusion
use c_faas_emulator.Common.{Bool, true, false, List, [], ◌∷◌, ◌++◌, ◌≡◌, ◌≢◌}
use c_faas_emulator.Common.Int.{ℤ, pos, negsuc, ◌+ℤ◌, ◌-ℤ◌}

-- A worker: outside, past the wait for the flag but not counted yet, or counted, until
-- `startContainer` or `restoreCheckpoint` takes it off the counter.
pub data Creator : Type 0 where
  outside checked creating : Creator

-- The thread of `pruneDisk`: in its sleep, with the flag raised, in `pruneContainers`, or returned.
pub data Pruner : Type 0 where
  sleeping flagged pruning stopped : Pruner

pub record PruneState : Type 0 where
  pub creation_in_progress : ℤ
  pub prune_in_progress : Bool
  pub pruner : Pruner
  pub creators : List Creator

-- The value by which `endPools` asks the thread to return.
abbrev pub ended_mark : ℤ
ended_mark = negsuc 99

-- A step of one worker: what becomes of the counter, given the flag.
pub data Move : Bool → ℤ → Creator → ℤ → Creator → Type 0 where
  passes : {n : ℤ} → Move false n outside n checked
  counts : {flag : Bool} {n : ℤ} → Move flag n checked (n +ℤ pos 1) creating
  leaves : {flag : Bool} {n : ℤ} → Move flag n creating (n -ℤ pos 1) outside

-- A step of the pruning thread: counter, flag and place.
pub data Prunes : ℤ → Bool → Pruner → Bool → Pruner → Type 0 where
  returns : {flag : Bool} → Prunes ended_mark flag sleeping flag stopped
  raises : {n : ℤ} {flag : Bool} → n ≢ ended_mark → Prunes n flag sleeping true flagged
  begins : {flag : Bool} → Prunes (pos 0) flag flagged flag pruning
  ends : {n : ℤ} {flag : Bool} → Prunes n flag pruning false sleeping

pub data Step : PruneState → PruneState → Type 0 where
  creator :
      {n n' : ℤ} {flag : Bool} {c c' : Creator} (p : Pruner) (before after : List Creator)
      → Move flag n c n' c'
      → Step
          (record {
            creation_in_progress = n;
            prune_in_progress = flag;
            pruner = p;
            creators = before ++ c ∷ after;
          })
          (record {
            creation_in_progress = n';
            prune_in_progress = flag;
            pruner = p;
            creators = before ++ c' ∷ after;
          })
  prunes :
      {n : ℤ} {flag flag' : Bool} {p p' : Pruner} (cs : List Creator)
      → Prunes n flag p flag' p'
      → Step
          (record { creation_in_progress = n; prune_in_progress = flag; pruner = p; creators = cs })
          (record {
            creation_in_progress = n;
            prune_in_progress = flag';
            pruner = p';
            creators = cs;
          })

pub data Steps (s : PruneState) : PruneState → Type 0 where
  start : Steps s s
  later : {t u : PruneState} → Steps s t → Step t u → Steps s u
