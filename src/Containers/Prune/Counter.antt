-- ===== src/Containers/Prune/Counter.antt =====
-- What the counter and the flag stand for.
use c_faas_emulator.Common.{ℕ, ◌+◌, Bool, true, false, ◌++◌, ◌≡◌, refl, ap, sym, ◌∙◌}
use c_faas_emulator.Common.Int.{ℤ, pos, int_laws, parts_of_eq}
use c_faas_emulator.Common.Sums.{count_by, count_by-middle}
use c_faas_emulator.Containers.Prune.{
  Creator, outside, checked, creating, Pruner, sleeping, flagged, pruning, stopped, PruneState,
  Move, passes, counts, leaves, Prunes, returns, raises, begins, ends, Step, creator, prunes, Steps,
  start, later,
}

abbrev pub is_creating : Creator → ℕ
is_creating outside = 0
is_creating checked = 0
is_creating creating = 1

abbrev pub raised : Pruner → Bool
raised sleeping = false
raised flagged = true
raised pruning = true
raised stopped = false

pub record Counter (s : PruneState) : Type 0 where
  pub count : s.creation_in_progress ≡ pos (count_by is_creating s.creators)
  pub flag : s.prune_in_progress ≡ raised s.pruner

Move-count :
    {flag : Bool} {n n' : ℤ} {c c' : Creator} (others : ℕ)
    → Move flag n c n' c'
    → n ≡ pos (others + is_creating c)
    → n' ≡ pos (others + is_creating c')
Move-count others passes e = e
Move-count others counts e = omega (int_laws, parts_of_eq e)
Move-count others leaves e = omega (int_laws, parts_of_eq e)

Prunes-flag :
    {n : ℤ} {flag flag' : Bool} {p p' : Pruner}
    → Prunes n flag p flag' p'
    → flag ≡ raised p
    → flag' ≡ raised p'
Prunes-flag returns e = e
Prunes-flag (raises _) e = refl
Prunes-flag begins e = e
Prunes-flag ends e = refl

Step-Counter : (s t : PruneState) → Step s t → Counter s → Counter t
Step-Counter _ _ (creator {n} {n'} {c} {c'} p before after m) v =
    let was : n ≡ pos (count_by is_creating (before ++ after) + is_creating c) =
      v.count ∙ ap pos (count_by-middle is_creating before after c) in
    record {
      count =
          Move-count (count_by is_creating (before ++ after)) m was
          ∙ ap pos (sym (count_by-middle is_creating before after c'));
      flag = v.flag;
    }
Step-Counter _ _ (prunes cs m) v = record { count = v.count; flag = Prunes-flag m v.flag }

-- If `creation_in_progress` is the number of workers that create a container, and
-- `prune_in_progress` is set exactly while the pruning thread has its flag raised, waiting or
-- pruning, then both still hold after any steps of the workers and of the thread.
pub Steps-Counter : (s t : PruneState) → Steps s t → Counter s → Counter t
Steps-Counter s _ start v = v
Steps-Counter s t (later {t = u} past step) v = Step-Counter u t step (Steps-Counter s u past v)
