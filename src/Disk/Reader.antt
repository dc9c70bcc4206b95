-- ===== src/Disk/Reader.antt =====
-- The reader of the disk against the other threads, with containers: while it reads the file of a
-- function it does not hold `disk_lock`, and `in_use` of the node keeps `freeDisk` from taking the
-- node off. One step for each section under the lock; a `freeDisk` that has to wait for the reader
-- goes on after the step that ends the read.
use c_faas_emulator.Common.{
  ℕ, ◌≤◌, Bool, true, false, ◌&&◌, Option, none, some, List, [], ◌∷◌, ◌++◌, ◌≡◌, refl, ap, sym, ◌∙◌,
  subst, if◌then◌else◌, arith, All, All-suffix, Bool-cases, inl, inr,
}
use c_faas_emulator.Common.Int.{ℤ}
use c_faas_emulator.Common.Name.{Name}
use c_faas_emulator.Common.Outcome.{ok, ensured}
use c_faas_emulator.Common.Sums.{count_by, count_by-append}
use c_faas_emulator.Types.{Invocation, DiskNode, Effect, await_reader, remove, container_path}
use c_faas_emulator.Network.{NetCache}
use c_faas_emulator.Disk.{Disk, Freeing, find_in_disk, free_disk, link_node}
use c_faas_emulator.Disk.Lookup.{is_node, MovedToEnd, find_in_disk-cases}
use c_faas_emulator.Disk.Retrieve.{mark, holds, retrieve_begin}
use c_faas_emulator.Disk.Eviction.{eviction_effects, file_goes}
use c_faas_emulator.Disk.Eviction.Answer.{free_disk-Disposed}

abbrev pub waits : Effect → Bool
waits (await_reader f) = true
waits _ = false

-- No wait for a reader among the effects.
abbrev pub NoWait : List Effect → Type 0
NoWait = All λ e. waits e ≡ false

-- `reading` is the request whose file the reader reads.
pub record ReaderState : Type 0 where
  pub disk : Disk
  pub reading : Option Invocation

pub data Step : ReaderState → ReaderState → Type 0 where
  begins :
      (i : Invocation) (d : Disk)
      → holds i.hash_function d.head ≡ true
      → Step
          (record { disk = d; reading = none })
          (record { disk = (retrieve_begin i d).1; reading = some i })
  ends :
      (i : Invocation) (d : Disk)
      → Step
          (record { disk = d; reading = some i })
          (record { disk = record d { head = mark i.hash_function false d.head }; reading = none })
  finds :
      (name : Name) (d : Disk) (reading : Option Invocation)
      → Step
          (record { disk = d; reading = reading })
          (record { disk = (find_in_disk name d).1; reading = reading })
  frees :
      (needed : ℤ) (d : Disk) (answer : Bool) (f : Freeing) (reading : Option Invocation)
      → free_disk needed d ≡ ok (answer, f)
      → NoWait f.effects
      → Step (record { disk = d; reading = reading }) (record { disk = f.disk; reading = reading })
  links :
      (path : Name) (i : Invocation) (d : Disk) (reading : Option Invocation)
      → Step
          (record { disk = d; reading = reading })
          (record { disk = link_node path i d; reading = reading })
  uploads :
      (net : Option NetCache) (d : Disk) (reading : Option Invocation)
      → Step
          (record { disk = d; reading = reading })
          (record { disk = record d { net_cache = net }; reading = reading })

pub data Steps (s : ReaderState) : ReaderState → Type 0 where
  start : Steps s s
  later : {t u : ReaderState} → Steps s t → Step t u → Steps s u

abbrev pub in_use_of : Name → DiskNode → ℕ
in_use_of name n = if is_node name n && n.in_use then 1 else 0

-- With containers, the function whose file is read has a node that is in use.
pub record Guarded (s : ReaderState) : Type 0 where
  pub containers : s.disk.containers ≡ true
  pub guarded :
      (i : Invocation) → s.reading ≡ some i → 1 ≤ count_by (in_use_of i.hash_function) s.disk.head

mark-counts :
    (name : Name) (xs : List DiskNode)
    → holds name xs ≡ true
    → 1 ≤ count_by (in_use_of name) (mark name true xs)
unfolding mark holds
mark-counts name [] h = absurd (cc)
mark-counts name (x ∷ xs) h = elim (Bool-cases (is_node name x)) [
  | inl e ↦ rw (e, e) (omega arith)
  | inr e ↦ rw e (omega (arith, mark-counts name xs (rw e at h)))
]

pub MovedToEnd-count :
    (w : DiskNode → ℕ) (name : Name) (xs after : List DiskNode)
    → MovedToEnd name xs after
    → count_by w after ≡ count_by w xs
MovedToEnd-count w name xs after m =
    let f = m.first in
    ap (count_by w) m.moved
    ∙ omega (
      arith,
      ap (count_by w) f.whole,
      count_by-append w f.before (m.node ∷ f.after),
      count_by-append w (f.before ++ f.after) (m.node ∷ []),
      count_by-append w f.before f.after,
    )

-- A run of `freeDisk` without a wait has taken off no node in use.
NoWait-count :
    (goes : Name → Bool) (name : Name) (removed : List DiskNode)
    → NoWait (eviction_effects goes removed)
    → count_by (in_use_of name) removed ≡ 0
NoWait-count goes name [] h = refl
NoWait-count goes name (n ∷ ns) h = elim (Bool-cases n.in_use) [
  | inl used ↦ let h' : NoWait (await_reader n.function ∷ later) = rw used at h in absurd (cc h'.0)
  | inr free ↦
      let h' : NoWait later = rw free at h in
      let rest = NoWait-count goes name ns (All-suffix _ removal (eviction_effects goes ns) h') in
      ground (arith, free, rest)
]
  where
    removal : List Effect
    removal = if goes n.function then remove (container_path n.function) ∷ [] else []

    later : List Effect
    later = removal ++ eviction_effects goes ns

module _ (needed : ℤ) (d : Disk) (answer : Bool) (f : Freeing) where
  frees-count :
      (name : Name)
      → d.containers ≡ true
      → free_disk needed d ≡ ok (answer, f)
      → NoWait f.effects
      → count_by (in_use_of name) f.disk.head ≡ count_by (in_use_of name) d.head
  frees-count name c e quiet =
      let (evicts, (queue, effects)) = ensured _ _ (answer, f) (free_disk-Disposed needed d c) e in
      let quiet' : NoWait (eviction_effects (file_goes d.net_cache) evicts.removed) =
        rw effects at quiet in
      omega (
        arith,
        ap (count_by (in_use_of name)) evicts.whole,
        count_by-append (in_use_of name) evicts.removed f.disk.head,
        NoWait-count (file_goes d.net_cache) name evicts.removed quiet',
      )

  frees-containers :
      d.containers ≡ true → free_disk needed d ≡ ok (answer, f) → f.disk.containers ≡ true
  frees-containers c e =
      let (evicts, _) = ensured _ _ (answer, f) (free_disk-Disposed needed d c) e in
      evicts.containers ∙ c

finds-Guarded :
    (name : Name) (d : Disk) (reading : Option Invocation)
    → Guarded (record { disk = d; reading = reading })
    → Guarded (record { disk = (find_in_disk name d).1; reading = reading })
finds-Guarded name d reading g = elim (find_in_disk-cases name d) [
  | inl (e, _) ↦ rw e g
  | inr (after, e, m) ↦ rw e (record {
    containers = g.containers;
    guarded = λ i r.
        let same = MovedToEnd-count (in_use_of i.hash_function) name d.head after m in
        omega (arith, same, g.guarded i r);
  })
]

retrieve_begin-marks :
    (i : Invocation) (d : Disk)
    → d.containers ≡ true
    → holds i.hash_function d.head ≡ true
    → (retrieve_begin i d).1 ≡ record d { head = mark i.hash_function true d.head }
unfolding retrieve_begin
retrieve_begin-marks i d c h = rw h (ap (λ (b : Bool). if b then marked else d) c)
  where
    marked : Disk
    marked = record d { head = mark i.hash_function true d.head }

begins-Guarded :
    (i : Invocation) (d : Disk)
    → d.containers ≡ true
    → holds i.hash_function d.head ≡ true
    → Guarded (record { disk = (retrieve_begin i d).1; reading = some i })
begins-Guarded i d c h =
    subst (λ d'. Guarded (record { disk = d'; reading = some i }))
      (sym (retrieve_begin-marks i d c h))
      (record {
        containers = c;
        guarded = λ j e.
            let same : i ≡ j = cc e in
            subst (λ k. 1 ≤ count_by (in_use_of k.hash_function) (mark i.hash_function true d.head))
              same (mark-counts i.hash_function d.head h);
      })

links-Guarded :
    (path : Name) (i : Invocation) (d : Disk) (reading : Option Invocation)
    → Guarded (record { disk = d; reading = reading })
    → Guarded (record { disk = link_node path i d; reading = reading })
unfolding link_node
links-Guarded path i d reading g = record {
  containers = g.containers;
  guarded = λ j e.
      omega (arith, g.guarded j e, count_by-append (in_use_of j.hash_function) d.head (_ ∷ []));
}

Step-Guarded : {s t : ReaderState} → Guarded s → Step s t → Guarded t
Step-Guarded g (begins i d h) = begins-Guarded i d g.containers h
Step-Guarded g (ends i d) = record { containers = g.containers; guarded = λ j e. absurd (cc e) }
Step-Guarded g (finds name d reading) = finds-Guarded name d reading g
Step-Guarded g (frees needed d answer f reading e quiet) = record {
  containers = frees-containers needed d answer f g.containers e;
  guarded = λ i r.
      let same = frees-count needed d answer f i.hash_function g.containers e quiet in
      omega (arith, same, g.guarded i r);
}
Step-Guarded g (links path i d reading) = links-Guarded path i d reading g
Step-Guarded g (uploads net d reading) = record { containers = g.containers; guarded = g.guarded }

-- With containers, while the reader reads the file of a function, a node of that function stays on
-- disk: whatever lookups, evictions, insertions and uploads come in between, `freeDisk` does not
-- take it off.
pub Steps-Guarded : {s t : ReaderState} → Guarded s → Steps s t → Guarded t
Steps-Guarded g start = g
Steps-Guarded g (later ss st) = Step-Guarded (Steps-Guarded g ss) st
