-- ===== src/Ram.antt =====
-- source/ram_cache.c: the functions kept in memory, oldest first. The linked list of `ram_node` is
-- the list of their invocations. Each function runs under `cache_lock`; the one that gives the lock
-- up half way, `freeRam` with containers, is the two functions `free_ram_detach`, `free_ram_settle`.
pub mod Search
pub mod Free
pub mod Accounting
pub mod Nodes
use c_faas_emulator.Common.{
  Bool, true, false, Option, none, some, List, [], ◌∷◌, ◌++◌, map, not, ◌&&◌, if◌then◌else◌,
}
use c_faas_emulator.Common.Int.{ℤ, pos, ◌+ℤ◌, ◌-ℤ◌, ltb_ℤ}
use c_faas_emulator.Common.Sums.{sum_by}
use c_faas_emulator.Common.Name.{Name, str_eq}
use c_faas_emulator.Types.{Invocation, Effect, kill}

pub record Ram : Type 0 where
  pub head : List Invocation
  pub memory : ℤ
  pub cache_occupied : ℤ

unfoldable pub init_ram : ℤ → Ram
init_ram memory = record { head = []; memory = memory; cache_occupied = pos 0 }

-- The walk of `searchRam`: the first node of the function, and the list without it.
unfoldable pub unlink : Name → List Invocation → Option (Invocation × List Invocation)
unlink f [] = none
unlink f (i ∷ rest) =
    let found = unlink f rest in
    if str_eq i.hash_function f
    then some (i, rest)
    else elim found [ none ↦ none | some (j, rest') ↦ some (j, i ∷ rest') ]

unfoldable pub search_ram : Name → Ram → Option Invocation × Ram
unfolding unlink
search_ram f r = elim (unlink f r.head) [
  | none ↦ (none, r)
  | some (i, rest) ↦ (some i, record r { head = rest })
]

unfoldable pub insert_ram_item : Invocation → Ram → Ram
insert_ram_item i r = record r {
  head = r.head ++ i ∷ [];
  cache_occupied = r.cache_occupied +ℤ i.memory;
}

pub record Detached : Type 0 where
  pub freed : ℤ
  pub removed : List Invocation
  pub rest : List Invocation

-- The first loop of `freeRam` with containers: take nodes off the head until enough is freed.
unfoldable pub detach : ℤ → ℤ → List Invocation → Detached
detach mem_needed freed [] = record { freed = freed; removed = []; rest = [] }
detach mem_needed freed (i ∷ is) =
    let d = detach mem_needed (freed +ℤ i.memory) is in
    if ltb_ℤ freed mem_needed
    then record d { removed = i ∷ d.removed }
    else record { freed = freed; removed = []; rest = i ∷ is }

-- Up to `pthread_mutex_unlock(lock)`.
unfoldable pub free_ram_detach : ℤ → Ram → Detached × Ram
free_ram_detach mem_needed r =
    let d = detach mem_needed (pos 0) r.head in (d, record r { head = d.rest })

-- The kills between the unlock and the lock.
unfoldable pub free_ram_kills : Detached → List Effect
free_ram_kills d = map (λ i. kill i.container_id) d.removed

-- From `pthread_mutex_lock(lock)` on.
unfoldable pub free_ram_settle : ℤ → ℤ → Ram → Bool × Ram
free_ram_settle mem_needed freed r = (
  not (ltb_ℤ freed mem_needed),
  record r { memory = r.memory +ℤ freed; cache_occupied = r.cache_occupied -ℤ freed },
)

-- The loop of `freeRam` without containers, which keeps the lock.
unfoldable pub free_loop : ℤ → ℤ → List Invocation → Ram → ℤ × Ram
free_loop mem_needed freed [] r = (freed, record r { head = [] })
free_loop mem_needed freed (i ∷ is) r =
    let next =
      free_loop mem_needed (freed +ℤ i.memory) is (record r {
        memory = r.memory +ℤ i.memory;
        cache_occupied = r.cache_occupied -ℤ i.memory;
      }) in
    if ltb_ℤ freed mem_needed then next else (freed, record r { head = i ∷ is })

unfoldable pub free_ram_plain : ℤ → Ram → Bool × Ram
unfolding free_loop
free_ram_plain mem_needed r =
    let (freed, r') = free_loop mem_needed (pos 0) r.head r in (not (ltb_ℤ freed mem_needed), r')

-- The memory of a list of invocations.
abbrev pub total_memory : List Invocation → ℤ
total_memory = sum_by λ i. i.memory
