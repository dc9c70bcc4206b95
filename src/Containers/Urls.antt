-- ===== src/Containers/Urls.antt =====
-- The texts that source/containers.c and source/disk_cache.c print into blocks of a fixed size: the
-- URLs of the requests, and the paths of the checkpoints.
use c_faas_emulator.Common.{ℕ, ◌+◌, ◌^◌, ◌≤◌, ◌<◌, List, ◌++◌, ◌≡◌, arith, length, length-append}
use c_faas_emulator.Common.Decimal.{print_int, length-print_int, sprintf}
use c_faas_emulator.Common.Int.{ℤ, pos_part, neg_part}
use c_faas_emulator.Common.Name.{Name, codes}
use c_faas_emulator.Common.Outcome.{Outcome, ok}
use c_faas_emulator.Types.{container_path}

abbrev pub containers_url : List ℕ
containers_url = codes "http://d/v3.0.0/libpod/containers/"

unfoldable pub start_url : Name → Outcome (List ℕ)
unfolding sprintf
start_url id = sprintf 120 (containers_url ++ (id ++ codes "/start"))

unfoldable pub kill_url : Name → Outcome (List ℕ)
unfolding sprintf
kill_url id = sprintf 120 (containers_url ++ (id ++ codes "/kill"))

unfoldable pub checkpoint_url : Name → Outcome (List ℕ)
unfolding sprintf
checkpoint_url id = sprintf 200 (containers_url ++ (id ++ codes "/checkpoint?export=true"))

unfoldable pub restore_url : Name → Outcome (List ℕ)
unfolding sprintf
restore_url id =
    sprintf 200 (containers_url ++ (id ++ codes "/restore?import=true&ignoreStaticIP=true"))

unfoldable pub init_url : ℤ → Outcome (List ℕ)
unfolding sprintf
init_url port = sprintf 30 (codes "localhost:" ++ (print_int port ++ codes "/init"))

unfoldable pub run_url : ℤ → Outcome (List ℕ)
unfolding sprintf
run_url port = sprintf 30 (codes "localhost:" ++ (print_int port ++ codes "/run"))

-- The path in checkpointContainer, retrieveFromDisk, insertNetCache and freeDisk.
unfoldable pub checkpoint_path : Name → Outcome (List ℕ)
unfolding sprintf
checkpoint_path function = sprintf 100 (container_path function)

-- `createFile`, with `strcat`.
unfoldable pub cache_path : Name → Outcome (List ℕ)
unfolding sprintf
cache_path function = sprintf 80 (codes "cache/" ++ function)

sprintf-fits : (size : ℕ) (text : List ℕ) → length text < size → sprintf size text ≡ ok text
unfolding sprintf
sprintf-fits size text lt = ground (arith, lt)

around-fits :
    (size : ℕ) (before middle after : List ℕ)
    → length before + length middle + length after < size
    → sprintf size (before ++ (middle ++ after)) ≡ ok (before ++ (middle ++ after))
around-fits size before middle after lt =
    sprintf-fits size (before ++ (middle ++ after))
      (omega (arith, lt, length-append before (middle ++ after), length-append middle after))

-- All of the texts fit into their blocks, with the 0 at the end, for an id and a function of at most
-- 64 bytes and a port that is a number of 32 bits.
pub urls-fit :
    (id function : Name) (port : ℤ)
    → length id ≤ 64
    → length function ≤ 64
    → pos_part port < 2 ^ 31
    → neg_part port ≤ 2 ^ 31
    → (start_url id ≡ ok (containers_url ++ (id ++ codes "/start")))
      × (kill_url id ≡ ok (containers_url ++ (id ++ codes "/kill")))
      × (checkpoint_url id ≡ ok (containers_url ++ (id ++ codes "/checkpoint?export=true")))
      × (restore_url id
          ≡ ok (containers_url ++ (id ++ codes "/restore?import=true&ignoreStaticIP=true")))
      × (init_url port ≡ ok (codes "localhost:" ++ (print_int port ++ codes "/init")))
      × (run_url port ≡ ok (codes "localhost:" ++ (print_int port ++ codes "/run")))
      × (checkpoint_path function ≡ ok (container_path function))
      × (cache_path function ≡ ok (codes "cache/" ++ function))
unfolding start_url kill_url checkpoint_url restore_url init_url run_url checkpoint_path cache_path
urls-fit id function port i f p n =
    let digits = length-print_int port p n in
    (
      around-fits 120 containers_url id _ (omega (arith, i)),
      around-fits 120 containers_url id _ (omega (arith, i)),
      around-fits 200 containers_url id _ (omega (arith, i)),
      around-fits 200 containers_url id _ (omega (arith, i)),
      around-fits 30 (codes "localhost:") (print_int port) _ (omega (arith, digits)),
      around-fits 30 (codes "localhost:") (print_int port) _ (omega (arith, digits)),
      sprintf-fits 100 (container_path function)
          (omega (arith, f, length-append (codes "containers/") function)),
      sprintf-fits 80 (codes "cache/" ++ function)
          (omega (arith, f, length-append (codes "cache/") function)),
    )
