-- ===== src/Types.antt =====
-- source/types.h: the records that the components share, and what the emulator does to the world
-- outside (Podman's containers, files, the object store) as a list of effects.
use c_faas_emulator.Common.{ℕ, Bool, Option, List, ◌++◌}
use c_faas_emulator.Common.Int.{ℤ}
use c_faas_emulator.Common.Name.{Name, codes}

-- A NULL pointer is `false` in `occupied`, and `none` in `restore_data`.
pub record Invocation : Type 0 where
  pub hash_function : Name
  pub memory : ℤ
  pub duration : ℤ
  pub timestamp : ℤ
  pub occupied : Bool
  pub container_id : Name
  pub container_port : ℤ
  pub restored : Bool
  pub restore_data : Option (List ℕ)

pub record DiskNode : Type 0 where
  pub function : Name
  pub file : Name
  pub memory : ℤ
  pub in_use : Bool

pub record NetNode : Type 0 where
  pub function : Name
  pub memory : ℤ

-- The totals that `main_loop` prints at the end, which the workers count up.
pub record Totals : Type 0 where
  pub warm_starts : ℕ
  pub lukewarm_starts : ℕ
  pub cold_starts : ℕ
  pub remote_starts : ℕ

abbrev pub init_totals : Totals
init_totals = record { warm_starts = 0; lukewarm_starts = 0; cold_starts = 0; remote_starts = 0 }

-- The calls that reach outside: `kill` is killContainer, `await_reader` the sleep of freeDisk until
-- a reader is done with the node, `remove` the call of stdio on a path, `write_file` createFile,
-- `checkpoint` the export of a container, `upload` and `fetch` minio's uploadObject, retrieveObject.
pub data Effect : Type 0 where
  kill : Name → Effect
  await_reader : Name → Effect
  remove : Name → Effect
  write_file : Name → Effect
  checkpoint : Name → Effect
  upload : Name → Effect
  fetch : Name → Effect

-- The format "containers/%s".
abbrev pub container_path : Name → Name
container_path function = codes "containers/" ++ function

-- "quit", the name by which a queue is told to end.
abbrev pub quit : Name
quit = codes "quit"
