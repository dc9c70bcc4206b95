-- ===== src/Examples.antt =====
-- Concrete functions, caches and queues, at which the theorems of the other modules are applied.
pub mod Ram
pub mod Disk
pub mod Queues
pub mod Start
pub mod Workers
pub mod Podman
pub mod Nodes
pub mod Desk
pub mod Requests
pub mod Main
pub mod Run
pub mod Storage
use c_faas_emulator.Common.{ℕ, ◌*◌, ◌/◌, false, not, none, [], ◌≡◌, refl}
use c_faas_emulator.Common.Int.{ℤ, pos, negsuc, ◌+ℤ◌, ◌-ℤ◌, ltb_ℤ, int_laws}
use c_faas_emulator.Common.Floats.{Floats}
use c_faas_emulator.Common.Name.{Name, codes, str_eq}
use c_faas_emulator.Types.{Invocation, DiskNode, quit}

abbrev pub function_a : Name
function_a = codes "a"

abbrev pub function_b : Name
function_b = codes "b"

abbrev pub invocation_of : Name → ℕ → Invocation
invocation_of name megabytes = record {
  hash_function = name;
  memory = pos megabytes;
  duration = pos 20;
  timestamp = pos 0;
  occupied = false;
  container_id = name;
  container_port = pos 15000;
  restored = false;
  restore_data = none;
}

abbrev pub node_of : Name → ℕ → DiskNode
node_of name megabytes = record {
  function = name;
  file = [];
  memory = pos megabytes;
  in_use = false;
}

-- Fixed-point numbers with one decimal; of the constants as they are written 0.5 stands for each.
abbrev scaled : (ℕ → ℕ → ℕ) → ℤ → ℤ → ℤ
scaled f (pos a) (pos b) = pos (f a b)
scaled f (pos a) (negsuc b) = pos 0
scaled f (negsuc a) b = pos 0

abbrev pub tenths : Floats
tenths = record {
  Float = ℤ;
  nought = pos 0;
  point_eight = pos 8;
  literal = λ _. pos 5;
  of_int = scaled (λ a b. a * b) (pos 10);
  of_long = scaled (λ a b. a * b) (pos 10);
  to_float = λ a. a;
  div_float = scaled λ a b. a * 10 / b;
  add_float = λ a b. a +ℤ b;
  add = λ a b. a +ℤ b;
  sub = λ a b. a -ℤ b;
  mul = scaled λ a b. a * b / 10;
  div = scaled λ a b. a * 10 / b;
  lt = ltb_ℤ;
  le = λ a b. not (ltb_ℤ b a);
}

pub a_is_not_b : str_eq function_a function_b ≡ false
unfolding str_eq
a_is_not_b = refl

pub a_is_not_quit : str_eq function_a quit ≡ false
unfolding str_eq
a_is_not_quit = refl
