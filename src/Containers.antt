-- ===== src/Containers.antt =====
-- source/containers.c: the bytes that curl brings and takes, the loop of `createContainer`, and the
-- ports. The requests themselves go to Podman, which is outside of the model: what curl answers is
-- an argument. How pruning and creation exclude each other is Containers/Prune.antt;
-- `checkpointContainer` is in Disk.antt, where its effects count.
pub mod Buffers
pub mod Urls
pub mod Requests
pub mod Setup
pub mod Latencies
pub mod Prune
use c_faas_emulator.Common.{
  ℕ, zero, suc, ◌+◌, ◌-◌, ◌%◌, Bool, true, false, Option, none, some, List, [], ◌∷◌, ◌++◌, ltb, leb,
  ◌==◌, ◌&&◌, set, length, take, drop, if◌then◌else◌,
}
use c_faas_emulator.Common.Int.{ℤ, pos, ◌-ℤ◌, eqb_ℤ}
use c_faas_emulator.Common.Outcome.{Outcome, ok, fault}

-- `struct string` while curl writes to it: the bytes up to `len`.
unfoldable pub init_string : List ℕ
init_string = []

-- One call of the write callback, which appends its bytes.
unfoldable pub writefunc : List ℕ → List ℕ → List ℕ
writefunc chunk s = s ++ chunk

unfoldable pub write_all : List (List ℕ) → List ℕ → List ℕ
unfolding writefunc
write_all [] s = s
write_all (chunk ∷ chunks) s = write_all chunks (writefunc chunk s)

-- `struct string` while curl reads from it: a block, how far `ptr` has moved in it, and `len`.
pub record Source : Type 0 where
  pub block : List ℕ
  pub ptr : ℕ
  pub len : ℕ

-- `readBin`: the content of a file, in a block of its own.
unfoldable pub read_bin : List ℕ → Source
read_bin content = record { block = content; ptr = 0; len = length content }

-- One call of the read callback, with room for `curl_size` bytes: the bytes copied, and the source.
unfoldable pub read_callback : ℕ → Source → List ℕ × Source
read_callback curl_size u =
    let to_copy = if ltb u.len curl_size then u.len else curl_size in
    (take to_copy (drop u.ptr u.block), record u { ptr = u.ptr + to_copy; len = u.len - to_copy })

-- The calls that curl makes, one for each size.
unfoldable pub read_all : List ℕ → Source → List ℕ × Source
unfolding read_callback
read_all [] u = ([], u)
read_all (size ∷ sizes) u =
    let (chunk, u') = read_callback size u in
    let (later, u'') = read_all sizes u' in (chunk ++ later, u'')

-- `int` of a `size_t`, which keeps 32 bits.
abbrev pub int_of_size : ℕ → ℤ
int_of_size n =
    let low = n % 4294967296 in if ltb low 2147483648 then pos low else pos low -ℤ pos 4294967296

-- The part of `restoreCheckpoint` with containers that concerns its data: what is sent, where the
-- calls of curl ask for `sizes`, and `data->ptr -= to_free; free(data->ptr)`, which is undefined
-- unless the pointer is back at the start of the block.
unfoldable pub restore_checkpoint : List ℕ → Source → Outcome (List ℕ)
unfolding read_all
restore_checkpoint sizes source =
    let to_free = int_of_size source.len in
    let (sent, source') = read_all sizes source in
    if eqb_ℤ (pos source'.ptr) to_free then ok sent else fault

-- An attempt of `createContainer`: whether curl reports success, and the chunks of the answer.
pub record Attempt : Type 0 where
  pub succeeds : Bool
  pub chunks : List (List ℕ)

-- The loop of `createContainer`, up to the first success: the text that is parsed for the Id. The
-- string is initialised once, before the loop.
unfoldable pub create_loop : List Attempt → List ℕ → Option (List ℕ)
unfolding write_all
create_loop [] s = none
create_loop (a ∷ attempts) s =
    let s' = write_all a.chunks s in
    let rest = create_loop attempts s' in if a.succeeds then some s' else rest

unfoldable pub create_container : List Attempt → Option (List ℕ)
unfolding create_loop init_string
create_container attempts = create_loop attempts init_string

-- `getPort`: the port handed out, and `containers->port`.
unfoldable pub get_port : ℕ → ℕ × ℕ
get_port port = (port, port + 1)

-- `containers->port = 15000`
abbrev pub first_port : ℕ
first_port = 15000

-- `freePort` on the table `ports[500]`.
unfoldable pub free_port : ℕ → List ℕ → Outcome (List ℕ)
free_port port ports =
    if leb 8080 port && ltb (port - 8080) (length ports)
    then ok (set ports (port - 8080) 0)
    else fault
