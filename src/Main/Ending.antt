-- ===== src/Main/Ending.antt =====
-- The end of `main_loop`: the threads are told to end, and what is left on disk is uploaded.
use c_faas_emulator.Common.{
  Bool, true, false, Option, none, some, List, [], ◌∷◌, ◌++◌, ◌≡◌, refl, All,
}
use c_faas_emulator.Common.Int.{ℤ, pos, ◌≤ℤ◌}
use c_faas_emulator.Common.Floats.{Floats}
use c_faas_emulator.Common.Name.{Name, str_eq}
use c_faas_emulator.Common.Outcome.{Outcome, ok}
use c_faas_emulator.Types.{Invocation, DiskNode, Effect, quit}
use c_faas_emulator.Network.{NetCache, find_in_network}
use c_faas_emulator.Network.Upload.{stored, upload_effects}
use c_faas_emulator.Disk.{Disk}
use c_faas_emulator.Disk.Eviction.{sent, file_goes}
use c_faas_emulator.ReadBuffer.{look, ends, push_quit}
use c_faas_emulator.WriteBack.{write_begin}
use c_faas_emulator.Containers.Prune.{Prunes, sleeping, stopped, returns}
use c_faas_emulator.Main.{Signals, end_pools}

module _ (fl : Floats) (max_memory : ℤ) (threshold : fl.Float) where
  -- With containers, whatever waits in the queues and whatever is cached, after `endPools` each thread that looks for
  -- work ends: the reader of the disk, the remover, the write-back thread at its next round, and the
  -- pruning thread when its sleep is over.
  pub end_pools-ends :
      (fresh : Invocation) (s : Signals) (flag : Bool)
      → (s' : Signals) × (end_pools true fresh s ≡ ok s')
        × (look s'.read_buffer ≡ ok ends)
        × (look s'.remove_buffer ≡ ok ends)
        × (write_begin fl max_memory threshold true s'.ram ≡ none)
        × Prunes s'.creation_in_progress flag sleeping flag stopped
  unfolding end_pools look push_quit write_begin str_eq
  end_pools-ends fresh s flag = (_, refl, refl, refl, refl, returns)

abbrev pub NonNegative : (DiskNode → ℤ) → List DiskNode → Type 0
NonNegative w = All λ n. pos 0 ≤ℤ w n

abbrev pub Stored : NetCache → List DiskNode → Type 0
Stored net = All λ n. find_in_network n.function net ≡ true

-- The end of the upload thread, once its queue is the functions `ds` followed by "quit".
abbrev last_word : DiskNode
last_word = record { function = quit; file = []; memory = pos 0; in_use = false }

abbrev ended_with : NetCache → List DiskNode → NetCache
ended_with net ds = record { head = net.head ++ stored ds; queue = last_word ∷ [] }

-- A run that uploads: `net` is the network cache before.
pub record Uploads (d : Disk) (net : NetCache)
    (run : Outcome (Option (Bool × NetCache × List Effect) × Disk × List Effect)) : Type 0 where
  pub left : Disk
  pub after : NetCache
  pub evicting : List Effect
  pub uploading : List Effect
  pub returns : run ≡ ok (some (true, after, uploading), left, evicting)
  pub empty : left.head ≡ []
  pub queue_stored : Stored after net.queue
  pub disk_stored : Stored after d.head
  pub sent_once :
      let goes = file_goes (some net) in uploading ≡ upload_effects (net.queue ++ sent goes d.head)
