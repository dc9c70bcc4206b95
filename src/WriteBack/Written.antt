-- ===== src/WriteBack/Written.antt =====
-- What becomes of the functions that the write-back thread has collected.
use c_faas_emulator.Common.{ℕ, true, List, [], ◌∷◌, ◌≡◌, refl, length, arith, inl, inr}
use c_faas_emulator.Common.Outcome.{Ensures, Ensures-bind, Ensures-mono, ensured}
use c_faas_emulator.Types.{Invocation, Effect}
use c_faas_emulator.Disk.{Disk, Outside}
use c_faas_emulator.Disk.Lookup.{find_in_disk-cases}
use c_faas_emulator.Disk.Insertion.Fate.{ends, ends-append, EndsOne, insert_disk_item-EndsOne}
use c_faas_emulator.WriteBack.{write_item, write_batch}

pub write_item-EndsOne :
    (o : Outside) (i : Invocation) (d : Disk)
    → d.containers ≡ true
    → Ensures EndsOne (write_item o i d)
unfolding write_item
write_item-EndsOne o i d c = elim (find_in_disk-cases i.hash_function d) [
  | inl (e, lacks) ↦ rw e (insert_disk_item-EndsOne o i d c)
  | inr (after, e, m) ↦ rw e (ground (arith, c))
]

abbrev EndsAll : ℕ → Disk × List Effect → Type 0
EndsAll n r = (r.0.containers ≡ true) × (ends r.1 ≡ n)

write_batch-EndsAll :
    (o : Outside) (is : List Invocation) (d : Disk)
    → d.containers ≡ true
    → Ensures (EndsAll (length is)) (write_batch o is d)
unfolding write_batch
write_batch-EndsAll o [] d c = (c, refl)
write_batch-EndsAll o (i ∷ is) d c = Ensures-bind _ (write_item o i d) _ λ r q.
    let (c', one) = ensured _ _ r (write_item-EndsOne o i d c) q in
    Ensures-bind _ (write_batch o is r.0) _ λ t p.
      let (c'', all) = ensured _ _ t (write_batch-EndsAll o is r.0 c') p in
      (c'', omega (arith, ends-append r.1 t.1, one, all))

-- With containers, if writing a batch returns, as many containers have been ended, by a kill or
-- by the export of a checkpoint, as there are functions in the batch.
pub write_batch-ends :
    (o : Outside) (is : List Invocation) (d : Disk)
    → d.containers ≡ true
    → Ensures (λ r. ends r.1 ≡ length is) (write_batch o is d)
write_batch-ends o is d c =
    Ensures-mono (EndsAll (length is)) _ (write_batch o is d) (λ r e. e.1)
      (write_batch-EndsAll o is d c)
