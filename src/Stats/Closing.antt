-- ===== src/Stats/Closing.antt =====
-- `closeFiles`, and what becomes of the latencies that are still waiting for the pool.
use c_faas_emulator.Common.{
  true, false, List, [], ◌∷◌, ◌++◌, ◌≡◌, refl, ap, append_assoc, append-nil, sym, ◌⊎◌, inl, inr,
  ◌≢◌, arith,
}
use c_faas_emulator.Common.Outcome.{ok, fault}
use c_faas_emulator.Stats.{Stats, Latency, run_jobs, close_files}

-- While the files are open the pool writes all that waits, in order, behind what it wrote before.
pub run_jobs-append :
    (ls : List Latency) (s : Stats)
    → s.is_open ≡ true
    → run_jobs ls s ≡ ok (record s { jobs = []; latencies = s.latencies ++ ls })
unfolding run_jobs
run_jobs-append [] s open_files =
    ap (λ (t : List Latency). ok (record s { jobs = []; latencies = t }))
      (sym (append-nil s.latencies))
run_jobs-append (l ∷ ls) s open_files =
    let next = run_jobs-append ls (record s { latencies = s.latencies ++ l ∷ [] }) open_files in
    ground (arith, next, append_assoc s.latencies (l ∷ []) ls)

-- `closeFiles` is safe exactly if the pool has already written every latency that it was given: if
-- one still waits, it is printed to a file that is closed.
pub close_files-cases :
    (s : Stats)
    → ((s.jobs ≡ []) × (close_files s ≡ ok (record s { is_open = false })))
      ⊎ ((s.jobs ≢ []) × (close_files s ≡ fault))
unfolding close_files
close_files-cases s = by_jobs s.jobs refl
  where
    by_jobs :
        (ls : List Latency)
        → s.jobs ≡ ls
        → ((s.jobs ≡ []) × (close_files s ≡ ok (record s { is_open = false })))
          ⊎ ((s.jobs ≢ []) × (close_files s ≡ fault))
    by_jobs [] e = inl (e, ground arith)
    by_jobs (l ∷ ls) e = inr (cc, ground arith)
