-- ===== src/Options/Speeds/Files.antt =====
-- The files that `test_speeds` writes and reads.
use c_faas_emulator.Common.{
  ℕ, ◌*◌, Bool, false, none, some, List, [], ◌∷◌, ◌≡◌, refl, ◌∙◌, if◌then◌else◌, Bool-cases, inl,
  inr, ◌||◌, arith,
}
use c_faas_emulator.Common.Floats.{Floats}
use c_faas_emulator.Common.Int.{ℤ}
use c_faas_emulator.Common.Name.{Name, str_eq}
use c_faas_emulator.Common.Outcome.{ok}
use c_faas_emulator.Options.Speeds.{
  Files, put, block_size, test_files, write_tests, read_tests, remove_tests, Speeds, speed,
  test_speeds,
}

abbrev pub is_one_of : List Name → Name → Bool
is_one_of [] n = false
is_one_of (f ∷ fs) n = str_eq n f || is_one_of fs n

remove_tests-lem :
    (fs : List Name) (files : Files) (n : Name)
    → remove_tests fs files n ≡ (if is_one_of fs n then none else files n)
unfolding remove_tests
remove_tests-lem [] files n = refl
remove_tests-lem (f ∷ fs) files n =
    let rest = remove_tests-lem fs (put f none files) n in ground (arith, rest)

write_tests-other :
    (fs : List Name) (files : Files) (n : Name)
    → is_one_of fs n ≡ false
    → write_tests fs files n ≡ files n
unfolding write_tests
write_tests-other [] files n h = refl
write_tests-other (f ∷ fs) files n h =
    let rest = write_tests-other fs (put f (some block_size) files) n in ground (arith, rest, h)

left-over :
    (fs : List Name) (files : Files) (n : Name)
    → remove_tests fs (write_tests fs files) n ≡ (if is_one_of fs n then none else files n)
left-over fs files n = elim (Bool-cases (is_one_of fs n)) [
  | inl test ↦ remove_tests-lem fs (write_tests fs files) n ∙ rw test refl
  | inr other ↦
      remove_tests-lem fs (write_tests fs files) n ∙ rw other (write_tests-other fs files n other)
]

-- `test_speeds` comes back whatever files there are; it reads 5 times 200 MB, all that it has
-- written and nothing else, leaves none of its files behind, those of before under their names
-- included, leaves every other file as it was, and sets the two speeds and no other setting.
pub test_speeds-ends :
    (fl : Floats) (clock : ℕ → ℤ) (files : Files) (s : Speeds fl.Float)
    → (files' : Files) × (test_speeds fl clock files s
        ≡ ok (
          5 * block_size,
          files',
          record s {
            write_speed = speed fl (clock 0) (clock 1);
            read_speed = speed fl (clock 2) (clock 3);
          },
        ))
      × ((n : Name) → files' n ≡ (if is_one_of test_files n then none else files n))
unfolding test_speeds write_tests read_tests remove_tests str_eq
test_speeds-ends fl clock files s = (_, refl, left-over test_files files)
