-- ===== src/FileCache/Tests.antt =====
-- Runs of the file cache, and its theorems at a concrete one.
use hf_mount_encrypted.Base.{ℕ, ◌≤◌, ◌≡◌, refl, true, false, none, some, List, [], ◌∷◌, arith}
use hf_mount_encrypted.Base.Text.{bytes}
use hf_mount_encrypted.Base.Results.{ok, err}
use hf_mount_encrypted.Base.Eq.{text_eq}
use hf_mount_encrypted.Base.Map.{find, erase, put, modify}
use hf_mount_encrypted.FileCache.{
  FileCache, Disk, FoundFile, new, scan_existing, scan_files, next_tick, contains, remove_item,
  total_without, forget, touch, open_found, try_open, insert_sorted, sort_entries, pick_victims,
  remove_items, evict_locked, insert_item, publish, finish, populate_inner, populate, size_mismatch,
}
use hf_mount_encrypted.FileCache.Account.{Accounted}
use hf_mount_encrypted.FileCache.Evict
use hf_mount_encrypted.FileCache.Budget
use hf_mount_encrypted.FileCache.Budget.{
  Call, open_file, forget_file, populate_file, run_calls, InBudget,
}

-- The definitions that the runs compute.
code : Unit {0}
unfolding find erase put modify new scan_existing scan_files next_tick contains remove_item
    total_without forget touch open_found try_open insert_sorted sort_entries pick_victims
    remove_items evict_locked insert_item publish finish populate_inner populate
code = tt

abbrev found_files : List FoundFile
found_files =
    record { name = bytes "aa"; found_size = 40; tick = 7 }
    ∷ record { name = bytes "bb"; found_size = 30; tick = 5 }
    ∷ []

abbrev cache : FileCache
cache = new 100 found_files

abbrev working : ℕ → Disk
working size = record { mkdir = true; fetched = true; stat = some size; renamed = true }

-- The scan counts what it finds, and the clock starts behind its files.
scan_run : (cache.state.total_bytes ≡ 70) × (cache.clock ≡ 8)
unfolding code
scan_run = (refl, refl)

-- The download evicts the file that was opened longest ago.
evict_run :
    ((populate (bytes "cc") (some 60) (working 60) cache).1 ≡ ok (bytes "bb" ∷ []))
    × ((populate (bytes "cc") (some 60) (working 60) cache).0.state.total_bytes ≡ 100)
unfolding code
evict_run = (refl, refl)

mismatch_run : (populate (bytes "cc") (some 60) (working 61) cache).1 ≡ err size_mismatch
unfolding code
mismatch_run = refl

vanished_run : (try_open false (bytes "aa") cache).0.state.total_bytes ≡ 30
unfolding code
vanished_run = refl

cache-Accounted : Accounted cache.state
unfolding code
cache-Accounted = record { distinct = (refl, (refl, tt)); total = refl }

run_calls-InBudget_example : InBudget 100 (
    run_calls
      (open_file true (bytes "bb")
        ∷ populate_file (bytes "cc") none (working 60)
        ∷ forget_file (bytes "bb")
        ∷ [])
      cache)
unfolding code
run_calls-InBudget_example =
    Budget.run_calls-InBudget 100 (omega arith)
      (open_file true (bytes "bb")
        ∷ populate_file (bytes "cc") none (working 60)
        ∷ forget_file (bytes "bb")
        ∷ [])
      cache
      (record {
        accounted = cache-Accounted;
        total_below = omega arith;
        capacity_below = omega arith;
      })

evict_locked-oldest_example : 5 ≤ 7
unfolding code
evict_locked-oldest_example =
    Evict.evict_locked-oldest 50 cache.state (bytes "bb") (bytes "aa")
      (record { size = 30; last_access = 5 }) (record { size = 40; last_access = 7 })
      cache-Accounted (omega arith) refl refl refl
