-- ===== src/PageReplacement/Tests.antt =====
-- Runs of the simulator on a short file, and the theorems at it.
use operating_system_col.Base.{
  false, true, ℕ, ◌+◌, ◌<◌, ◌≡◌, refl, Option, none, some, List, [], ◌∷◌, arith, All,
}
use operating_system_col.PageReplacement.{
  ◌>>=◌, no_nodes, Table, start, list_pop, lfu, run_fifo, run_lfu, run_lru, simulate, round,
  read_present, write_present, hit, load, replace, list_push, list_insert, settle, recount,
  update_count, bubble, move_back,
}
use operating_system_col.PageReplacement.Laws.{Succeeds}
use operating_system_col.PageReplacement.Resident.{Ran}
use operating_system_col.PageReplacement.Lru.{run_lru-repeat}
use operating_system_col.PageReplacement.Lfu.{lfu_laws, PopsLeast, run_lfu-Ran}
use operating_system_col.PageReplacement.Recency.{last_uses}
use operating_system_col.PageReplacement.LastUse.{InOrder, run_lru-InOrder}
use operating_system_col.PageReplacement.Belady.{NoMoreFaults, run_lru-NoMoreFaults}
use operating_system_col.PageReplacement.Clock.{run_clock}
use operating_system_col.PageReplacement.NoEviction.{IfDefined, Unevicted, run_clock-Unevicted}

abbrev file : List ℕ
file = 1 ∷ 2 ∷ 1 ∷ 3 ∷ 1 ∷ 2 ∷ []

abbrev faults : {S : Type 0} → Option (Table S) → Option ℕ
faults o = o >>= λ t. some t.page_faults

fifo_faults : faults (run_fifo true 2 5 file) ≡ some 5
unfolding run_fifo simulate round read_present write_present hit load replace list_pop list_push
fifo_faults = refl

lru_faults : faults (run_lru true 2 5 file) ≡ some 4
unfolding run_lru simulate round read_present write_present hit load replace list_pop list_push
    bubble move_back
lru_faults = refl

lfu_faults : faults (run_lfu true 2 5 file) ≡ some 4
unfolding run_lfu simulate round read_present write_present hit load replace list_pop list_insert
    settle recount update_count
lfu_faults = refl

file_in_range : All (λ i. i < 5 + 5) file
file_in_range =
    (omega arith, (omega arith, (omega arith, (omega arith, (omega arith, (omega arith, tt))))))

run_lfu-Ran_example :
    Succeeds
      (λ t.
        Ran (lfu true) lfu_laws 2 5 file (start no_nodes) t
        × (0 < t.list.size → Succeeds PopsLeast (list_pop true t.list)))
      (run_lfu true 2 5 file)
run_lfu-Ran_example = run_lfu-Ran 2 5 file (omega arith) file_in_range

run_lru-InOrder_example : Succeeds (InOrder 2 5 (last_uses [] file)) (run_lru true 2 5 file)
run_lru-InOrder_example =
    run_lru-InOrder 2 5 1 2 (1 ∷ 3 ∷ 1 ∷ 2 ∷ []) (omega arith) (omega arith) file_in_range

run_lru-NoMoreFaults_example :
    Succeeds (NoMoreFaults (run_lru true 3 5 file)) (run_lru true 2 5 file)
run_lru-NoMoreFaults_example =
    run_lru-NoMoreFaults 2 3 5 (omega arith) 1 2 (1 ∷ 3 ∷ 1 ∷ 2 ∷ []) (omega arith) (omega arith)
      file_in_range

run_clock-Unevicted_example : IfDefined (Unevicted 2) (run_clock 2 5 (1 ∷ 2 ∷ 1 ∷ []))
run_clock-Unevicted_example = run_clock-Unevicted 2 5 (1 ∷ 2 ∷ 1 ∷ []) (omega arith)

run_lru-repeat_example : run_lru false 2 5 (3 ∷ 3 ∷ 3 ∷ 4 ∷ []) ≡ none
run_lru-repeat_example = run_lru-repeat false 2 5 3 (4 ∷ []) (omega arith) (omega arith)
