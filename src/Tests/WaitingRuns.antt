-- ===== src/Tests/WaitingRuns.antt =====
-- A reader waits for a writer.
use cluster_stm.Common.{◌<◌, ◌≡◌, List, [], ◌∷◌, ◌++◌, arith, length}
use cluster_stm.Stm.Types.{read, write}
use cluster_stm.Grt.Lock.{Waiter}
use cluster_stm.Grt.Lock.Handoff.{Holding, IsServing, released}
use cluster_stm.Grt.Lock.Waiting.{Releases, none_yet, one_more, waiters-served}

abbrev waiter : Waiter
waiter = record { proc = 1; state = 7; type = read }

abbrev written : Holding
written = record {
  lock = record {
    num_holders = 1;
    type = write;
    waiters = record { nodes = waiter ∷ []; next = []; size = 1 };
  };
  readers = 0;
  writers = 1;
}

written-IsServing : IsServing written
written-IsServing = ground arith

one_release : Releases written 1 (released written write)
one_release = one_more write none_yet (omega arith)

waiters-served_example :
    (served : List Waiter) × (waiter ∷ [] ≡ served ++ (released written write).lock.waiters.nodes)
    × (0 < length served)
waiters-served_example = waiters-served 0 written-IsServing one_release (omega arith) (omega arith)
