-- ===== src/ContinuationVector/Tests.antt =====
-- The vector at work: three threads add tasks while the task finishes; the third is too late.
use asyncplusplus.Prelude.{◌≡◌, refl, List, [], ◌∷◌, arith, bit_or}
use asyncplusplus.Prelude.Count.{count}
use asyncplusplus.ContinuationVector.CompressedPtr.{
  compressed_ptr, get_ptr, get_flags, set_ptr, set_flags, get-set-get,
}
use asyncplusplus.ContinuationVector.Contract.{Event, History, tasks_in, tasks_out}
use asyncplusplus.ContinuationVector.Moves.{
  System, add, flush, load, see_none, install_first, see_task, install_vector, see_vector, enter,
  too_late, read, set_lock, acquire, pass_all, Reach, start, later,
}
use asyncplusplus.ContinuationVector.Inv.{phase, tasks}
use asyncplusplus.ContinuationVector.Safety.{Reach-History, flushed_all}

record Run : Type 0 where
  trace : List Event
  last : System
  reach : Reach trace last

abbrev two_added : Run
two_added = record {
  trace = _;
  last = _;
  reach =
      later
        (later
          (later
            (later (later (later start (add 0 (load 5 (omega arith)))) (add 0 (see_none refl refl)))
              (add 0 (install_first refl)))
            (add 1 (load 7 (omega arith))))
          (add 1 (see_task refl refl (omega arith))))
        (add 1 (install_vector refl));
}

-- Thread 2 waits for the mutex when the lock flag is set.
abbrev finished : Run
finished = record {
  trace = _;
  last = _;
  reach =
      later
        (later
          (later
            (later
              (later
                (later
                  (later (later two_added.reach (add 2 (load 9 (omega arith))))
                    (add 2 (see_vector refl refl)))
                  (flush read))
                (flush (set_lock refl)))
              (add 2 (enter refl)))
            (add 2 (too_late refl)))
          (flush (acquire refl)))
        (flush pass_all);
}

finished_trace : (tasks_in finished.trace ≡ 7 ∷ 5 ∷ []) × (tasks_out finished.trace ≡ 5 ∷ 7 ∷ [])
finished_trace = (refl, refl)

Reach-History_example :
    History finished.trace
      (phase finished.last.finisher)
      (tasks finished.last.shared finished.last.finisher)
Reach-History_example = Reach-History finished.reach

flushed_all_example : count 7 (tasks_in finished.trace) ≡ count 7 (tasks_out finished.trace)
flushed_all_example = flushed_all finished.reach refl 7

locked_word :
    set_flags (compressed_ptr 4096 2) (bit_or (get_flags (compressed_ptr 4096 2)) 1) ≡ 4099
unfolding set_flags compressed_ptr get_flags get_ptr
locked_word = refl

get-set-get_example :
    (get_ptr (compressed_ptr 4096 2) ≡ 4096)
    × (get_flags (compressed_ptr 4096 2) ≡ 2)
    × (set_ptr (compressed_ptr 4096 2) 8192 ≡ compressed_ptr 8192 2)
    × (set_flags (compressed_ptr 4096 2) 3 ≡ compressed_ptr 4096 3)
get-set-get_example =
    get-set-get 4096 8192 2 3 (refl, omega arith) (refl, omega arith) (omega arith) (omega arith)
