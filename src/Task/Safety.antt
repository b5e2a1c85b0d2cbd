-- ===== src/Task/Safety.antt =====
-- Every world that the threads reach is in order: each task has the holders that its state wants.
use asyncplusplus.Prelude.{
  ℕ, zero, suc, ◌+◌, ◌≤◌, ◌≡◌, refl, List, [], ◌∷◌, ◌++◌, false, arith, replicate, Every, Every-map,
  Every-append, Every-front, Every-back,
}
use mathlib.Core.Path.{subst}
use asyncplusplus.Prelude.Sum.{sum, sum_to}
use asyncplusplus.ContinuationVector.Contract.{accepting}
use asyncplusplus.Task.{
  TaskState, pending, locked, unwrapped, completed, canceled, is_finished, Exec, Task, new_task,
}
use asyncplusplus.Task.Handlers.{Command}
use asyncplusplus.Task.System.{Turn, World, Step, turn, init, Reach, begin, later}
use asyncplusplus.Task.Weights.{Weight, starts, ends, locks, flushes, of_stack, of_handles, load}
use asyncplusplus.Task.Balance.{wanted, wanted-unmade, Balanced, load-above}
use asyncplusplus.Task.Local.{
  start_of, end_of, lock_of, flush_of, Plain, StateOk, CommandOk, HandleOk, Local,
}
use asyncplusplus.Task.Starts.{Turn-starts}
use asyncplusplus.Task.Ends.{Turn-ends}
use asyncplusplus.Task.Locks.{Turn-locks}
use asyncplusplus.Task.Flushes.{Turn-flushes}
use asyncplusplus.Task.Kept.{Kept, Turn-Kept}
use asyncplusplus.Task.Good.{Sound, Turn-Sound}
use asyncplusplus.Task.Commands.{CommandOk-Kept, HandleOk-Kept, Turn-commands}

-- What all threads, vectors and schedulers hold is what is wanted.
abbrev Exact : Weight → (ℕ → Task → ℕ) → World → ℕ → Type 0
Exact weight g w t = load weight w ≡ wanted g w.tasks w.next t

module _ (exec : ℕ → Exec) where
  pub record Inv (w : World) : Type 0 where
    pub start_eq : (t : ℕ) → Exact (starts t) (start_of exec) w t
    pub end_eq : (t : ℕ) → Exact (ends exec t) (end_of exec) w t
    pub lock_eq : (t : ℕ) → Exact (locks t) (lock_of exec) w t
    pub flush_eq : (t : ℕ) → Exact (flushes t) (flush_of exec) w t
    pub sound : Sound exec w.tasks w.next
    pub commands : Every (Every (CommandOk exec w.tasks w.next)) w.threads
    pub handles : Every (HandleOk exec w.tasks) w.pool

  state_plain :
      (x : Task) (ex : Exec) (s : TaskState)
      → is_finished s ≡ false
      → StateOk ex x s
      → x.phase ≡ accepting
  unfolding is_finished
  state_plain x ex pending f h = h.0
  state_plain x ex locked f h = h.0
  state_plain x ex unwrapped f h = h.0
  state_plain x ex completed f h = absurd cc
  state_plain x ex canceled f h = absurd cc

  pub Inv-Plain : {w : World} → Inv w → Plain exec w.tasks
  Inv-Plain {w} v t f = state_plain (w.tasks t) (exec t) (w.tasks t).state f (v.sound.good t)

  module _ {w : World} (v : Inv w) (left right : List (List Command)) (kept kept' : List ℕ)
      (before stack : List Command) (taken : List ℕ)
      (threads : w.threads ≡ left ++ ((before ++ stack) ∷ right))
      (pool : w.pool ≡ kept ++ (taken ++ kept')) where
    within : (weight : Weight) → of_stack weight before + of_handles weight taken ≤ load weight w
    within weight =
        omega (arith, load-above weight w left right before stack kept taken kept' threads pool)

    own_commands : Every (CommandOk exec w.tasks w.next) (before ++ stack)
    own_commands =
        (Every-back (Every (CommandOk exec w.tasks w.next)) left ((before ++ stack) ∷ right)
          (subst (Every (Every (CommandOk exec w.tasks w.next))) threads v.commands)).0

    pool_handles : Every (HandleOk exec w.tasks) (taken ++ kept')
    pool_handles =
        Every-back (HandleOk exec w.tasks) kept (taken ++ kept')
          (subst (Every (HandleOk exec w.tasks)) pool v.handles)

    -- A thread may rely on what the invariant says of its commands.
    pub Inv-Local : Local exec w.tasks w.next before taken
    Inv-Local = record {
      start_le = λ t. omega (arith, within (starts t), v.start_eq t);
      end_le = λ t. omega (arith, within (ends exec t), v.end_eq t);
      lock_le = λ t. omega (arith, within (locks t), v.lock_eq t);
      flush_le = λ t. omega (arith, within (flushes t), v.flush_eq t);
      plain = Inv-Plain v;
      good = v.sound.good;
      fresh = v.sound.fresh;
      waits = v.sound.waits;
      commands = Every-front (CommandOk exec w.tasks w.next) before stack own_commands;
      handles = Every-front (HandleOk exec w.tasks) taken kept' pool_handles;
    }

    module _ {after : List Command} {given : List ℕ} {tasks : ℕ → Task} {next : ℕ}
        (k : Turn exec w.tasks w.next stack before taken tasks next after given) where
      abbrev result : World
      result = record {
        tasks = tasks;
        next = next;
        threads = left ++ ((after ++ stack) ∷ right);
        pool = kept ++ (given ++ kept');
      }

      exact :
          (weight : Weight) (g : ℕ → Task → ℕ) (t : ℕ)
          → Exact weight g w t
          → Balanced weight g w.tasks w.next before taken tasks next after given t
          → Exact weight g result t
      exact weight g t e b = omega (
        arith,
        e,
        b,
        load-above weight w left right before stack kept taken kept' threads pool,
        load-above weight result left right after stack kept given kept' refl refl,
      )

      still : Kept w.tasks w.next tasks next
      still = Turn-Kept exec {stack = stack} Inv-Local k

      new_commands : Every (Every (CommandOk exec tasks next)) result.threads
      new_commands =
          let P = CommandOk exec w.tasks w.next in
          let Q = CommandOk exec tasks next in
          let old =
            Every-map (Every P) (Every Q) w.threads
              (λ cs. Every-map P Q cs (CommandOk-Kept exec still)) v.commands in
          let moved = subst (Every (Every Q)) threads old in
          let own = Every-back (Every Q) left ((before ++ stack) ∷ right) moved in
          let mine =
            Every-append Q after stack (Turn-commands exec {stack = stack} Inv-Local k).0
              (Every-back Q before stack own.0) in
          Every-append (Every Q) left ((after ++ stack) ∷ right)
            (Every-front (Every Q) left ((before ++ stack) ∷ right) moved) (mine, own.1)

      new_handles : Every (HandleOk exec tasks) result.pool
      new_handles =
          let P = HandleOk exec w.tasks in
          let Q = HandleOk exec tasks in
          let moved =
            subst (Every Q) pool (Every-map P Q w.pool (HandleOk-Kept exec still) v.handles) in
          let rest = Every-back Q kept (taken ++ kept') moved in
          Every-append Q kept (given ++ kept') (Every-front Q kept (taken ++ kept') moved) (
            Every-append Q given kept' (Turn-commands exec {stack = stack} Inv-Local k).1
              (Every-back Q taken kept' rest))

      pub Turn-Inv : Inv result
      Turn-Inv = record {
        start_eq = λ t.
            exact (starts t) (start_of exec) t (v.start_eq t)
              (Turn-starts exec {stack = stack} Inv-Local k t);
        end_eq = λ t.
            exact (ends exec t) (end_of exec) t (v.end_eq t)
              (Turn-ends exec {stack = stack} Inv-Local k t);
        lock_eq = λ t.
            exact (locks t) (lock_of exec) t (v.lock_eq t)
              (Turn-locks exec {stack = stack} Inv-Local k t);
        flush_eq = λ t.
            exact (flushes t) (flush_of exec) t (v.flush_eq t)
              (Turn-flushes exec {stack = stack} Inv-Local k t);
        sound = Turn-Sound exec {stack = stack} Inv-Local k;
        commands = new_commands;
        handles = new_handles;
      }

  pub Step-Inv : {w w' : World} → Inv w → Step exec w w' → Inv w'
  Step-Inv v (turn left right kept kept' {before} {stack} {after} {taken} e f k) =
      Turn-Inv v left right kept kept' before stack taken e f k

  idle : (weight : Weight) (n : ℕ) → sum (of_stack weight) (replicate n []) ≡ 0
  idle weight zero = refl
  idle weight (suc n) = omega (arith, idle weight n)

  idle_commands : (P : Command → Type 0) (n : ℕ) → Every (Every P) (replicate n [])
  idle_commands P zero = tt
  idle_commands P (suc n) = (tt, idle_commands P n)

  module _ (n : ℕ) where
    none_made :
        (weight : Weight) (g : ℕ → Task → ℕ) (t : ℕ) → Exact weight g (init (replicate n [])) t
    unfolding load sum_to
    none_made weight g t =
        omega (arith, idle weight n, wanted-unmade g (λ _. new_task) 0 t (omega arith))

    init-Inv : Inv (init (replicate n []))
    unfolding is_finished
    init-Inv = record {
      start_eq = λ t. none_made (starts t) (start_of exec) t;
      end_eq = λ t. none_made (ends exec t) (end_of exec) t;
      lock_eq = λ t. none_made (locks t) (lock_of exec) t;
      flush_eq = λ t. none_made (flushes t) (flush_of exec) t;
      sound = record {
        good = λ t. (refl, refl, (refl, refl));
        fresh = λ t le. refl;
        waits = λ t. (tt, λ c. absurd cc);
      };
      commands = idle_commands (CommandOk exec (λ _. new_task) 0) n;
      handles = tt;
    }

    pub Reach-Inv : {w : World} → Reach exec n w → Inv w
    Reach-Inv begin = init-Inv
    Reach-Inv (later r s) = Step-Inv (Reach-Inv r) s
