-- ===== src/ContinuationVector/Flusher.antt =====
-- A step of `flush_and_lock` keeps the invariant and does to the tasks what its event says.
use asyncplusplus.Prelude.{ℕ, refl, ap, sym, ◌∙◌, []}
use asyncplusplus.ContinuationVector.Contract.{Event, accepting, closing, closed, Spec}
use asyncplusplus.ContinuationVector.Moves.{
  Shared, FlusherPc, FlusherMove, read, reread, set_lock, pass_on, acquire, pass_all,
}
use asyncplusplus.ContinuationVector.Inv.{
  phase, stored, stored-many, stored-closing, tasks, FlusherOk, Kept,
}

module _ (sh : Shared) where
  pub FlusherMove-FlusherOk :
      {sh' : Shared} {pc pc' : FlusherPc} {e : Event}
      → FlusherOk sh pc
      → FlusherMove sh pc e sh' pc'
      → FlusherOk sh' pc'
  FlusherMove-FlusherOk ok read = ok
  FlusherMove-FlusherOk ok reread = ok
  FlusherMove-FlusherOk ok (set_lock h) = (refl, refl)
  FlusherMove-FlusherOk ok pass_on = (ok.0, λ z. absurd cc)
  FlusherMove-FlusherOk ok (acquire h) = (ok.0, ok.1, refl)
  FlusherMove-FlusherOk ok pass_all = (ok.0, λ z. refl)

  pub FlusherMove-Kept :
      {sh' : Shared} {pc pc' : FlusherPc} {e : Event} (j : ℕ)
      → FlusherOk sh pc
      → FlusherMove sh pc e sh' pc'
      → Kept j sh pc sh' pc'
  FlusherMove-Kept j ok read = record {
    locked_up = λ e. e;
    many_up = λ e. e;
    only = λ p n h. h;
    owned = λ e. e;
    not_closed = λ m l h. h;
  }
  FlusherMove-Kept j ok reread = record {
    locked_up = λ e. e;
    many_up = λ e. e;
    only = λ p n h. h;
    owned = λ e. e;
    not_closed = λ m l h. h;
  }
  FlusherMove-Kept j ok (set_lock h) = record {
    locked_up = λ e. refl;
    many_up = λ e. cc;
    only = λ p n k q w. k q (ap (λ d. d.pointer) h ∙ w);
    owned = λ e. e;
    not_closed = λ m l k z. cc;
  }
  FlusherMove-Kept j ok pass_on = record {
    locked_up = λ e. e;
    many_up = λ e. e;
    only = λ p n h. h;
    owned = λ e. e;
    not_closed = λ m l h z. cc;
  }
  FlusherMove-Kept j ok (acquire h) = record {
    locked_up = λ e. e;
    many_up = λ e. e;
    only = λ p n h. h;
    owned = λ e. absurd cc;
    not_closed = λ m l k z. cc;
  }
  FlusherMove-Kept j ok pass_all = record {
    locked_up = λ e. e;
    many_up = λ e. e;
    only = λ p n h. h;
    owned = λ e. absurd cc;
    not_closed = λ m l k z. cc;
  }

  pub FlusherMove-Spec :
      {sh' : Shared} {pc pc' : FlusherPc} {e : Event}
      → FlusherOk sh pc
      → FlusherMove sh pc e sh' pc'
      → Spec (phase pc) (tasks sh pc) e (phase pc') (tasks sh' pc')
  FlusherMove-Spec ok read = (refl, refl)
  FlusherMove-Spec ok reread = (refl, refl)
  FlusherMove-Spec ok (set_lock {d} h) = (
    refl,
    refl,
    stored-closing d.pointer sh.vector ∙ sym (ap (λ d. stored d.pointer sh.vector accepting) h),
  )
  FlusherMove-Spec ok (pass_on {p}) = (
    refl,
    refl,
    sym (ap (λ q. stored q sh.vector closing) ok.1),
    ap (λ q. stored q sh.vector closed) ok.1,
  )
  FlusherMove-Spec ok (acquire h) = (refl, refl)
  FlusherMove-Spec ok pass_all = (
    refl,
    refl,
    sym (stored-many sh.atomic_data.pointer sh.vector closing ok.1),
    stored-many sh.atomic_data.pointer [] closed ok.1,
  )
