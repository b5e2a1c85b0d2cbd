-- ===== src/ContinuationVector/AdderSpec.antt =====
-- What a step of `try_add` does to the tasks that wait.
use asyncplusplus.Prelude.{ℕ, ◌≡◌, ◌≢◌, refl, ap, sym, ◌∙◌, List, [], ◌∷◌, ◌++◌, arith}
use asyncplusplus.ContinuationVector.Contract.{Event, Phase, accepting, closing, closed, Spec}
use asyncplusplus.ContinuationVector.Moves.{
  single, Shared, AdderPc, FlusherPc, inline_tasks, AdderMove, load, refuse, see_vector, see_task,
  no_memory, see_none, install_first, install_vector, again_first, again_vector, enter, too_late,
  in_time, push_back, push_throws,
}
use asyncplusplus.ContinuationVector.Inv.{phase, stored, stored-many, tasks, FlusherOk, AdderOk}
use asyncplusplus.ContinuationVector.Adder.{unlocked→accepting, locked→not_accepting}

inline_tasks-some : (t : ℕ) → t ≢ 0 → inline_tasks t ≡ t ∷ []
inline_tasks-some t ne = ground arith

accepting≢closed : accepting ≢ closed
accepting≢closed e = cc

-- The first element goes into the pointer, the second into a vector with it.
stored-first :
    (v : List ℕ) (ph : Phase) (t : ℕ)
    → ph ≡ accepting
    → t ≢ 0
    → stored (single t) v ph ≡ stored (single 0) v ph ++ (t ∷ [])
stored-first v accepting t e ne = inline_tasks-some t ne
stored-first v closing t e ne = absurd cc
stored-first v closed t e ne = absurd cc

stored-second :
    (v : List ℕ) (ph : Phase) (p t : ℕ)
    → ph ≡ accepting
    → p ≢ 0
    → p ∷ t ∷ [] ≡ stored (single p) v ph ++ (t ∷ [])
stored-second v accepting p t e ne = ap (λ l. l ++ (t ∷ [])) (sym (inline_tasks-some p ne))
stored-second v closing p t e ne = absurd cc
stored-second v closed p t e ne = absurd cc

module _ {i : ℕ} (sh : Shared) (fp : FlusherPc) where
  pub AdderMove-Spec :
      {sh' : Shared} {pc pc' : AdderPc} {e : Event}
      → FlusherOk sh fp
      → AdderOk i sh fp pc
      → AdderMove i sh pc e sh' pc'
      → Spec (phase fp) (tasks sh fp) e (phase fp) (tasks sh' fp)
  AdderMove-Spec ok a (load t ne) = (refl, refl)
  AdderMove-Spec ok a (refuse l) = (locked→not_accepting sh fp ok (a.1.0 l), refl, refl)
  AdderMove-Spec ok a (see_vector l p) = (refl, refl)
  AdderMove-Spec ok a (see_task l p z) = (refl, refl)
  AdderMove-Spec ok a (no_memory l p z) = (refl, refl)
  AdderMove-Spec ok a (see_none l p) = (refl, refl)
  AdderMove-Spec ok a (install_first {t} h) =
      let accepts = unlocked→accepting sh fp ok (cc) in
      let none_yet =
        ap (λ p. stored p sh.vector (phase fp) ++ (t ∷ [])) (ap (λ d. d.pointer) h ∙ a.2) in
      (λ z. cc, refl, stored-first sh.vector (phase fp) t accepts a.0 ∙ sym none_yet)
  AdderMove-Spec ok a (install_vector {t} {d} {c = (p, u)} h) =
      let accepts = unlocked→accepting sh fp ok (cc) in
      let (q, one) = a.2 in
      let e = ap (λ d. d.pointer) h ∙ one in
      let now = e ∙ ap single (a.3.2 q e) in
      (
        λ z. cc,
        refl,
        ap (λ u. p ∷ u ∷ []) a.3.0
            ∙ stored-second sh.vector (phase fp) p t accepts a.3.1
            ∙ sym (ap (λ q. stored q sh.vector (phase fp) ++ (t ∷ [])) now),
      )
  AdderMove-Spec ok a again_first = (refl, refl)
  AdderMove-Spec ok a again_vector = (refl, refl)
  AdderMove-Spec ok a (enter h) = (refl, refl)
  AdderMove-Spec ok a (too_late h) = (locked→not_accepting sh fp ok h, refl, refl)
  AdderMove-Spec ok a (in_time h) = (refl, refl)
  AdderMove-Spec ok a (push_back {t}) = (
    a.2,
    refl,
    stored-many sh.atomic_data.pointer _ (phase fp) a.0
        ∙ sym
            (ap (λ v. v ++ (t ∷ [])) (stored-many sh.atomic_data.pointer sh.vector (phase fp) a.0)),
  )
  AdderMove-Spec ok a push_throws = (refl, refl)
