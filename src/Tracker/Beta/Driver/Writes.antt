-- ===== src/Tracker/Beta/Driver/Writes.antt =====
-- A write of `sqlDriver` is all or nothing.
use depscloud.Base.{◌>>=◌, ◌>>◌, >>=-eq-ok, Bool, Error, List, Option, Result, [], arith, check}
use depscloud.Base.{err, if◌then◌else◌, inl, inr, none, ok, panic, refl, some, sym, unsupported}
use depscloud.Base.{ℕ, ◌+◌, ◌∙◌, ◌∷◌, ◌≡◌, ◌≢◌, ◌⊎◌}
use depscloud.Tracker.Beta.Driver.{Answers, Table, exec_all, write}
use depscloud.Tracker.Beta.Types.{GraphData}

abbrev pub run_all : (GraphData → Table → Table) → List GraphData → Table → Table
run_all run [] t = t
run_all run (x ∷ xs) t = run_all run xs (run x t)

exec_all-run_all :
    (run : GraphData → Table → Table) (exec : ℕ → Option Error) (n : ℕ) (items : List GraphData)
    (t done : Table)
    → exec_all run exec n items t ≡ ok done
    → done ≡ run_all run items t
unfolding exec_all
exec_all-run_all run exec n [] t done h = ground arith
exec_all-run_all run exec n (x ∷ xs) t done h =
    let (_, _, h1) = >>=-eq-ok (check (exec n)) _ h in
    exec_all-run_all run exec (n + 1) xs (run x t) done h1

-- Either the write reports success and every statement was run, or it does not and the table is as
-- it was.
abbrev pub AllOrNothing :
    (GraphData → Table → Table) → List GraphData → Table → Result (Unit {0}) × Table → Type 0
AllOrNothing run items t out =
    ((out.0 ≡ ok tt) × (out.1 ≡ run_all run items t)) ⊎ ((out.0 ≢ ok tt) × (out.1 ≡ t))

pub write-AllOrNothing :
    (writable : Bool) (run : GraphData → Table → Table) (answers : Answers) (items : List GraphData)
    (t : Table)
    → AllOrNothing run items t (write writable run answers items t)
unfolding write
write-AllOrNothing writable run answers items t = by_result _ refl
  where
    steps : Result Table
    steps = do
      check (if writable then none else some unsupported)
      check answers.begin
      done ← exec_all run answers.exec 0 items t
      check answers.commit
      ok done

    by_result :
        (r : Result Table)
        → steps ≡ r
        → AllOrNothing run items t
            (elim r [ ok done ↦ (ok tt, done) | err e ↦ (err e, t) | panic ↦ (panic, t) ])
    by_result (err e) h = inr (λ x. cc x, refl)
    by_result panic h = inr (λ x. cc x, refl)
    by_result (ok done) h =
        let (_, _, h1) = >>=-eq-ok (check (if writable then none else some unsupported)) _ h in
        let (_, _, h2) = >>=-eq-ok (check answers.begin) _ h1 in
        let (done', e, h3) = >>=-eq-ok (exec_all run answers.exec 0 items t) _ h2 in
        let (_, _, h4) = >>=-eq-ok (check answers.commit) _ h3 in
        let same : done' ≡ done = cc h4 in
        inl (refl, sym same ∙ exec_all-run_all run answers.exec 0 items t done' e)
