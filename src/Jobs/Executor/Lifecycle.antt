-- ===== src/Jobs/Executor/Lifecycle.antt =====
-- The life of a job under agent/src/executor/mod.rs, with deletions and reports between its steps.
use all4one.Prelude.{
  ℕ, ◌≡◌, refl, sym, subst, ◌∙◌, Option, none, some, Text, get, insert, get-insert, nat_eq, nat_beq,
  nat_beq_iff, Bool-cases, Option-cases, inl, inr, arith,
}
use all4one.Common.{JobId, running}
use all4one.Jobs.Records.{
  ℤ, JobRecord, Jobs, is_finished, delete_job, Report, apply_terminal_job_update,
}
use all4one.Jobs.Executor.{
  code_or, is_zero, is_cancelled, ended, start_job, fail_job, finish_job, Outcome, spawn_failed,
  exited, wait_failed, end_job,
}

-- What a record keeps for good.
abbrev pub SameJob : JobRecord → JobRecord → Type 0
SameJob j k =
    (j.job_id ≡ k.job_id)
    × (j.assigned_to ≡ k.assigned_to)
    × (j.runtime ≡ k.runtime)
    × (j.source ≡ k.source)
    × (j.command ≡ k.command)
    × (j.created_at ≡ k.created_at)

abbrev pub KeepsJob : Option JobRecord → Option JobRecord → Type 0
KeepsJob none none = Unit
KeepsJob none (some k) = ⊥
KeepsJob (some j) none = ⊥
KeepsJob (some j) (some k) = SameJob j k

KeepsJob-refl : (o : Option JobRecord) → KeepsJob o o
KeepsJob-refl none = tt
KeepsJob-refl (some j) = (refl, refl, refl, refl, refl, refl)

KeepsJob-trans : (a b c : Option JobRecord) → KeepsJob a b → KeepsJob b c → KeepsJob a c
KeepsJob-trans none none c h k = k
KeepsJob-trans none (some b) c h k = absurd h
KeepsJob-trans (some a) none c h k = absurd h
KeepsJob-trans (some a) (some b) none h k = absurd k
KeepsJob-trans (some a) (some b) (some c) h k = ground arith

-- One lock's work on the map of jobs.
pub data Step : Jobs → Jobs → Type 0 where
  started : {a b : Jobs} (now : ℕ) (id : JobId) → start_job now id a ≡ some b → Step a b
  stopped : {a b : Jobs} (now : ℕ) (id : JobId) (o : Outcome) → end_job now id o a ≡ b → Step a b
  cancel : {a b : Jobs} (now : ℕ) (id : Option JobId) → (delete_job now id a).1 ≡ b → Step a b
  reported :
      {a b : Jobs} (now : ℕ) (id : JobId) (r : Report)
      → apply_terminal_job_update now id r a ≡ some b
      → Step a b

pub data Steps : Jobs → Jobs → Type 0 where
  done : {a : Jobs} → Steps a a
  next : {a b c : Jobs} → Step a b → Steps b c → Steps a c

-- A record that is put in the place of one with the same identity.
KeepsJob-insert :
    (i k : JobId) (j j' : JobRecord) (jobs : Jobs)
    → get i jobs ≡ some j
    → SameJob j j'
    → KeepsJob (get k jobs) (get k (insert i j' jobs))
KeepsJob-insert i k j j' jobs here same = elim (Bool-cases (nat_beq i k)) [
  | inl own ↦
      let there : get k jobs ≡ some j = rw (← (nat_beq_iff i k).0 own) here in
      let now_there : get k (insert i j' jobs) ≡ some j' = get-insert i k j' jobs ∙ rw own refl in
      rw (there, now_there) same
  | inr other ↦
      let kept : get k (insert i j' jobs) ≡ get k jobs = get-insert i k j' jobs ∙ rw other refl in
      rw kept (KeepsJob-refl (get k jobs))
]

SameJob-ended : (now : ℕ) (code : ℤ) (j : JobRecord) → SameJob j (ended now code j)
SameJob-ended now code j = elim (Bool-cases (is_zero code)) [
  | inl ok ↦ rw (ended, ok) (refl, refl, refl, refl, refl, refl)
  | inr bad ↦ rw (ended, bad) (refl, refl, refl, refl, refl, refl)
]

fail_job-KeepsJob :
    (now : ℕ) (i k : JobId) (message : Text) (jobs : Jobs)
    → KeepsJob (get k jobs) (get k (fail_job now i message jobs))
unfolding fail_job
fail_job-KeepsJob now i k message jobs = elim (Option-cases (get i jobs)) [
  | inl gone ↦ rw (fail_job, gone) (KeepsJob-refl (get k jobs))
  | inr (j, here) ↦ rw (fail_job, here) (KeepsJob-insert i k j _ jobs here (KeepsJob-refl (some j)))
]

finish_job-KeepsJob :
    (now : ℕ) (i k : JobId) (exit : Option ℤ) (jobs : Jobs)
    → KeepsJob (get k jobs) (get k (finish_job now i exit jobs))
unfolding finish_job
finish_job-KeepsJob now i k exit jobs = elim (Option-cases (get i jobs)) [
  | inl gone ↦ rw (finish_job, gone) (KeepsJob-refl (get k jobs))
  | inr (j, here) ↦ elim (Bool-cases (is_cancelled j.status)) [
    | inl off ↦ rw (finish_job, here, off) (KeepsJob-refl (get k jobs))
    | inr on ↦
        rw (finish_job, here, on)
          (KeepsJob-insert i k j (ended now (code_or exit) j) jobs here
            (SameJob-ended now (code_or exit) j))
  ]
]

end_job-KeepsJob :
    (now : ℕ) (i k : JobId) (o : Outcome) (jobs : Jobs)
    → KeepsJob (get k jobs) (get k (end_job now i o jobs))
unfolding end_job
end_job-KeepsJob now i k (spawn_failed e) jobs = fail_job-KeepsJob now i k _ jobs
end_job-KeepsJob now i k (exited exit) jobs = finish_job-KeepsJob now i k exit jobs
end_job-KeepsJob now i k (wait_failed e) jobs = fail_job-KeepsJob now i k _ jobs

delete_job-KeepsJob :
    (now : ℕ) (i : Option JobId) (k : JobId) (jobs : Jobs)
    → KeepsJob (get k jobs) (get k (delete_job now i jobs).1)
unfolding delete_job
delete_job-KeepsJob now none k jobs = KeepsJob-refl (get k jobs)
delete_job-KeepsJob now (some i) k jobs = elim (Option-cases (get i jobs)) [
  | inl gone ↦ rw (delete_job, gone) (KeepsJob-refl (get k jobs))
  | inr (j, here) ↦ elim (Bool-cases (is_finished j.status)) [
    | inl over ↦ rw (delete_job, here, over) (KeepsJob-refl (get k jobs))
    | inr unfinished ↦
        rw (delete_job, here, unfinished)
          (KeepsJob-insert i k j _ jobs here (KeepsJob-refl (some j)))
  ]
]

some_inj : {A : Type 0} {a b : A} → ◌≡◌ {A = Option A} (some a) (some b) → a ≡ b
some_inj h = cc

start_job-KeepsJob :
    (now : ℕ) (i k : JobId) (a b : Jobs) → start_job now i a ≡ some b → KeepsJob (get k a) (get k b)
unfolding start_job
start_job-KeepsJob now i k a b e = elim (Option-cases (get i a)) [
  | inl gone ↦
      let nothing : start_job now i a ≡ none = rw (start_job, gone) refl in
      absurd (ground (arith, e, nothing))
  | inr (j, here) ↦
      let made : start_job now i a
          ≡ some (insert i (record j { status = running; updated_at = now }) a) =
        rw (start_job, here) refl in
      subst (λ x. KeepsJob (get k a) (get k x)) (some_inj (sym made ∙ e))
        (KeepsJob-insert i k j _ a here (KeepsJob-refl (some j)))
]

report-KeepsJob :
    (now : ℕ) (i k : JobId) (r : Report) (a b : Jobs)
    → apply_terminal_job_update now i r a ≡ some b
    → KeepsJob (get k a) (get k b)
unfolding apply_terminal_job_update
report-KeepsJob now i k r a b e = elim (Option-cases (get i a)) [
  | inl gone ↦
      let nothing : apply_terminal_job_update now i r a ≡ none =
        rw (apply_terminal_job_update, gone) refl in
      absurd (ground (arith, e, nothing))
  | inr (j, here) ↦
      let j' = record j {
        status = r.status;
        exit_code = r.exit_code;
        error = r.error;
        updated_at = now;
      } in
      let made : apply_terminal_job_update now i r a ≡ some (insert i j' a) =
        rw (apply_terminal_job_update, here) refl in
      subst (λ x. KeepsJob (get k a) (get k x)) (some_inj (sym made ∙ e))
        (KeepsJob-insert i k j j' a here (KeepsJob-refl (some j)))
]

Step-KeepsJob : (k : JobId) {a b : Jobs} → Step a b → KeepsJob (get k a) (get k b)
Step-KeepsJob k {a} {b} (started now i e) = start_job-KeepsJob now i k a b e
Step-KeepsJob k {a} {b} (stopped now i o e) =
    subst (λ x. KeepsJob (get k a) (get k x)) e (end_job-KeepsJob now i k o a)
Step-KeepsJob k {a} {b} (cancel now i e) =
    subst (λ x. KeepsJob (get k a) (get k x)) e (delete_job-KeepsJob now i k a)
Step-KeepsJob k {a} {b} (reported now i r e) = report-KeepsJob now i k r a b e

-- Whatever the executor, deletions and reports do, one after the other in any order: every job that is
-- there stays, none is added, and a record keeps its id, its node, what is run and when it was made.
pub Steps-KeepsJob : (k : JobId) {a b : Jobs} → Steps a b → KeepsJob (get k a) (get k b)
Steps-KeepsJob k {a} {b} done = KeepsJob-refl (get k a)
Steps-KeepsJob k {a} {b} (next {b = m} s rest) =
    KeepsJob-trans (get k a) (get k m) (get k b) (Step-KeepsJob k s) (Steps-KeepsJob k rest)
