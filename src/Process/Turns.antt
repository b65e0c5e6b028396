-- ===== src/Process/Turns.antt =====
-- The order in which `basekernel/kernel/process.c` lets processes run.
use stage_os.Base.{
  ℕ, ◌+◌, ◌<◌, ◌≡◌, ◌∙◌, refl, ap, ◌⊎◌, inl, inr, Option, none, some, List, [], ◌∷◌, ◌++◌,
  append_assoc, length, arith,
}
use stage_os.Process.{
  Kernel, State, ready, blocked, grave, leave, resume, switch, yield, yield_from, preempt,
  preempt_from, wait, wakeup, wakeup_all, make_ready, find_parent, wake_found, wakeup_parent,
  set_exit, exit, wait_for_child,
}
use stage_os.Process.Steps.{Step, Steps}

-- A process stands in the ready list behind `before`, or it has just been given the processor.
abbrev Behind : ℕ → List ℕ → Kernel → Type 0
Behind p before k = (after : List ℕ) × (k.ready_list ≡ before ++ p ∷ after)

abbrev Advanced : ℕ → List ℕ → Kernel → Type 0
Advanced p [] k = k.current ≡ some p
Advanced p (b ∷ before) k = Behind p before k

Behind-append :
    (p : ℕ) (before : List ℕ) (more : List ℕ) (l : List ℕ)
    → ((after : List ℕ) × (l ≡ before ++ p ∷ after))
    → ((after : List ℕ) × (l ++ more ≡ before ++ p ∷ after))
Behind-append p before more l (after, e) =
    (after ++ more, ap (λ r. r ++ more) e ∙ append_assoc before (p ∷ after) more)

-- Taking the first process off the ready list brings every other one forward.
resume-Advanced :
    (p : ℕ) (before : List ℕ) (l : List ℕ) (k : Kernel)
    → ((after : List ℕ) × (l ≡ before ++ p ∷ after))
    → Advanced p before (resume l k)
unfolding resume
resume-Advanced p [] [] k (after, e) = cc
resume-Advanced p [] (x ∷ l) k (after, e) = cc
resume-Advanced p (b ∷ before) [] k (after, e) = cc
resume-Advanced p (b ∷ before) (x ∷ l) k (after, e) = (after, cc)

leave-Behind :
    (p : ℕ) (before : List ℕ) (s : State) (c : Option ℕ) (k : Kernel)
    → Behind p before k
    → Behind p before (leave s c k)
unfolding leave
leave-Behind p before s none k h = h
leave-Behind p before ready (some c) k h = Behind-append p before (c ∷ []) k.ready_list h
leave-Behind p before blocked (some c) k h = h
leave-Behind p before grave (some c) k h = h
leave-Behind p before State.cradle (some c) k h = h
leave-Behind p before State.running (some c) k h = h

switch-Advanced :
    (p : ℕ) (before : List ℕ) (s : State) (k : Kernel)
    → Behind p before k
    → Advanced p before (switch s k)
unfolding switch
switch-Advanced p before s k h =
    resume-Advanced p before (leave s k.current k).ready_list (leave s k.current k)
      (leave-Behind p before s k.current k h)

wakeup_all-Behind :
    (p : ℕ) (before q : List ℕ) (k : Kernel) → Behind p before k → Behind p before (wakeup_all q k)
unfolding wakeup_all
wakeup_all-Behind p before [] k h = h
wakeup_all-Behind p before (x ∷ q) k h =
    wakeup_all-Behind p before q (make_ready x k) (Behind-append p before (x ∷ []) k.ready_list h)

wake_found-Behind :
    (p : ℕ) (before : List ℕ) (r : Option (ℕ × List ℕ)) (k : Kernel)
    → Behind p before k
    → Behind p before (wake_found r k)
unfolding wake_found
wake_found-Behind p before none k h = h
wake_found-Behind p before (some r) k h = Behind-append p before (r.0 ∷ []) k.ready_list h

-- The number of times that a step gives the processor away: 1 if it switches, and else 0.
pub hand_overs : {q : List ℕ} {k : Kernel} {q' : List ℕ} {k' : Kernel} → Step q k q' k' → ℕ
hand_overs (Step.yields _ k) = elim k.current [ none ↦ 0 | some c ↦ 1 ]
hand_overs (Step.preempts _ k) = elim k.ready_list [
  | [] ↦ 0
  | x ∷ l ↦ elim k.current [ none ↦ 0 | some c ↦ 1 ]
]
hand_overs (Step.exits _ _ c code e) = 1
hand_overs (Step.waits _ _) = 1
hand_overs (Step.waits_for_child _ k pid) = elim k.current [ none ↦ 0 | some c ↦ 1 ]
hand_overs (Step.wakes _ _) = 0
hand_overs (Step.wakes_all _ _) = 0
hand_overs (Step.resumes _ _ e) = 1

-- The number of such steps in a run
unfoldable pub turns : {q : List ℕ} {k : Kernel} {q' : List ℕ} {k' : Kernel} → Steps q k q' k' → ℕ
unfolding hand_overs
turns (Steps.done _ _) = 0
turns (Steps.next _ _ _ _ _ _ s rest) = hand_overs s + turns rest

-- A process runs after one of the steps of a run.
pub Runs : {q : List ℕ} {k : Kernel} {q' : List ℕ} {k' : Kernel} → ℕ → Steps q k q' k' → Type 0
Runs p (Steps.done _ _) = ⊥
Runs p (Steps.next _ _ _ k' _ _ s rest) = (k'.current ≡ some p) ⊎ Runs p rest

-- A step keeps the place of a process in the ready list, or gives the processor away and brings the
-- process forward.
abbrev Moves : ℕ → List ℕ → ℕ → Kernel → Type 0
Moves p before n k = ((n ≡ 0) × Behind p before k) ⊎ ((n ≡ 1) × Advanced p before k)

yield-Moves :
    (p : ℕ) (before : List ℕ) (c : Option ℕ) (k : Kernel)
    → Behind p before k
    → Moves p before (elim c [ none ↦ 0 | some c ↦ 1 ]) (yield_from c k)
unfolding yield_from
yield-Moves p before none k h = inl (refl, h)
yield-Moves p before (some c) k h = inr (refl, switch-Advanced p before ready k h)

preempt-Moves :
    (p : ℕ) (before l : List ℕ) (k : Kernel)
    → Behind p before k
    → Moves p before
        (elim l [ [] ↦ 0 | x ∷ l ↦ elim k.current [ none ↦ 0 | some c ↦ 1 ] ])
        (preempt_from l k)
unfolding preempt_from yield
preempt-Moves p before [] k h = inl (refl, h)
preempt-Moves p before (x ∷ l) k h = yield-Moves p before k.current k h

child-Moves :
    (p : ℕ) (before : List ℕ) (pid : ℕ) (c : Option ℕ) (k : Kernel)
    → Behind p before k
    → Moves p before (elim c [ none ↦ 0 | some c ↦ 1 ]) (wait_for_child pid c k)
unfolding wait_for_child
child-Moves p before pid none k h = inl (refl, h)
child-Moves p before pid (some c) k h = inr (refl, switch-Advanced p before blocked _ h)

wakeup-Behind :
    (p : ℕ) (before q : List ℕ) (k : Kernel) → Behind p before k → Behind p before (wakeup q k).1
unfolding wakeup
wakeup-Behind p before [] k h = h
wakeup-Behind p before (x ∷ q) k h = Behind-append p before (x ∷ []) k.ready_list h

Step-Moves :
    (p : ℕ) (before q : List ℕ) (k : Kernel) (q' : List ℕ) (k' : Kernel) (s : Step q k q' k')
    → Behind p before k
    → Moves p before (hand_overs s) k'
unfolding hand_overs yield preempt exit wakeup_parent wait
Step-Moves p before q k q' k' (Step.yields _ _) h = yield-Moves p before k.current k h
Step-Moves p before q k q' k' (Step.preempts _ _) h = preempt-Moves p before k.ready_list k h
Step-Moves p before q k q' k' (Step.exits _ _ c code e) h = inr (
  refl,
  switch-Advanced p before grave _ (
      wake_found-Behind p before (find_parent (set_exit c code k).at c k.grave_watcher_list)
        (set_exit c code k) h),
)
Step-Moves p before q k q' k' (Step.waits _ _) h = inr (refl, switch-Advanced p before blocked k h)
Step-Moves p before q k q' k' (Step.waits_for_child _ _ pid) h =
    child-Moves p before pid k.current k h
Step-Moves p before q k q' k' (Step.wakes _ _) h = inl (refl, wakeup-Behind p before q k h)
Step-Moves p before q k q' k' (Step.wakes_all _ _) h = inl (refl, wakeup_all-Behind p before q k h)
Step-Moves p before q k q' k' (Step.resumes _ _ e) h =
    inr (refl, resume-Advanced p before k.ready_list k h)

-- The rest of a run, after one step
step_Runs :
    (p : ℕ) (given rest : ℕ) (k : Kernel) (Later : Type 0)
    → ((before after : List ℕ) → k.ready_list ≡ before ++ p ∷ after → length before < rest → Later)
    → (before : List ℕ) → length before < given + rest
    → Moves p before given k
    → (k.current ≡ some p) ⊎ Later
step_Runs p given rest k Later ih before lt (inl (zero_given, (after, e))) =
    inr (ih before after e (omega arith))
step_Runs p given rest k Later ih [] lt (inr (one_given, runs)) = inl runs
step_Runs p given rest k Later ih (b ∷ before) lt (inr (one_given, (after, e))) =
    inr (ih before after e (omega arith))

-- A process that stands in the ready list runs in any run of the scheduler that gives the processor
-- away more often than processes stand before it, whatever else happens in between.
pub Steps-Runs :
    (p : ℕ) (before after q : List ℕ) (k : Kernel) (q' : List ℕ) (k' : Kernel) (r : Steps q k q' k')
    → k.ready_list ≡ before ++ p ∷ after
    → length before < turns r
    → Runs p r
unfolding turns Runs
Steps-Runs p before after q k q' k' (Steps.done _ _) e lt = absurd (omega arith)
Steps-Runs p before after q k q' k' (Steps.next _ _ q1 k1 _ _ s rest) e lt =
    step_Runs p (hand_overs s) (turns rest) k1 (Runs p rest)
      (λ before' after'. Steps-Runs p before' after' q1 k1 q' k' rest) before lt
      (Step-Moves p before q k q1 k1 s (after, e))
