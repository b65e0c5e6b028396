-- ===== src/Process/Steps.antt =====
-- The steps of the scheduler of `basekernel/kernel/process.c`, with one queue on which processes sleep.
use stage_os.Base.{ℕ, ◌≡◌, ◌∙◌, refl, none, some, List, []}
use stage_os.Process.{
  Kernel, yield, preempt, resume, wait, wakeup, wakeup_all, exit, wait_for_child,
}
use stage_os.Process.Members.{
  places, yield-places, preempt-places, resume-places, wait-places, wakeup-places,
  wakeup_all-places, exit-places, wait_for_child-places,
}

-- What the current process, an interrupt or a driver does
pub data Step : List ℕ → Kernel → List ℕ → Kernel → Type 0 where
  yields : (q : List ℕ) (k : Kernel) → Step q k q (yield k)
  preempts : (q : List ℕ) (k : Kernel) → Step q k q (preempt k)
  exits : (q : List ℕ) (k : Kernel) (c code : ℕ) → k.current ≡ some c → Step q k q (exit c code k)
  waits : (q : List ℕ) (k : Kernel) → Step q k (wait q k).0 (wait q k).1
  waits_for_child :
      (q : List ℕ) (k : Kernel) (pid : ℕ) → Step q k q (wait_for_child pid k.current k)
  wakes : (q : List ℕ) (k : Kernel) → Step q k (wakeup q k).0 (wakeup q k).1
  wakes_all : (q : List ℕ) (k : Kernel) → Step q k [] (wakeup_all q k)
  resumes : (q : List ℕ) (k : Kernel) → k.current ≡ none → Step q k q (resume k.ready_list k)

pub data Steps : List ℕ → Kernel → List ℕ → Kernel → Type 0 where
  done : (q : List ℕ) (k : Kernel) → Steps q k q k
  next :
      (q : List ℕ) (k : Kernel) (q' : List ℕ) (k' : Kernel) (q'' : List ℕ) (k'' : Kernel)
      → Step q k q' k'
      → Steps q' k' q'' k''
      → Steps q k q'' k''

Step-places :
    (p : ℕ) (q : List ℕ) (k : Kernel) (q' : List ℕ) (k' : Kernel)
    → Step q k q' k'
    → places p q' k' ≡ places p q k
unfolding yield preempt
Step-places p q k q' k' (Step.yields _ _) = yield-places p q k.current k
Step-places p q k q' k' (Step.preempts _ _) = preempt-places p q k.ready_list k
Step-places p q k q' k' (Step.exits _ _ c code e) = exit-places p q c code k
Step-places p q k q' k' (Step.waits _ _) = wait-places p q k
Step-places p q k q' k' (Step.waits_for_child _ _ pid) =
    wait_for_child-places p q pid k.current k refl
Step-places p q k q' k' (Step.wakes _ _) = wakeup-places p q k
Step-places p q k q' k' (Step.wakes_all _ _) = wakeup_all-places p q k
Step-places p q k q' k' (Step.resumes _ _ e) = resume-places p q k.ready_list k e refl

-- No sequence of scheduler steps loses or doubles a process: each runs or stands in the lists as often
-- as before.
pub Steps-places :
    (p : ℕ) (q : List ℕ) (k : Kernel) (q' : List ℕ) (k' : Kernel)
    → Steps q k q' k'
    → places p q' k' ≡ places p q k
Steps-places p q k q' k' (Steps.done _ _) = refl
Steps-places p q k q' k' (Steps.next _ _ r l _ _ s rest) =
    Steps-places p r l q' k' rest ∙ Step-places p q k r l s
