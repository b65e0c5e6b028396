-- ===== src/Process/Members.antt =====
-- Where the processes of `basekernel/kernel/process.c` are: one runs, and the others stand in the ready
-- list, the grave list, the list of waiting parents or another queue.
use stage_os.Base.{
  ℕ, ◌+◌, ◌≡◌, ◌∙◌, refl, ap, sym, Option, none, some, List, [], ◌∷◌, ◌++◌, ◌==◌, if◌then◌else◌,
  arith, inl, inr, Bool-cases, Option-cases,
}
use mathlib.Core.Option.{some-injective}
use stage_os.Process.{
  State, cradle, running, ready, blocked, grave, Process, Kernel, assign, leave, resume, switch,
  yield_from, yield, preempt_from, push_current, set_exit, wake_found, wait, make_ready, wakeup,
  wakeup_all, awaits, find_parent, wakeup_parent, exit, wait_for_child,
}

-- How often a process stands in a list
unfoldable pub count : ℕ → List ℕ → ℕ
count p [] = 0
count p (q ∷ l) = (if p == q then 1 else 0) + count p l

abbrev pub count_current : ℕ → Option ℕ → ℕ
count_current p none = 0
count_current p (some q) = if p == q then 1 else 0

-- How often a process runs or stands in a list of the kernel or in `queue`
unfoldable pub places : ℕ → List ℕ → Kernel → ℕ
places p queue k =
    count_current p k.current
    + count p k.ready_list
    + count p k.grave_list
    + count p k.grave_watcher_list
    + count p queue

count-append : (p : ℕ) (l m : List ℕ) → count p (l ++ m) ≡ count p l + count p m
unfolding count
count-append p [] m = omega arith
count-append p (q ∷ l) m = omega (arith, count-append p l m)

count-snoc :
    (p q : ℕ) (l : List ℕ) → count p (l ++ (q ∷ [])) ≡ count p l + (if p == q then 1 else 0)
unfolding count
count-snoc p q l = omega (arith, count-append p l (q ∷ []))

pub resume-places :
    (p : ℕ) (queue l : List ℕ) (k : Kernel)
    → k.current ≡ none
    → l ≡ k.ready_list
    → places p queue (resume l k) ≡ places p queue k
unfolding places resume count
resume-places p queue [] k h e = omega (arith, ap (count_current p) h)
resume-places p queue (x ∷ xs) k h e = omega (arith, ap (count_current p) h, ap (count p) e)

-- What the current process leaves behind: it goes to the end of the ready list or of the grave list, or
-- is in no list of the kernel any more.
record Left (p : ℕ) (queue : List ℕ) (k : Kernel) (o : Option ℕ) : Type 0 where
  to_ready : places p queue (leave ready o k) ≡ places p queue k
  to_grave : places p queue (leave grave o k) ≡ places p queue k
  to_none : places p queue (leave blocked o k) + count_current p o ≡ places p queue k
  empty : (newstate : State) → (leave newstate o k).current ≡ none

gone : (q : ℕ) (k : Kernel) (newstate : State) → (leave newstate (some q) k).current ≡ none
unfolding leave
gone q k cradle = refl
gone q k ready = refl
gone q k running = refl
gone q k blocked = refl
gone q k grave = refl

leave-Left : (p : ℕ) (queue : List ℕ) (o : Option ℕ) (k : Kernel) → o ≡ k.current → Left p queue k o
unfolding places leave count
leave-Left p queue none k e = record {
  to_ready = refl;
  to_grave = refl;
  to_none = omega arith;
  empty = λ newstate. sym e;
}
leave-Left p queue (some q) k e =
    let c = ap (count_current p) e in
    record {
      to_ready = omega (arith, count-snoc p q k.ready_list, c);
      to_grave = omega (arith, count-snoc p q k.grave_list, c);
      to_none = omega (arith, c);
      empty = gone q k;
    }

switch-places :
    (p : ℕ) (queue : List ℕ) (k : Kernel)
    → (places p queue (switch ready k) ≡ places p queue k)
      × (places p queue (switch grave k) ≡ places p queue k)
      × (places p queue (switch blocked k) + count_current p k.current ≡ places p queue k)
unfolding switch
switch-places p queue k =
    let l = leave-Left p queue k.current k refl in
    let r = leave ready k.current k in
    let g = leave grave k.current k in
    let b = leave blocked k.current k in
    (
      resume-places p queue r.ready_list r (l.empty ready) refl ∙ l.to_ready,
      resume-places p queue g.ready_list g (l.empty grave) refl ∙ l.to_grave,
      ap (λ n. n + count_current p k.current)
            (resume-places p queue b.ready_list b (l.empty blocked) refl)
          ∙ l.to_none,
    )

pub yield-places :
    (p : ℕ) (queue : List ℕ) (o : Option ℕ) (k : Kernel)
    → places p queue (yield_from o k) ≡ places p queue k
unfolding yield_from
yield-places p queue none k = refl
yield-places p queue (some q) k = (switch-places p queue k).0

pub preempt-places :
    (p : ℕ) (queue l : List ℕ) (k : Kernel) → places p queue (preempt_from l k) ≡ places p queue k
unfolding preempt_from yield
preempt-places p queue [] k = refl
preempt-places p queue (q ∷ qs) k = yield-places p queue k.current k

-- What stands in another queue counts there.
places-queue :
    (p : ℕ) (q queue : List ℕ) (k : Kernel)
    → places p q k + count p queue ≡ places p queue k + count p q
unfolding places
places-queue p q queue k = omega arith

push_current-count :
    (p : ℕ) (q : List ℕ) (o : Option ℕ) → count p (push_current q o) ≡ count p q + count_current p o
push_current-count p q none = omega arith
push_current-count p q (some r) = count-snoc p r q

pub wait-places :
    (p : ℕ) (queue : List ℕ) (k : Kernel)
    → places p (wait queue k).0 (wait queue k).1 ≡ places p queue k
unfolding wait
wait-places p queue k =
    let s = (switch-places p queue k).2 in
    omega (
      arith,
      s,
      places-queue p (push_current queue k.current) queue (switch blocked k),
      push_current-count p queue k.current,
    )

make_ready-places :
    (p q : ℕ) (queue : List ℕ) (k : Kernel)
    → places p queue (make_ready q k) ≡ places p (q ∷ queue) k
unfolding places count
make_ready-places p q queue k = omega (arith, count-snoc p q k.ready_list)

pub wakeup-places :
    (p : ℕ) (queue : List ℕ) (k : Kernel)
    → places p (wakeup queue k).0 (wakeup queue k).1 ≡ places p queue k
unfolding wakeup
wakeup-places p [] k = refl
wakeup-places p (q ∷ queue) k = make_ready-places p q queue k

pub wakeup_all-places :
    (p : ℕ) (queue : List ℕ) (k : Kernel) → places p [] (wakeup_all queue k) ≡ places p queue k
unfolding wakeup_all
wakeup_all-places p [] k = refl
wakeup_all-places p (q ∷ queue) k =
    wakeup_all-places p queue (make_ready q k) ∙ make_ready-places p q queue k

find_parent-count :
    (p : ℕ) (at : ℕ → Process) (c : ℕ) (l : List ℕ) (r : ℕ × List ℕ)
    → find_parent at c l ≡ some r
    → count p l ≡ (if p == r.0 then 1 else 0) + count p r.1
unfolding find_parent count
find_parent-count p at c [] r e = absurd cc
find_parent-count p at c (x ∷ l) r e = elim (Bool-cases (awaits at c x)) [
  | inl t ↦
      let f = rw (t, find_parent) at e in
      let g : (x, l) ≡ r = some-injective (x, l) r f in
      omega (arith, ap (λ v. (if p == v.0 then 1 else 0) + count p v.1) g)
  | inr t ↦ elim (Option-cases (find_parent at c l)) [
    | inl z ↦ let f = rw (t, z, find_parent) at e in absurd cc
    | inr s ↦
        let f = rw (t, s.1, find_parent) at e in
        let g : (s.0.0, x ∷ s.0.1) ≡ r = some-injective (s.0.0, x ∷ s.0.1) r f in
        let ih = find_parent-count p at c l s.0 s.1 in
        omega (arith, ih, ap (λ v. (if p == v.0 then 1 else 0) + count p v.1) g)
  ]
]

wake_found-places :
    (p : ℕ) (queue : List ℕ) (c : ℕ) (k : Kernel) (o : Option (ℕ × List ℕ))
    → find_parent k.at c k.grave_watcher_list ≡ o
    → places p queue (wake_found o k) ≡ places p queue k
unfolding places wake_found count
wake_found-places p queue c k none e = refl
wake_found-places p queue c k (some r) e =
    omega
      (arith, find_parent-count p k.at c k.grave_watcher_list r e, count-snoc p r.0 k.ready_list)

set_exit-places :
    (p : ℕ) (queue : List ℕ) (c code : ℕ) (k : Kernel)
    → places p queue (set_exit c code k) ≡ places p queue k
unfolding places
set_exit-places p queue c code k = refl

pub exit-places :
    (p : ℕ) (queue : List ℕ) (c code : ℕ) (k : Kernel)
    → places p queue (exit c code k) ≡ places p queue k
unfolding exit wakeup_parent
exit-places p queue c code k =
    let k' = set_exit c code k in
    (switch-places p queue (wakeup_parent c k')).1
    ∙ wake_found-places p queue c k' (find_parent k'.at c k'.grave_watcher_list) refl
    ∙ set_exit-places p queue c code k

pub wait_for_child-places :
    (p : ℕ) (queue : List ℕ) (pid : ℕ) (o : Option ℕ) (k : Kernel)
    → o ≡ k.current
    → places p queue (wait_for_child pid o k) ≡ places p queue k
unfolding wait_for_child places
wait_for_child-places p queue pid none k e = refl
wait_for_child-places p queue pid (some c) k e =
    let k' : Kernel = record k {
      at = assign c (λ q. record q { waiting_for_child_pid = pid }) k.at;
      grave_watcher_list = push_current k.grave_watcher_list (some c);
    } in
    omega (
      arith,
      (switch-places p queue k').2,
      push_current-count p k.grave_watcher_list (some c),
      ap (count_current p) e,
    )
