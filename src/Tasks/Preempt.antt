-- ===== src/Tasks/Preempt.antt =====
-- `schedule`, the switch that the clock forces, and `collaborative_schedule`.
use lutf.Base.{
  ℕ, ◌<◌, ◌≡◌, ◌≢◌, refl, List, [], ◌∷◌, ◌++◌, arith, ok, has, ◌∉◌, ◌==◌, false, Returns, mono, sym,
  has-append, ap, ◌∙◌, length, spin,
}
use lutf.Lists.Chain.{nodes, SameOutside}
use lutf.Lists.{Ptr, null, Links, tail, list_append, list_empty, elem_find}
use lutf.Store.{Store, Task, task_ready, general_tag, task_ready_list}
use lutf.Store.Access.{modify_task, update_at}
use lutf.Tasks.{switch_to_next, schedule, collaborative_schedule}
use lutf.Tasks.Queue.{
  IsTask, tags, tags-append, IsReady, IsQueue-find, IsQueue-append, IsQueue-empty,
}
use lutf.Tasks.Switch.{Switched, Prepared, same_globals, switch_to_next-Switched}

-- the running task as `schedule` leaves it: ready, with a full time slice and its registers saved
abbrev pub preempted : Store → Task
preempted s =
    let r = s.task s.current_task in
    record r { ticks = r.priority; status = task_ready; context = s.cpu }

abbrev queued : Store → Links → Store
queued s m =
    let c = s.current_task in
    let aged = update_at s.task c (record (s.task c) { ticks = (s.task c).priority }) in
    record s { links = m; task = update_at aged c (record (aged c) { status = task_ready }) }

queued-Prepared : (s : Store) (m : Links) → Prepared s s.current_task (preempted s) (queued s m)
queued-Prepared s m = record {
  own = ground arith;
  others = λ p ne. ground arith;
  cpu = refl;
  globals = record {
    lock = refl;
    main_task = refl;
    task_all_nums = refl;
    tid_start = refl;
    tid_bitmap = refl;
    supply = refl;
  };
}

schedule-eq :
    (rounds : ℕ) (s : Store) (m : Links)
    → s.current_task ≢ null
    → elem_find rounds task_ready_list (general_tag s.current_task) s.links ≡ ok false s.links
    → list_append task_ready_list (general_tag s.current_task) s.links ≡ ok tt m
    → list_empty task_ready_list m ≡ ok false m
    → schedule rounds s ≡ switch_to_next (queued s m)
unfolding schedule modify_task
schedule-eq rounds s m hc find append more =
    let c_null : (s.current_task == null) ≡ false = ground arith in
    rw (find, append, c_null, c_null, more) refl

-- appending to the queue and taking from it write to nodes of the longer queue only
SameOutside-trans :
    {m m' m'' : Links} (ts qs : List Ptr) (c : Ptr)
    → ts ++ (c ∷ []) ≡ qs
    → SameOutside (general_tag c ∷ nodes task_ready_list (tags ts)) m m'
    → SameOutside (nodes task_ready_list (tags qs)) m' m''
    → SameOutside (nodes task_ready_list (tags qs)) m m''
SameOutside-trans ts qs c e h k p out =
    let tags_qs : tags qs ≡ tags ts ++ (general_tag c ∷ []) =
      sym (ap tags e) ∙ tags-append ts (c ∷ []) in
    let out' : p ∉ (general_tag c ∷ nodes task_ready_list (tags ts)) = ground (
      arith,
      ap (λ xs. has p (nodes task_ready_list xs)) tags_qs,
      has-append p (tags ts ++ (general_tag c ∷ [])) (tail task_ready_list ∷ []),
      has-append p (tags ts) (general_tag c ∷ []),
      has-append p (tags ts) (tail task_ready_list ∷ []),
    ) in
    ((k p out).0 ∙ (h p out').0, (k p out).1 ∙ (h p out').1)

-- `schedule`: the running task, which is not in the ready queue, goes behind the tasks that are
-- ready, with a full time slice, and the first task of that queue runs: if no other is ready, the
-- same task goes on. No node outside the queue is written, and the signal mask stays. `rounds`
-- exceeds the length of the queue.
pub schedule_lem :
    (rounds : ℕ) (s : Store) (ts us : List Ptr) (t : Ptr)
    → IsReady s.links ts
    → IsTask s.current_task
    → s.current_task ∉ ts
    → length ts < rounds
    → ts ++ (s.current_task ∷ []) ≡ t ∷ us
    → Returns
        (λ _ s'.
          Switched s s.current_task t (preempted s) us s'
          × SameOutside (nodes task_ready_list (tags (t ∷ us))) s.links s'.links
          × (s'.unmasked ≡ s.unmasked))
        (schedule rounds s)
schedule_lem rounds s ts us t r hc out lt e =
    let (m, append, r', same) = IsQueue-append r s.current_task hc out in
    let r'' : IsReady m (t ∷ us) = rw e at r' in
    rw
      (schedule-eq rounds s m (omega arith) (rw out at (IsQueue-find r rounds s.current_task lt))
        append (IsQueue-empty (t ∷ us) r''))
      (mono
        (switch_to_next-Switched s (queued s m) t us (preempted s) (omega arith) r''
          (queued-Prepared s m))
        λ _ s' (w, spared, mask).
          (w, SameOutside-trans ts (t ∷ us) s.current_task e same spared, mask))

-- `collaborative_schedule` with a task ready: the running task saves its registers and gives the
-- processor to the first ready task, without joining the queue. No node outside the queue is
-- written, and the signal mask stays.
pub collaborative_schedule_lem :
    (s : Store) (t : Ptr) (ts : List Ptr)
    → IsReady s.links (t ∷ ts)
    → s.current_task ≢ null
    → Returns
        (λ _ s'.
          Switched s s.current_task t (record (s.task s.current_task) { context = s.cpu }) ts s'
          × SameOutside (nodes task_ready_list (tags (t ∷ ts))) s.links s'.links
          × (s'.unmasked ≡ s.unmasked))
        (collaborative_schedule s)
unfolding collaborative_schedule
collaborative_schedule_lem s t ts r hc = rw (IsQueue-empty (t ∷ ts) r) (
    switch_to_next-Switched s s t ts (record (s.task s.current_task) { context = s.cpu }) hc r
      (record { own = refl; others = λ p ne. refl; cpu = refl; globals = same_globals s }))

-- With no ready task it loops for ever.
pub collaborative_schedule_idle :
    (s : Store) → IsReady s.links [] → collaborative_schedule s ≡ spin s
unfolding collaborative_schedule
collaborative_schedule_idle s r = rw (IsQueue-empty [] r) refl
