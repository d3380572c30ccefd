-- ===== src/Hook/Nap.antt =====
-- A nap from the call of `usleep` to the end of the sleep, by way of the clock interrupt and the timers.
use lutf.Base.{
  ℕ, ◌+◌, ◌-◌, ◌/◌, ◌<◌, ◌^◌, ◌≡◌, refl, ◌≢◌, true, not, ◌∙◌, if◌then◌else◌, List, [], arith, Cmd,
  spin, Returns, mono, length, ap,
}
use lutf.Hook.{wait_awake, ask_sleep, usleep}
use lutf.Hook.Descriptors.{current_is_hook-eq}
use lutf.Interrupt.{end_of_slice}
use lutf.Interrupt.Sleeper.{Sleepy, Naps, nap-Awake}
use lutf.Lists.{Ptr, null}
use lutf.Store.{Store, Task}
use lutf.Store.Access.{get_task-eq, modify_task-eq, put_task}
use lutf.Tasks.Queue.{IsTask, IsReady}
use lutf.Timers.Run.{Callbacks}
use lutf.Timers.Wheels.{Clock}

-- the running task of `s`, as it asks to sleep for `d` milliseconds
abbrev pub asking : Store → ℕ → Store
asking s d =
    let t = s.current_task in
    let s₁ = put_task s t (record (s.task t) { is_collaborative_schedule = true }) in
    put_task s₁ t (record (s₁.task t) { sleep_millisecond = d })

asking_self :
    (s : Store) (d : ℕ)
    → (asking s d).task s.current_task
      ≡ record (s.task s.current_task) { is_collaborative_schedule = true; sleep_millisecond = d }
asking_self s d = ground arith

ask_sleep-eq : (s : Store) (d : ℕ) → s.current_task ≢ null → ask_sleep d s ≡ spin (asking s d)
unfolding ask_sleep wait_awake
ask_sleep-eq s d h =
    let t = s.current_task in
    let s₁ = put_task s t (record (s.task t) { is_collaborative_schedule = true }) in
    let asks : ((asking s d).task t).is_collaborative_schedule ≡ true =
      ap (λ (r : Task). r.is_collaborative_schedule) (asking_self s d) in
    rw
      (
        modify_task-eq s t h (λ r. record r { is_collaborative_schedule = true }),
        modify_task-eq s₁ t h (λ r. record r { sleep_millisecond = d }),
        get_task-eq (asking s d) t h,
        asks,
      )
      refl

-- A hooked task that calls `usleep` for less than 256 ms, with no other timers: it asks to sleep and waits;
-- the next clock interrupt gives the processor to the first ready task; and in the memory and the wheels that
-- this leaves, the loop of `run_timer` makes the sleeper ready again, behind the ready tasks, at the time
-- at which the nap ends, and changes no task before. `rounds` exceeds the number of ready tasks.
pub usleep-Awake :
    (os_usleep : ℕ → Cmd Store ℕ) (others : Callbacks) (k rounds helper usec : ℕ) (c : Clock)
    (z : Ptr) (more : List ℕ) (u : Ptr) (us : List Ptr)
    → Sleepy c [] (λ _. []) z more u us
    → (c.store.task c.store.current_task).is_hook ≡ true
    → helper ≢ null
    → IsTask c.store.current_task
    → usec / 1000 < 256
    → c.u_jiffies < 2 ^ 32 - 257
    → length us < rounds
    → 1 < rounds
    → 256 < k
    → (usleep os_usleep usec c.store ≡ spin (asking c.store (usec / 1000)))
      × Returns
          (λ _ c'.
            (c'.store.current_task ≡ u)
            × IsReady c'.store.links us
            × Naps others k rounds helper c.store.current_task us (c.u_jiffies + usec / 1000) c')
          (end_of_slice rounds helper (record c { store = asking c.store (usec / 1000) }))
unfolding usleep
usleep-Awake os_usleep others k rounds helper usec c z more u us h hooked some_fn task short early
      lt two enough =
    let t = c.store.current_task in
    let c₁ : Clock = record c { store = asking c.store (usec / 1000) } in
    let asks : (c₁.store.task t).is_collaborative_schedule ≡ true =
      ap (λ (r : Task). r.is_collaborative_schedule) (asking_self c.store (usec / 1000)) in
    let time : (c₁.store.task t).sleep_millisecond ≡ usec / 1000 =
      ap (λ (r : Task). r.sleep_millisecond) (asking_self c.store (usec / 1000)) in
    let h₁ : Sleepy c₁ [] (λ _. []) z more u us = record {
      wheel = h.wheel;
      supply = h.supply;
      behind = h.behind;
      absent = h.absent;
      idle = record {
        free = h.idle.free;
        nobody = h.idle.nobody;
        not_null = h.idle.not_null;
        running = h.idle.running;
      };
      ready = h.ready;
      not_ready = h.not_ready;
    } in
    (
      rw (current_is_hook-eq c.store h.idle.running) (
          ap (λ b. (if not b then os_usleep usec else ask_sleep (usec / 1000)) c.store) hooked
          ∙ ask_sleep-eq c.store (usec / 1000) h.idle.running),
      mono
          (nap-Awake others k rounds helper c₁ z more u us h₁ asks some_fn task
            (omega (arith, time, short)) early lt two enough)
          λ _ c' (slept, later). (slept.current, slept.ready, rw time at later),
    )
