-- ===== src/Timers/Run.antt =====
-- `run_timer` and the functions that make and delete timers: src/interrupt/timer.c from line 162 on.
use lutf.Base.{
  ℕ, zero, suc, ◌+◌, ◌%◌, ◌^◌, not, ◌&&◌, ◌||◌, ◌==◌, leb, if◌then◌else◌, Cmd, Unit₀, ok, pure,
  out_of_fuel, ◌>>=◌, ◌>>◌,
}
use lutf.Base.Int.{ℤ, pos, negsuc}
use lutf.Lists.{Ptr, null, get_next}
use lutf.Store.{Store}
use lutf.Store.Access.{malloc}
use lutf.Sync.{lock_init, lock_acquire, lock_release}
use lutf.Timers.{list_timer_replace_init, list_timer_unlink, init_array_list_timer}
use lutf.Timers.Wheels.{
  TimerNode, Clock, on_wheel, on_store, tvr_size, tvn_size, arr_list_timer1, arr_list_timer2,
  arr_list_timer3, arr_list_timer4, arr_list_timer5, list_tmr, list_tmr_expire, get_jiffies,
  add_timer, cascade,
}

-- What the function at an address does to the memory of the library, called with a parameter.
abbrev pub Callbacks : Type 0
Callbacks = (timer_fn p_param : ℕ) → Cmd Store Unit₀

-- a node that a write changes
abbrev pub set_node : Ptr → TimerNode → Cmd Clock Unit₀
set_node p_tmr n c = ok tt (record c { node = λ p. if p == p_tmr then n else c.node p })

-- the list of the timers that expire now, taken from its slot
unfoldable pub detach_expired : Cmd Clock Unit₀
detach_expired c =
    on_wheel
      (list_timer_replace_init (arr_list_timer1 c.timer_manager + c.u_jiffies % tvr_size)
        list_tmr_expire)
      c

-- A periodic timer that has run is added again; another one is freed.
unfoldable pub renew : Ptr → Cmd Clock Unit₀
renew p_tmr c =
    let n = c.node p_tmr in
    (if not (n.u_period == 0)
        then (do
          set_node p_tmr (record n { u_expires = (c.u_jiffies + n.u_period) % 2 ^ 32 })
          add_timer p_tmr)
        else pure tt)
      c

unfoldable pub next_jiffy : Cmd Clock Unit₀
next_jiffy c = ok tt (record c { u_jiffies = (c.u_jiffies + 1) % 2 ^ 32 })

module _ (call : Callbacks) where
  -- what becomes of a timer that has expired
  unfoldable pub expire : Ptr → Cmd Clock Unit₀
  expire p_tmr c =
      (do on_store (call (c.node p_tmr).timer_fn (c.node p_tmr).p_param); renew p_tmr) c

  unfoldable pub expire_from : ℕ → (p_list_tmr_expire : Ptr) → Cmd Clock Unit₀
  expire_from zero p_list_tmr_expire = λ _. out_of_fuel
  expire_from (suc k) p_list_tmr_expire =
      if p_list_tmr_expire == list_tmr_expire then pure tt else (do
        next ← on_wheel (get_next p_list_tmr_expire)
        expire p_list_tmr_expire
        expire_from k next)

  -- one round of the loop of `run_timer`
  unfoldable pub run_tick : ℕ → Cmd Clock Unit₀
  run_tick rounds = do
    cascade rounds
    detach_expired
    first ← on_wheel (get_next list_tmr_expire)
    expire_from rounds first
    next_jiffy

  -- `TIME_AFTER_EQ` compares the words as `long` numbers, which hold them. At most `k` rounds.
  unfoldable pub run_from : (k rounds u_jiffies : ℕ) → Cmd Clock Unit₀
  run_from zero rounds u_jiffies c = out_of_fuel
  run_from (suc k) rounds u_jiffies c =
      (if leb c.u_jiffies u_jiffies
          then (do run_tick rounds; run_from k rounds u_jiffies)
          else pure tt)
        c

  unfoldable pub run_timer : (k rounds tv_sec tv_nsec : ℕ) → Cmd Clock Unit₀
  run_timer k rounds tv_sec tv_nsec c =
      (if c.timer_manager == null then pure tt else (do
        on_store (lock_acquire rounds c.lock)
        run_from k rounds (get_jiffies tv_sec tv_nsec)
        on_store (lock_release rounds c.lock)))
        c

-- what `create_timer` does with its new node
unfoldable pub start_timer :
    (rounds : ℕ) (timer_fn p_param u_due_time u_period : ℕ) → Ptr → Cmd Clock Ptr
start_timer rounds timer_fn p_param u_due_time u_period p_tmr c =
    (do
      set_node p_tmr
          (record (c.node p_tmr) { u_period = u_period; timer_fn = timer_fn; p_param = p_param })
      on_store (lock_acquire rounds c.lock)
      (λ d.
          set_node p_tmr (record (d.node p_tmr) { u_expires = (d.u_jiffies + u_due_time) % 2 ^ 32 })
            d)
      add_timer p_tmr
      on_store (lock_release rounds c.lock)
      pure p_tmr)
      c

unfoldable pub create_timer :
    (rounds : ℕ) (timer_fn p_param u_due_time u_period : ℕ) → Cmd Clock Ptr
create_timer rounds timer_fn p_param u_due_time u_period c =
    (if timer_fn == null || c.timer_manager == null then pure null else (do
      p_tmr ← on_store malloc
      if p_tmr == null
          then pure p_tmr
          else start_timer rounds timer_fn p_param u_due_time u_period p_tmr))
      c

unfoldable pub delete_timer : ℕ → Ptr → Cmd Clock ℤ
delete_timer rounds lp_timer c =
    (if not (c.timer_manager == null) && not (lp_timer == null)
        then (do
          on_store (lock_acquire rounds c.lock)
          on_wheel (list_timer_unlink lp_timer)
          on_store (lock_release rounds c.lock)
          pure (pos 0))
        else pure (negsuc 0))
      c

unfoldable pub init_wheels : Ptr → Cmd Clock Unit₀
init_wheels m = do
  on_wheel (init_array_list_timer (arr_list_timer1 m) tvr_size)
  on_wheel (init_array_list_timer (arr_list_timer2 m) tvn_size)
  on_wheel (init_array_list_timer (arr_list_timer3 m) tvn_size)
  on_wheel (init_array_list_timer (arr_list_timer4 m) tvn_size)
  on_wheel (init_array_list_timer (arr_list_timer5 m) tvn_size)

-- `clean_dead_task` is the address of that function.
unfoldable pub timer_init : (rounds clean_dead_task tv_sec tv_nsec : ℕ) → Cmd Clock Unit₀
timer_init rounds clean_dead_task tv_sec tv_nsec = do
  m ← on_store malloc
  (λ c. ok tt (record c { timer_manager = m }))
  if m == null then pure tt else (do
    (λ c. ok tt (record c { u_exit_flag = 0 }))
    (λ c. on_store (lock_init c.lock) c)
    (λ c. ok tt (record c { u_jiffies = get_jiffies tv_sec tv_nsec }))
    init_wheels m)
  create_timer rounds clean_dead_task m 150000 150000
  pure tt

-- The nodes of a list, from `p_list_timer` on, are freed, which the memory of the model does not see.
unfoldable pub free_from : ℕ → (p_list_timer : Ptr) → Cmd Clock Unit₀
free_from zero p_list_timer = λ _. out_of_fuel
free_from (suc k) p_list_timer =
    if p_list_timer == list_tmr
    then pure tt
    else (do next ← on_wheel (get_next p_list_timer); free_from k next)

-- `u_size` heads are left, from `arr` on.
unfoldable pub delete_array_list_timer : ℕ → (arr : Ptr) (u_size : ℕ) → Cmd Clock Unit₀
delete_array_list_timer rounds arr zero = pure tt
delete_array_list_timer rounds arr (suc u_size) = do
  on_wheel (list_timer_replace_init arr list_tmr)
  first ← on_wheel (get_next list_tmr)
  free_from rounds first
  delete_array_list_timer rounds (suc arr) u_size

-- The manager is freed, and its address stays.
unfoldable pub destroy_timer_manager : ℕ → Cmd Clock Unit₀
destroy_timer_manager rounds c =
    let m = c.timer_manager in
    (if m == null then pure tt else (do
      (λ d. ok tt (record d { u_exit_flag = 1 }))
      delete_array_list_timer rounds (arr_list_timer1 m) tvr_size
      delete_array_list_timer rounds (arr_list_timer2 m) tvn_size
      delete_array_list_timer rounds (arr_list_timer3 m) tvn_size
      delete_array_list_timer rounds (arr_list_timer4 m) tvn_size
      delete_array_list_timer rounds (arr_list_timer5 m) tvn_size))
      c
