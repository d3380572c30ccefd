-- ===== src/Timers/Wheels.antt =====
-- The manager of the timers: `add_timer` and `cascade_timer` of src/interrupt/timer.c. The manager is at one address
-- with its five arrays of heads behind it; `list_tmr` and `list_tmr_expire` are the heads that its
-- functions keep on the stack.
use lutf.Base.{
  ℕ, zero, suc, ◌+◌, ◌-◌, ◌*◌, ◌/◌, ◌%◌, ◌^◌, ◌==◌, ltb, leb, if◌then◌else◌, Cmd, Unit₀, pure,
  out_of_fuel, run_on, ◌>>=◌, ◌>>◌,
}
use lutf.Lists.{Ptr, Links, get_next}
use lutf.Store.{Store}
use lutf.Timers.{list_timer_insert_tail, list_timer_replace_init}

-- `struct TIMER_NODE`, but for its list node. Functions are known by their addresses.
pub record TimerNode : Type 0 where
  pub u_expires : ℕ
  pub u_period : ℕ
  pub timer_fn : ℕ
  pub p_param : ℕ

-- `struct TIMER_MANAGER` and the globals of timer.c, with the memory of the library: `wheel` holds the
-- list nodes of the timers, `lock` is where the store keeps the lock of the manager, and
-- `timer_manager` is the address of the manager, NULL when there is none.
pub record Clock : Type 0 where
  pub store : Store
  pub wheel : Links
  pub node : Ptr → TimerNode
  pub timer_manager : Ptr
  pub lock : Ptr
  pub u_exit_flag : ℕ
  pub u_jiffies : ℕ
  pub ticks : ℕ

abbrev pub on_wheel : {A : Type 0} → Cmd Links A → Cmd Clock A
on_wheel = run_on (λ c. c.wheel) (λ w c. record c { wheel = w })

abbrev pub on_store : {A : Type 0} → Cmd Store A → Cmd Clock A
on_store = run_on (λ c. c.store) (λ s c. record c { store = s })

abbrev pub clock_granularity : ℕ
clock_granularity = 10

abbrev pub tvr_size : ℕ
tvr_size = 256

abbrev pub tvn_size : ℕ
tvn_size = 64

-- the heads of the five wheels, in the manager at `m`
abbrev pub arr_list_timer1 : Ptr → Ptr
arr_list_timer1 m = m + 1

abbrev pub arr_list_timer2 : Ptr → Ptr
arr_list_timer2 m = m + 257

abbrev pub arr_list_timer3 : Ptr → Ptr
arr_list_timer3 m = m + 321

abbrev pub arr_list_timer4 : Ptr → Ptr
arr_list_timer4 m = m + 385

abbrev pub arr_list_timer5 : Ptr → Ptr
arr_list_timer5 m = m + 449

abbrev pub list_tmr : Ptr
list_tmr = 1

abbrev pub list_tmr_expire : Ptr
list_tmr_expire = 2

-- `clock_gettime` gives seconds and nanoseconds.
abbrev pub get_jiffies : (tv_sec tv_nsec : ℕ) → ℕ
get_jiffies tv_sec tv_nsec = (tv_sec * 1000 + tv_nsec / 1000000) % 2 ^ 32

-- `INDEX(N)`, the slot of the wheel `n + 2` that the time stands at
abbrev pub index : (n u_jiffies : ℕ) → ℕ
index n u_jiffies = u_jiffies / 2 ^ (8 + n * 6) % tvn_size

-- the units of `clock_granularity` to a time, a word
abbrev pub due_time : (u_jiffies u_expires : ℕ) → ℕ
due_time u_jiffies u_expires = (u_expires + 2 ^ 32 - u_jiffies) % 2 ^ 32 / clock_granularity

-- The last `else` of `add_timer`: no word exceeds 0xffffffff.
abbrev last_slot : (m u_jiffies u_expires u_due_time : ℕ) → Ptr
last_slot m u_jiffies u_expires u_due_time =
    let expires =
      if ltb 0xffffffff u_due_time then (0xffffffff + u_jiffies) % 2 ^ 32 else u_expires in
    arr_list_timer5 m + expires / 2 ^ 26 % tvn_size

-- The head that `add_timer` chooses. A word is negative as a `signed long` if it is 2^63 or more.
unfoldable pub slot : (m u_jiffies u_expires : ℕ) → Ptr
slot m u_jiffies u_expires =
    let due = due_time u_jiffies u_expires in
    if ltb due tvr_size
    then arr_list_timer1 m + u_expires % tvr_size
    else if ltb due (2 ^ 14)
    then arr_list_timer2 m + u_expires / 2 ^ 8 % tvn_size
    else if ltb due (2 ^ 20)
    then arr_list_timer3 m + u_expires / 2 ^ 14 % tvn_size
    else if ltb due (2 ^ 26)
    then arr_list_timer4 m + u_expires / 2 ^ 20 % tvn_size
    else if leb (2 ^ 63) due
    then arr_list_timer1 m + u_jiffies % tvr_size
    else last_slot m u_jiffies u_expires due

unfoldable pub add_timer : Ptr → Cmd Clock Unit₀
add_timer p_tmr c =
    on_wheel
      (list_timer_insert_tail p_tmr (slot c.timer_manager c.u_jiffies (c.node p_tmr).u_expires)) c

-- The loop of `cascade_timer` at the node `p_list_timer`; it takes at most `k` rounds.
unfoldable pub cascade_from : ℕ → (p_list_timer : Ptr) → Cmd Clock Unit₀
cascade_from zero p_list_timer = λ _. out_of_fuel
cascade_from (suc k) p_list_timer =
    if p_list_timer == list_tmr
    then pure tt
    else (do next ← on_wheel (get_next p_list_timer); add_timer p_list_timer; cascade_from k next)

unfoldable pub cascade_timer : ℕ → (arr_list_timer : Ptr) (idx : ℕ) → Cmd Clock ℕ
cascade_timer rounds arr_list_timer idx = do
  on_wheel (list_timer_replace_init (arr_list_timer + idx) list_tmr)
  first ← on_wheel (get_next list_tmr)
  cascade_from rounds first
  pure idx

-- Where the first wheel has gone round, the second one is emptied into it, and so on: each further
-- wheel is touched if the slot before was the first of its wheel.
unfoldable pub cascade : ℕ → Cmd Clock Unit₀
cascade rounds c =
    let m = c.timer_manager in
    let j = c.u_jiffies in
    (if j % tvr_size == 0
        then (do
          a ← cascade_timer rounds (arr_list_timer2 m) (index 0 j)
          if a == 0
              then (do
                b ← cascade_timer rounds (arr_list_timer3 m) (index 1 j)
                if b == 0
                    then (do
                      d ← cascade_timer rounds (arr_list_timer4 m) (index 2 j)
                      if d == 0
                          then (do cascade_timer rounds (arr_list_timer5 m) (index 3 j); pure tt)
                          else pure tt)
                    else pure tt)
              else pure tt)
        else pure tt)
      c
