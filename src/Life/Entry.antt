-- ===== src/Life/Entry.antt =====
-- `task_create`: where a new task begins.
use lutf.Base.{ℕ, ◌≢◌, Returns, bind, mono, ◌∙◌, ap}
use lutf.Life.{zero_context, task_create}
use lutf.Life.Wrote.{Wrote, Wrote-modify}
use lutf.Lists.{Ptr, null}
use lutf.Store.{Store, Task, Context}

-- where a new task begins: at `task_entrance`, on its stack, with its function and the argument
abbrev pub first_context : (entrance stack_top segments function func_arg : ℕ) → Context
first_context entrance stack_top segments function func_arg = record zero_context {
  rip = entrance;
  rsp = stack_top;
  rbp = stack_top;
  rdi = function;
  rsi = func_arg;
  segments = segments;
}

pub task_create-Wrote :
    {s s' : Store} {t : Ptr} {r : Task} (entrance function func_arg : ℕ)
    → t ≢ null
    → Wrote s t r s'
    → Returns
        (λ _. Wrote s t (record r {
          context = first_context entrance r.task_stack s.cpu.segments function func_arg;
        }))
        (task_create entrance t function func_arg s')
unfolding task_create
task_create-Wrote {s} {r} entrance function func_arg ht w =
    bind (Wrote-modify (λ r. record r { context = zero_context }) ht w) λ _ s₁ w₁.
      bind
        (Wrote-modify
          (λ r. record r { context = record r.context { rsp = r.task_stack; rbp = r.task_stack } })
          ht w₁)
        λ _ s₂ w₂.
          bind
            (Wrote-modify
              (λ r. record r { context = record r.context { segments = s₂.cpu.segments } }) ht w₂)
            λ _ s₃ w₃.
              bind
                (Wrote-modify (λ r. record r { context = record r.context { rip = entrance } }) ht
                  w₃)
                λ _ s₄ w₄.
                  bind
                    (Wrote-modify (λ r. record r { context = record r.context { rdi = function } })
                      ht w₄)
                    λ _ s₅ w₅.
                      mono
                        (Wrote-modify
                          (λ r. record r { context = record r.context { rsi = func_arg } }) ht w₅)
                        λ _ s₆ w₆. record {
                          own =
                              w₆.own
                              ∙ ap
                                  (λ (x : Store). record r {
                                    context =
                                        first_context entrance r.task_stack x.cpu.segments function
                                          func_arg;
                                  })
                                  w₂.rest;
                          others = w₆.others;
                          rest = w₆.rest;
                        }
