-- ===== src/Life/Wrote.antt =====
-- Several writes to one task.
use lutf.Base.{
  List, [], ◌∷◌, Cmd, Unit₀, ◌>>◌, bind, if◌then◌else◌, ◌≡◌, refl, ◌≢◌, ◌==◌, Returns, returns, ◌∙◌,
  ap, ne→==_false,
}
use lutf.Lists.{Ptr, null}
use lutf.Store.{Store, Task}
use lutf.Store.Access.{modify_task, modify_task-eq, update_at_self}

-- The store is `s`, but for the task at `t`, which is `r`.
pub record Wrote (s : Store) (t : Ptr) (r : Task) (s' : Store) : Type 0 where
  pub own : s'.task t ≡ r
  pub others : (p : Ptr) → p ≢ t → s'.task p ≡ s.task p
  pub rest : s' ≡ record s { task = s'.task }

pub Wrote-modify :
    {s s' : Store} {t : Ptr} {r : Task} (g : Task → Task)
    → t ≢ null
    → Wrote s t r s'
    → Returns (λ _. Wrote s t (g r)) (modify_task t g s')
Wrote-modify {s'} {t} g h w = rw (modify_task-eq s' t h g) (
    returns (record {
      own = update_at_self s'.task t (g (s'.task t)) ∙ ap g w.own;
      others = λ p ne. rw (ne→==_false p t ne) (w.others p ne);
      rest =
          ap (λ (x : Store). record x { task = λ q. if q == t then g (s'.task t) else s'.task q })
            w.rest;
    }))

pub Wrote-none : (s : Store) (t : Ptr) → Wrote s t (s.task t) s
Wrote-none s t = record { own = refl; others = λ p ne. refl; rest = refl }

-- changes of one task, one after the other
abbrev pub writes : (Task → Task) → List (Task → Task) → Ptr → Cmd Store Unit₀
writes f [] t = modify_task t f
writes f (g ∷ gs) t = modify_task t f >> writes g gs t

abbrev pub changed : (Task → Task) → List (Task → Task) → Task → Task
changed f [] r = f r
changed f (g ∷ gs) r = changed g gs (f r)

pub writes-Wrote :
    {s s' : Store} {t : Ptr} {r : Task} (f : Task → Task) (fs : List (Task → Task))
    → t ≢ null
    → Wrote s t r s'
    → Returns (λ _. Wrote s t (changed f fs r)) (writes f fs t s')
writes-Wrote f [] ht w = Wrote-modify f ht w
writes-Wrote f (g ∷ gs) ht w = bind (Wrote-modify f ht w) λ _ s' w'. writes-Wrote g gs ht w'
