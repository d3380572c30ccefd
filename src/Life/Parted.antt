-- ===== src/Life/Parted.antt =====
-- An ended task leaves the list of all tasks and joins the pool.
use lutf.Base.{
  ◌%◌, ◌<◌, ◌≤◌, ◌≡◌, refl, List, [], ◌∷◌, ◌++◌, arith, ok, Returns-eq, ap, has, has-append, ◌∈◌,
  ◌∉◌, ◌⊎◌,
}
use lutf.Life.Joined.{IsAll, all_tags, all_tags-append, all_tags-place, tags-place}
use lutf.Lists.{Ptr, Links, tail, list_append, list_remove, list_pop}
use lutf.Lists.Chain.{IsList, IsList-frame, nodes, SameOutside}
use lutf.Lists.Link.{remove-Leaves}
use lutf.Lists.Write.{list_append-snoc}
use lutf.Store.{
  general_tag, all_list_tag, pool_tag, task_ready_list, task_all_list, task_pool_list, tid_lock,
}
use lutf.Tasks.Queue.{
  IsTask, AreTasks, AreTasks-append, tags, IsReady, IsQueue, IsQueue-pop, IsQueue-frame,
}

abbrev pub pool_tags : List Ptr → List Ptr
pool_tags [] = []
pool_tags (t ∷ ts) = pool_tag t ∷ pool_tags ts

-- The pool holds the tasks `ps`, in this order.
pub record IsPool (m : Links) (ps : List Ptr) : Type 0 where
  pub list : IsList m task_pool_list (pool_tags ps)
  pub tasks : AreTasks ps

pool_tags-append : (ts us : List Ptr) → pool_tags (ts ++ us) ≡ pool_tags ts ++ pool_tags us
pool_tags-append [] us = refl
pool_tags-append (t ∷ ts) us = ap (λ xs. pool_tag t ∷ xs) (pool_tags-append ts us)

pub has-pool_tags : (t : Ptr) (ts : List Ptr) → has (pool_tag t) (pool_tags ts) ≡ has t ts
has-pool_tags t [] = refl
has-pool_tags t (u ∷ ts) = ground (arith, has-pool_tags t ts)

pool_tags-place :
    (p : Ptr) (ts : List Ptr) → AreTasks ts → p ∈ pool_tags ts → (p % 4 ≡ 3) × (100 ≤ p)
pool_tags-place p [] h i = ground arith
pool_tags-place p (t ∷ ts) h i = ground (arith, pool_tags-place p ts h.1, h.0)

AreTasks-drop :
    (us : List Ptr) (t : Ptr) (vs : List Ptr) → AreTasks (us ++ (t ∷ vs)) → AreTasks (us ++ vs)
AreTasks-drop [] t vs h = h.1
AreTasks-drop (u ∷ us) t vs h = (h.0, AreTasks-drop us t vs h.1)

-- Where the nodes of the lists of tasks lie: the last two bits tell the lists apart.
pub ready-place :
    (p : Ptr) (ts : List Ptr)
    → AreTasks ts
    → p ∈ nodes task_ready_list (tags ts)
    → ((p % 4 ≡ 1) × (100 ≤ p)) ⊎ ((2 ≤ p) × (p < 4))
ready-place p ts tasks i =
    ground (arith, tags-place p ts tasks, has-append p (tags ts) (tail task_ready_list ∷ []))

pub all-place :
    (p : Ptr) (us : List Ptr)
    → AreTasks us
    → p ∈ nodes task_all_list (all_tags us)
    → ((p % 4 ≡ 2) × (100 ≤ p)) ⊎ ((4 ≤ p) × (p < 6))
all-place p us tasks i =
    ground (arith, all_tags-place p us tasks, has-append p (all_tags us) (tail task_all_list ∷ []))

pub pool-place :
    (p : Ptr) (ps : List Ptr)
    → AreTasks ps
    → p ∈ nodes task_pool_list (pool_tags ps)
    → ((p % 4 ≡ 3) × (100 ≤ p)) ⊎ ((6 ≤ p) × (p < 8))
pool-place p ps tasks i =
    ground
      (arith, pool_tags-place p ps tasks, has-append p (pool_tags ps) (tail task_pool_list ∷ []))

-- The lists of ready tasks, of all tasks and of the pool, and that of the waiters of the tids, which
-- is empty.
pub record Lists (m : Links) (ts us ps : List Ptr) : Type 0 where
  pub ready : IsReady m ts
  pub all : IsAll m us
  pub pool : IsPool m ps
  pub nobody : IsQueue m tid_lock []

pub remove-Lists :
    (m : Links) (t : Ptr) (ts us vs ps : List Ptr)
    → Lists m ts (us ++ (t ∷ vs)) ps
    → (m' : Links) × (list_remove (all_list_tag t) m ≡ ok tt m') × Lists m' ts (us ++ vs) ps
remove-Lists m t ts us vs ps h =
    let ns = nodes task_all_list (all_tags (us ++ (t ∷ vs))) in
    let split : all_tags (us ++ (t ∷ vs)) ≡ all_tags us ++ (all_list_tag t ∷ all_tags vs) =
      all_tags-append us (t ∷ vs) in
    let list : IsList m task_all_list (all_tags us ++ (all_list_tag t ∷ all_tags vs)) =
      rw split at h.all.list in
    let (_, m', eq, (is, same')) =
      Returns-eq (remove-Leaves (all_tags us) (all_tags vs) (all_list_tag t) list) in
    let same : SameOutside ns m m' = rw split same' in
    let place = λ (p : Ptr). all-place p (us ++ (t ∷ vs)) h.all.tasks in
    (
      m',
      eq,
      record {
        ready =
            IsQueue-frame ns h.ready same
              λ p i. ground (arith, ready-place p ts h.ready.tasks i, place p);
        all = record {
          list = rw (all_tags-append us vs) is;
          tasks = AreTasks-drop us t vs h.all.tasks;
        };
        pool = record {
          list =
              IsList-frame ns h.pool.list same
                λ p i. ground (arith, pool-place p ps h.pool.tasks i, place p);
          tasks = h.pool.tasks;
        };
        nobody = IsQueue-frame ns h.nobody same λ p i. ground (arith, place p);
      },
    )

pub pool-Lists :
    (m : Links) (t : Ptr) (ts us ps : List Ptr)
    → Lists m ts us ps
    → IsTask t
    → t ∉ ps
    → (m' : Links) × (list_append task_pool_list (pool_tag t) m ≡ ok tt m')
      × Lists m' ts us (ps ++ (t ∷ []))
pool-Lists m t ts us ps h task new =
    let ns = pool_tag t ∷ nodes task_pool_list (pool_tags ps) in
    let fresh : pool_tag t ∉ nodes task_pool_list (pool_tags ps) = ground (
      arith,
      has-pool_tags t ps,
      has-append (pool_tag t) (pool_tags ps) (tail task_pool_list ∷ []),
      task.0,
    ) in
    let (_, m', eq, (is, same)) =
      Returns-eq (list_append-snoc (pool_tag t) h.pool.list fresh (omega arith)) in
    let place = λ (p : Ptr). pool-place p ps h.pool.tasks in
    (
      m',
      eq,
      record {
        ready =
            IsQueue-frame ns h.ready same
              λ p i. ground (arith, ready-place p ts h.ready.tasks i, place p, task.0, task.1);
        all = record {
          list =
              IsList-frame ns h.all.list same
                λ p i. ground (arith, all-place p us h.all.tasks i, place p, task.0, task.1);
          tasks = h.all.tasks;
        };
        pool = record {
          list = rw (pool_tags-append ps (t ∷ [])) is;
          tasks = AreTasks-append ps (t ∷ []) h.pool.tasks (task, tt);
        };
        nobody = IsQueue-frame ns h.nobody same λ p i. ground (arith, place p, task.0);
      },
    )

-- a change of the ready list alone
pub ready-Lists :
    {m m' : Links} {ts ts' us ps : List Ptr} (qs : List Ptr)
    → Lists m ts us ps
    → AreTasks qs
    → SameOutside (nodes task_ready_list (tags qs)) m m'
    → IsReady m' ts'
    → Lists m' ts' us ps
ready-Lists {us} {ps} qs h tasks same is =
    let ns = nodes task_ready_list (tags qs) in
    let place = λ (p : Ptr). ready-place p qs tasks in
    record {
      ready = is;
      all = record {
        list =
            IsList-frame ns h.all.list same
              λ p i. ground (arith, all-place p us h.all.tasks i, place p);
        tasks = h.all.tasks;
      };
      pool = record {
        list =
            IsList-frame ns h.pool.list same
              λ p i. ground (arith, pool-place p ps h.pool.tasks i, place p);
        tasks = h.pool.tasks;
      };
      nobody = IsQueue-frame ns h.nobody same λ p i. ground (arith, place p);
    }

pub pop-Lists :
    (m : Links) (u : Ptr) (ts us ps : List Ptr)
    → Lists m (u ∷ ts) us ps
    → (m' : Links) × (list_pop task_ready_list m ≡ ok (general_tag u) m') × Lists m' ts us ps
pop-Lists m u ts us ps h =
    let (m', eq, is, same) = IsQueue-pop u ts h.ready in
    (m', eq, ready-Lists (u ∷ ts) h h.ready.tasks same is)
