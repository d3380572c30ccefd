-- ===== src/Life/Enlisted.antt =====
-- A new task joins the lists of the ready tasks and of all tasks.
use lutf.Base.{
  ◌≡◌, List, [], ◌∷◌, ◌++◌, arith, has-append, ◌∉◌, not-mem-left, not-mem-right, not-mem-append,
}
use lutf.Life.Made.{own_nodes}
use lutf.Life.Joined.{IsAll, all_tags}
use lutf.Lists.{Ptr, Links, tail}
use lutf.Lists.Chain.{IsList-frame, nodes, SameOutside}
use lutf.Store.{general_tag, all_list_tag, task_ready_list, task_all_list, task_pool_list}
use lutf.Tasks.Queue.{IsTask, tags, IsReady, IsQueue-frame}
use lutf.Life.Parted.{pool_tags, pool-place, ready-place, all-place, has-pool_tags, Lists}

module _ {m m' : Links} (t : Ptr) (ts us ps : List Ptr) (h : Lists m ts us ps) (task : IsTask t)
    (new : t ∉ ps)
    (spared : (p : Ptr)
      → p ∉ own_nodes t
      → p ∉ (general_tag t ∷ nodes task_ready_list (tags ts))
      → p ∉ (all_list_tag t ∷ nodes task_all_list (all_tags us))
      → (m'.next p ≡ m.next p) × (m'.prev p ≡ m.prev p)) where
  abbrev ready_part : List Ptr
  ready_part = general_tag t ∷ nodes task_ready_list (tags ts)

  abbrev all_part : List Ptr
  all_part = all_list_tag t ∷ nodes task_all_list (all_tags us)

  abbrev touched : List Ptr
  touched = own_nodes t ++ (ready_part ++ all_part)

  spared-SameOutside : SameOutside touched m m'
  spared-SameOutside p out =
      let rest = not-mem-right p (own_nodes t) (ready_part ++ all_part) out in
      spared p (not-mem-left p (own_nodes t) (ready_part ++ all_part) out)
        (not-mem-left p ready_part all_part rest) (not-mem-right p ready_part all_part rest)

  -- what is not touched: the nodes of the pool and of the waiters
  untouched :
      (p : Ptr)
      → p ∉ own_nodes t
      → p ∉ nodes task_ready_list (tags ts)
      → p ∉ nodes task_all_list (all_tags us)
      → p ∉ touched
  untouched p own ready all =
      not-mem-append p (own_nodes t) (ready_part ++ all_part) own
        (not-mem-append p ready_part all_part (ground arith) (ground arith))

  -- a new task joins two of the lists
  pub joined-Lists :
      IsReady m' (ts ++ (t ∷ []))
      → IsAll m' (us ++ (t ∷ []))
      → Lists m' (ts ++ (t ∷ [])) (us ++ (t ∷ [])) ps
  joined-Lists ready all = record {
    ready = ready;
    all = all;
    pool = record {
      list = IsList-frame touched h.pool.list spared-SameOutside λ p i.
          let at = pool-place p ps h.pool.tasks i in
          untouched p
            (ground (
              arith,
              at,
              has-pool_tags t ps,
              has-append p (pool_tags ps) (tail task_pool_list ∷ []),
              task.0,
              task.1,
            ))
            (ground (arith, at, ready-place p ts h.ready.tasks))
            (ground (arith, at, all-place p us h.all.tasks));
      tasks = h.pool.tasks;
    };
    nobody = IsQueue-frame touched h.nobody spared-SameOutside λ p i.
        untouched p (ground (arith, task.0, task.1))
          (ground (arith, ready-place p ts h.ready.tasks))
          (ground (arith, all-place p us h.all.tasks));
  }
