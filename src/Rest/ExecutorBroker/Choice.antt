-- ===== src/Rest/ExecutorBroker/Choice.antt =====
-- The choice of an executor by a REST broker (rest/nodes/brokers/executorbroker.py).
use ma_sinafadavi_gpt.Base.{ℕ, ◌≡◌, refl, Bool, not, ◌&&◌, List, [], ◌∷◌, select, arith}
use ma_sinafadavi_gpt.Rest.Draw.{choice}
use ma_sinafadavi_gpt.Rest.Model.{Capabilities, is_capable}
use ma_sinafadavi_gpt.Rest.ExecutorBroker.{
  Executor, Broker, is_stale, prune_executor_list, capable_executor,
}
use ma_sinafadavi_gpt.Rest.ExecutorBroker.Executors.{DistinctIds, pop_all-select}

select-both :
    (p q : Executor → Bool) (es : List Executor)
    → select q (select p es) ≡ select (λ e. p e && q e) es
unfolding select
select-both p q [] = refl
select-both p q (e ∷ es) = ground (arith, select-both p q es)

-- An executor that was not heard of for at most 130 s, and whose last capabilities suffice.
abbrev pub fits : ℕ → Capabilities → Executor → Bool
fits now caps e = not (is_stale now e) && is_capable e.cur_caps caps

-- Where no two executors share an identifier, the executor is drawn from all those that were heard of
-- within the last 130 s and whose last capabilities suffice, and exactly the executors that were not
-- heard of for longer are forgotten.
pub capable_executor_lem :
    (now drawn : ℕ) (caps : Capabilities) (b : Broker)
    → DistinctIds b.executors
    → capable_executor now drawn caps b ≡ (
      choice drawn (select (fits now caps) b.executors),
      record b { executors = select (λ e. not (is_stale now e)) b.executors },
    )
unfolding capable_executor prune_executor_list
capable_executor_lem now drawn caps b h = rw (
  pop_all-select (is_stale now) b.executors h,
  select-both (λ e. not (is_stale now e)) (λ e. is_capable e.cur_caps caps) b.executors,
)
