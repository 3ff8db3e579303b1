-- ===== src/Rest/ExecutorBroker/Executors.antt =====
-- The executors that a REST broker knows (rest/nodes/brokers/executorbroker.py).
use ma_sinafadavi_gpt.Base.{
  ℕ, ◌≡◌, ◌≢◌, ◌∙◌, refl, ap, inl, inr, Bool, Bool-cases, true, false, not, Option, none, some,
  List, [], ◌∷◌, Text, select, Result, ok, err, All, arith, ◌==◌,
}
use ma_sinafadavi_gpt.Rest.Model.{Capabilities}
use ma_sinafadavi_gpt.Rest.ExecutorBroker.{
  Executor, Broker, find_executor, put_executor, pop_executor, Pings, identified, at_host, answered,
  try_hosts, host_order, register_executor, beat, heartbeat_executor, is_stale, pop_all,
  prune_executor_list,
}

abbrev pub LacksId : ℕ → List Executor → Type 0
LacksId id = All (λ (d : Executor). d.id ≢ id)

-- No two executors have the same identifier.
abbrev pub DistinctIds : List Executor → Type 0
DistinctIds [] = Unit
DistinctIds (e ∷ es) = LacksId e.id es × DistinctIds es

put_executor-LacksId :
    (id : ℕ) (e : Executor) (es : List Executor)
    → e.id ≢ id
    → LacksId id es
    → LacksId id (put_executor e es)
unfolding put_executor
put_executor-LacksId id e [] h hs = (h, tt)
put_executor-LacksId id e (d ∷ es) h (hd, hs) = elim (Bool-cases (d.id == e.id)) [
  | inl same ↦ rw same (h, hs)
  | inr differ ↦ rw differ (hd, put_executor-LacksId id e es h hs)
]

put_executor-DistinctIds :
    (e : Executor) (es : List Executor) → DistinctIds es → DistinctIds (put_executor e es)
unfolding put_executor
put_executor-DistinctIds e [] h = (tt, tt)
put_executor-DistinctIds e (d ∷ es) (hd, hs) = elim (Bool-cases (d.id == e.id)) [
  | inl same ↦ let equal : d.id ≡ e.id = ground arith in rw same (rw equal at hd, hs)
  | inr differ ↦
      rw differ (
        put_executor-LacksId d.id e es (λ equal. ground arith) hd,
        put_executor-DistinctIds e es hs,
      )
]

LacksId-select :
    (id : ℕ) (p : Executor → Bool) (es : List Executor) → LacksId id es → LacksId id (select p es)
unfolding select
LacksId-select id p [] h = tt
LacksId-select id p (e ∷ es) (he, hs) = elim (Bool-cases (p e)) [
  | inl kept ↦ rw kept (he, LacksId-select id p es hs)
  | inr dropped ↦ rw dropped (LacksId-select id p es hs)
]

pop_all-other :
    (gone : List Executor) (e : Executor) (es : List Executor)
    → LacksId e.id gone
    → pop_all gone (e ∷ es) ≡ e ∷ pop_all gone es
unfolding pop_all pop_executor
pop_all-other [] e es h = refl
pop_all-other (d ∷ gone) e es (hd, hs) = elim (Bool-cases (e.id == d.id)) [
  | inl same ↦ absurd (hd (ground arith))
  | inr differ ↦ rw differ (pop_all-other gone e (pop_executor d.id es) hs)
]

pop_all-same :
    (gone : List Executor) (e : Executor) (es : List Executor)
    → pop_all (e ∷ gone) (e ∷ es) ≡ pop_all gone es
unfolding pop_all pop_executor
pop_all-same gone e es = ground arith

-- Without the stale executors, the others stand in their order.
pub pop_all-select :
    (p : Executor → Bool) (es : List Executor)
    → DistinctIds es
    → pop_all (select p es) es ≡ select (λ e. not (p e)) es
unfolding select
pop_all-select p [] h = unfold pop_all in refl
pop_all-select p (e ∷ es) (he, hs) = elim (Bool-cases (p e)) [
  | inl gone ↦ rw gone (pop_all-same (select p es) e es ∙ pop_all-select p es hs)
  | inr stays ↦ rw stays (
      pop_all-other (select p es) e es (LacksId-select e.id p es he)
      ∙ ap (λ ds. e ∷ ds) (pop_all-select p es hs))
]

answered-DistinctIds :
    (r : Result Bool) (e : Executor) (b : Broker) (rest : Broker → Result (Unit {0}) × Broker)
    → DistinctIds b.executors
    → DistinctIds (rest b).1.executors
    → DistinctIds (answered r e b rest).1.executors
unfolding answered
answered-DistinctIds (err x) e b rest h k = h
answered-DistinctIds (ok true) e b rest h k = put_executor-DistinctIds e b.executors h
answered-DistinctIds (ok false) e b rest h k = k

try_hosts-DistinctIds :
    (pings : Pings) (e : Executor) (hosts : List Text) (b : Broker)
    → DistinctIds b.executors
    → DistinctIds (try_hosts pings e hosts b).1.executors
unfolding try_hosts
try_hosts-DistinctIds pings e [] b h = h
try_hosts-DistinctIds pings e (host ∷ hosts) b h =
    answered-DistinctIds (identified e.id (pings (at_host e host).address)) (at_host e host) b
      (try_hosts pings e hosts) h (try_hosts-DistinctIds pings e hosts b h)

pub register_executor-DistinctIds :
    (pings : Pings) (client : Text) (hosts : List Text) (e : Executor) (b : Broker)
    → DistinctIds b.executors
    → DistinctIds (register_executor pings client hosts e b).1.executors
unfolding register_executor
register_executor-DistinctIds pings client hosts e b h =
    try_hosts-DistinctIds pings e (host_order client hosts) b h

beat-DistinctIds :
    (o : Option Executor) (caps : Capabilities) (now : ℕ) (b : Broker)
    → DistinctIds b.executors
    → DistinctIds (beat o caps now b).1.executors
unfolding beat
beat-DistinctIds none caps now b h = h
beat-DistinctIds (some e) caps now b h =
    put_executor-DistinctIds (record e { cur_caps = caps; last_update = now }) b.executors h

pub heartbeat_executor-DistinctIds :
    (id : ℕ) (caps : Capabilities) (now : ℕ) (b : Broker)
    → DistinctIds b.executors
    → DistinctIds (heartbeat_executor id caps now b).1.executors
unfolding heartbeat_executor
heartbeat_executor-DistinctIds id caps now b h =
    beat-DistinctIds (find_executor id b.executors) caps now b h

select-DistinctIds :
    (p : Executor → Bool) (es : List Executor) → DistinctIds es → DistinctIds (select p es)
unfolding select
select-DistinctIds p [] h = tt
select-DistinctIds p (e ∷ es) (he, hs) = elim (Bool-cases (p e)) [
  | inl kept ↦ rw kept (LacksId-select e.id p es he, select-DistinctIds p es hs)
  | inr dropped ↦ rw dropped (select-DistinctIds p es hs)
]

pub prune_executor_list-DistinctIds :
    (now : ℕ) (b : Broker)
    → DistinctIds b.executors
    → DistinctIds (prune_executor_list now b).executors
unfolding prune_executor_list
prune_executor_list-DistinctIds now b h =
    rw (pop_all-select (is_stale now) b.executors h)
      (select-DistinctIds (λ e. not (is_stale now e)) b.executors h)
