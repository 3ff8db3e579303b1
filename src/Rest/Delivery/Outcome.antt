-- ===== src/Rest/Delivery/Outcome.antt =====
-- How the delivery of a result ends (rest/nodes/executor.py, `store_job_in_datastore`).
use mathlib.Core.Path.{fun_ext}
use ma_sinafadavi_gpt.Base.{
  ℕ, zero, suc, ◌≡◌, ◌⊎◌, inl, inr, refl, ap, ◌∙◌, sym, Bool, Bool-cases, true, false, List, [],
  ◌∷◌, ◌++◌, append_assoc, append-nil, Text, is_empty, length, ◌==◌, Result, ok, if◌then◌else◌,
}
use ma_sinafadavi_gpt.Base.Actions.{Action, next}
use ma_sinafadavi_gpt.Base.Actions
use ma_sinafadavi_gpt.Rest.Delivery.{
  Call, store_data, send_result, store_note, job_done, delete_job, Answers, Opens, Delivery, Job,
  tried, retry, result_name, ask, opening, store_each, store_named, store_error, unless_done,
  store_result, send_or_store, report, do_store_in_datastore, store_job_in_datastore,
}

bound-ok {ℓ} :
    {A W : Type 0} (Q : Result W × Delivery → Type ℓ) (r : Result A × Delivery)
    (rest : A → Action Delivery W) (a : A)
    → r.0 ≡ ok a
    → Q (rest a r.1)
    → Q (Actions.bound r rest)
unfolding Actions.bound
bound-ok Q (res, s) rest a h q = rw h q

-- What stands behind a call that returned.
next-ok {ℓ} :
    {A W : Type 0} (Q : Result W × Delivery → Type ℓ) (call : Action Delivery A)
    (rest : A → Action Delivery W) (s : Delivery) (a : A)
    → (call s).0 ≡ ok a
    → Q (rest a (call s).1)
    → Q (next call rest s)
unfolding next
next-ok Q call rest s a h q = bound-ok Q (call s) rest a h q

tried-true :
    (r : Result Bool × Delivery) (rest : Action Delivery Bool)
    → r.0 ≡ ok true
    → (tried r rest).0 ≡ ok true
unfolding tried
tried-true (res, s) rest h = rw h refl

tried-false :
    (r : Result Bool × Delivery) (rest : Action Delivery Bool)
    → r.0 ≡ ok false
    → (tried r rest).0 ≡ (rest r.1).0
unfolding tried
tried-false (res, s) rest h = rw h refl

-- `n` times the same call
abbrev pub repeat : ℕ → Call → List Call
repeat zero c = []
repeat (suc n) c = c ∷ repeat n c

-- What follows the report of a job.
abbrev pub farewell : Job → List Call
farewell job = if job.job_info.delete then delete_job job.id ∷ [] else []

module _ (answers : Answers) where
  -- The broker said yes to the last call, which was this one.
  abbrev pub Accepted : Call → List Call → Type 0
  Accepted c calls = (before : List Call) × (calls ≡ before ++ c ∷ []) × (answers before c ≡ true)

  -- The broker said no to the call, `n` times in a row.
  abbrev pub Refused : ℕ → Call → List Call → Type 0
  Refused zero c before = Unit {0}
  Refused (suc n) c before = (answers before c ≡ false) × Refused n c (before ++ c ∷ [])

  -- The last call sent or stored the result, or the text in its place; or that text was refused ten
  -- times, and nothing came behind.
  abbrev pub Ended : Job → List Call → Type 0
  Ended job calls =
      Accepted (send_result job.id job.result_path) calls
      ⊎ Accepted (store_data (result_name job) job.result_path) calls
      ⊎ Accepted (store_note (result_name job)) calls
      ⊎ ((before : List Call) × (calls ≡ before ++ repeat 10 (store_note (result_name job)))
          × Refused 10 (store_note (result_name job)) before)

  module _ (opens : Opens) where
    -- How a call that is tried again ends: with a yes, or after all the tries.
    retry-ask :
        (n : ℕ) (c : Call) (s : Delivery)
        → let r = retry n (ask answers opens c) s in
          ((r.0 ≡ ok true) × Accepted c r.1.calls)
          ⊎ ((r.0 ≡ ok false) × (r.1.calls ≡ s.calls ++ repeat n c) × Refused n c s.calls)
    unfolding retry ask tried
    retry-ask zero c s = inr (refl, sym (append-nil s.calls), tt)
    retry-ask (suc n) c s = elim (Bool-cases (answers s.calls c)) [
      | inl yes_said ↦ rw yes_said (inl (refl, (s.calls, refl, yes_said)))
      | inr no_said ↦ rw no_said (elim (retry-ask n c (record s { calls = s.calls ++ c ∷ [] })) [
        | inl done ↦ inl done
        | inr (failed, made, refused) ↦
            inr (failed, made ∙ append_assoc s.calls (c ∷ []) (repeat n c), (refl, refused))
      ])
    ]

    opening-ask :
        (path : Text) (c : Call) (s : Delivery)
        → opens s.calls path ≡ true
        → opening answers opens path c s ≡ ask answers opens c s
    unfolding opening
    opening-ask path c s h = rw h refl

    abbrev Good : Job → Result (Unit {0}) × Delivery → Type 0
    Good job r = (r.0 ≡ ok tt) × Ended job r.1.calls

    module _ (job : Job) (readable : (calls : List Call) → opens calls job.result_path ≡ true) where
      retry-opening :
          (n : ℕ) (c : Call) (s : Delivery)
          → retry n (opening answers opens job.result_path c) s ≡ retry n (ask answers opens c) s
      retry-opening n c s =
          ap (λ call. retry n call s)
            (fun_ext (λ t. opening-ask job.result_path c t (readable t.calls)))

      tries :
          (n : ℕ) (c : Call) (s : Delivery)
          → let r = retry n (opening answers opens job.result_path c) s in
            ((r.0 ≡ ok true) × Accepted c r.1.calls)
            ⊎ ((r.0 ≡ ok false) × (r.1.calls ≡ s.calls ++ repeat n c) × Refused n c s.calls)
      tries n c s = rw (retry-opening n c s) (retry-ask n c s)

      store_error-Ended : (s : Delivery) → Good job (store_error answers opens job s)
      unfolding store_error
      store_error-Ended s = elim (retry-ask 10 (store_note (result_name job)) s) [
        | inl (said, accepted) ↦ next-ok (Good job) _ _ s true said (refl, inr (inr (inl accepted)))
        | inr (said, made, refused) ↦
            next-ok (Good job) _ _ s false said (refl, inr (inr (inr (s.calls, made, refused))))
      ]

      store_result-Ended : (s : Delivery) → Good job (store_result answers opens job s)
      unfolding store_result unless_done
      store_result-Ended s = elim (tries 10 (store_data (result_name job) job.result_path) s) [
        | inl (said, accepted) ↦ next-ok (Good job) _ _ s true said (refl, inr (inl accepted))
        | inr (said, made, refused) ↦ next-ok (Good job) _ _ s false said (store_error-Ended _)
      ]

      send_or_store-Ended : (s : Delivery) → Good job (send_or_store answers opens job s)
      unfolding send_or_store unless_done
      send_or_store-Ended s = elim (Bool-cases (is_empty job.job_info.result_addr.host)) [
        | inl nobody ↦ rw nobody (store_result-Ended s)
        | inr somebody ↦ rw somebody (elim (tries 10 (send_result job.id job.result_path) s) [
          | inl (said, accepted) ↦ next-ok (Good job) _ _ s true said (refl, inl accepted)
          | inr (said, made, refused) ↦ next-ok (Good job) _ _ s false said (store_result-Ended _)
        ])
      ]

      -- A try ends with a yes or a no.
      store_named-returns :
          (s : Delivery)
          → ((store_named answers opens s).0 ≡ ok true)
            ⊎ ((store_named answers opens s).0 ≡ ok false)
      unfolding store_named
      store_named-returns s =
          elim (Bool-cases
            (length (store_each answers opens s.to_store_named s).0 == length s.to_store_named)) [
              | inl all_stored ↦ rw all_stored (inl refl)
              | inr some_left ↦ rw some_left (inr refl)
            ]

      retry-returns :
          (n : ℕ) (s : Delivery) → (b : Bool) × ((retry n (store_named answers opens) s).0 ≡ ok b)
      unfolding retry tried
      retry-returns zero s = (false, refl)
      retry-returns (suc n) s = elim (store_named-returns s) [
        | inl said ↦ (true, tried-true (store_named answers opens s) _ said)
        | inr said ↦
            let (b, later) = retry-returns n (store_named answers opens s).1 in
            (b, tried-false (store_named answers opens s) _ said ∙ later)
      ]

      do_store-Ended : (s : Delivery) → Good job (do_store_in_datastore answers opens job s)
      unfolding do_store_in_datastore
      do_store-Ended s =
          let (b, said) = retry-returns 10 s in
          next-ok (Good job) _ _ s b said (send_or_store-Ended _)

      report_lem :
          (s : Delivery)
          → let r = report answers opens job s in
            (r.0 ≡ ok tt) × (r.1.calls ≡ s.calls ++ job_done job.id ∷ farewell job)
      unfolding report ask next Actions.bound
      report_lem s = elim (Bool-cases job.job_info.delete) [
        | inl asked ↦
            rw asked (refl, append_assoc s.calls (job_done job.id ∷ []) (delete_job job.id ∷ []))
        | inr kept ↦ rw kept (refl, refl)
      ]

      -- If the result file can be opened whenever it is tried, the delivery of a job's results raises nothing, whatever the
      -- broker answers and whether or not the named results can be opened, and ends: either the last call before the report sent or stored the result, or
      -- stored the text in its place, and the broker said yes to it; or the broker refused that text ten
      -- times in a row. In each case the job is reported as done behind that, and its data is deleted
      -- after the report if the client asked for it.
      pub store_job_in_datastore-Ended :
          (s : Delivery)
          → let r = store_job_in_datastore answers opens job s in
            (r.0 ≡ ok tt)
            × ((calls : List Call) × Ended job calls
                × (r.1.calls ≡ calls ++ job_done job.id ∷ farewell job))
      unfolding store_job_in_datastore
      store_job_in_datastore-Ended s =
          let (returned, ended) = do_store-Ended s in
          let before = (do_store_in_datastore answers opens job s).1 in
          let (fine, last) = report_lem before in
          next-ok
            (λ r.
              (r.0 ≡ ok tt)
              × ((calls : List Call) × Ended job calls
                  × (r.1.calls ≡ calls ++ job_done job.id ∷ farewell job)))
            (do_store_in_datastore answers opens job) (λ _. report answers opens job) s tt returned
            (fine, (before.calls, ended, last))
