-- ===== src/Executor/Intake.antt =====
-- How the executor takes in jobs and named data (dtn/executor.py).
use ma_sinafadavi_gpt.Base.{
  ◌≡◌, ◌≢◌, inl, inr, refl, true, Option, none, some, List, [], ◌∷◌, ◌++◌, Text, text_eq, Bytes,
  is_empty, Result, ok, err, arith, if◌then◌else◌,
}
use ma_sinafadavi_gpt.Base.Exceptions.{name_taken}
use ma_sinafadavi_gpt.Base.Dict.{Dict}
use ma_sinafadavi_gpt.Eid.{truthy, datastore_address}
use ma_sinafadavi_gpt.Bundles
use ma_sinafadavi_gpt.Bundles.{BundleData, Names, nameless, one, many, new}
use ma_sinafadavi_gpt.Jobs.{JobInfo, Job, required_named_data}
use ma_sinafadavi_gpt.Node.{singly}
use ma_sinafadavi_gpt.Storage.{Backend, IsLawful, Storage, store_data, add_new, find_missing}
use ma_sinafadavi_gpt.Storage.View.{find, docs, find-append, either}
use ma_sinafadavi_gpt.Storage.Store.{store_data-name_taken, store_data-cases, docs-add_new}
use ma_sinafadavi_gpt.Storage.Invariant.{IsValid, store_data-IsValid}
use ma_sinafadavi_gpt.Executor.{
  Executor, with_storage, stored, store_each, each_with, store_names, data_request, ask, enqueue,
  take_job, handle_data, store_named_results,
}

pub truthy-datastore_address : truthy datastore_address ≡ true
unfolding truthy text_eq
truthy-datastore_address = refl

either_kept : {A : Type 0} (a b : Option A) → a ≢ none → either a b ≢ none
either_kept none b h = absurd (h refl)
either_kept (some a) b h = λ e. absurd (cc)

module _ (B : Backend) (law : IsLawful B) where
  stored-IsValid :
      (r : Result (Unit {0}) × Storage B) (rest : Storage B → Result (Unit {0}) × Storage B)
      → IsValid B law r.1
      → ((m : Storage B) → IsValid B law m → IsValid B law (rest m).1)
      → IsValid B law (stored B r rest).1
  unfolding stored
  stored-IsValid (ok _, m) rest h keeps = keeps m h
  stored-IsValid (err e, m) rest h keeps = h

  store_each-IsValid :
      (items : List (Text × Bytes)) (storage : Storage B)
      → IsValid B law storage
      → IsValid B law (store_each B items storage).1
  unfolding store_each
  store_each-IsValid [] storage h = h
  store_each-IsValid ((name, content) ∷ items) storage h =
      stored-IsValid (store_data B name content storage) (store_each B items)
        (store_data-IsValid B law name content storage h) (store_each-IsValid items)

  store_names-IsValid :
      (names : Names) (payload : Bytes) (storage : Storage B)
      → IsValid B law storage
      → IsValid B law (store_names B names payload storage).1
  unfolding store_names
  store_names-IsValid nameless payload storage h = h
  store_names-IsValid (one name) payload storage h =
      store_each-IsValid (each_with B payload (name ∷ [])) storage h
  store_names-IsValid (many names) payload storage h =
      store_each-IsValid (each_with B payload names) storage h

  enqueue-storage :
      (r : Result (Unit {0})) (job : JobInfo) (s : Executor B)
      → (enqueue B r job s).1.storage ≡ s.storage
  unfolding enqueue
  enqueue-storage (ok _) job s = refl
  enqueue-storage (err e) job s = refl

  -- The three operations that write named data keep the invariant of the storage, whether or not an
  -- exception cuts them short.
  pub executor-IsValid :
      (s : Executor B)
      → IsValid B law s.storage
      → ((job : Job) → IsValid B law (take_job B job s).1.storage)
        × ((b : BundleData) → IsValid B law (handle_data B b s).1.storage)
        × ((results : Dict Bytes) → IsValid B law (store_named_results B results s).1.storage)
  unfolding take_job handle_data store_named_results
  executor-IsValid s h = (
    λ job.
        rw
          (enqueue-storage (store_each B job.content s.storage).0 job.metadata
            (with_storage B s (store_each B job.content s.storage).1))
          (store_each-IsValid job.content s.storage h),
    λ b. store_names-IsValid b.named_data b.payload s.storage h,
    λ results. store_each-IsValid results s.storage h,
  )

  ask-ok :
      (missing : List Text) (s : Executor B)
      → truthy s.node.node_id ≡ true
      → ask B missing s ≡ ok (if is_empty missing then [] else data_request B s missing ∷ [])
  unfolding ask new singly Bundles.has_names
  ask-ok [] s h = refl
  ask-ok (name ∷ missing) s h = rw (h, truthy-datastore_address) (ground arith)

  -- A job whose data can all be stored is put behind the pending jobs, and the datastores are asked in
  -- one bundle for the names, of those it requires, that `find_missing` reports then, or not at all if
  -- there are none. It raises nothing, if the executor's endpoint is not `dtn:none`.
  pub take_job-queued :
      (job : Job) (s : Executor B) (storage : Storage B)
      → truthy s.node.node_id ≡ true
      → store_each B job.content s.storage ≡ (ok tt, storage)
      → take_job B job s ≡ (
        ok (
            if is_empty (find_missing B (required_named_data job.metadata) storage)
            then []
            else data_request B s (find_missing B (required_named_data job.metadata) storage) ∷ []),
        record s { storage = storage; pending_jobs = s.pending_jobs ++ job.metadata ∷ [] },
      )
  unfolding take_job enqueue
  take_job-queued job s storage h e = rw (
    e,
    ask-ok (find_missing B (required_named_data job.metadata) storage) (with_storage B s storage) h,
  )

  -- A name that a document has keeps one when more is stored.
  still_taken :
      (name other : Text) (content : Bytes) (storage : Storage B)
      → find name (docs B law storage) ≢ none
      → find name (docs B law (add_new B other content storage)) ≢ none
  still_taken name other content storage there =
      rw
        (
          docs-add_new B law other content storage,
          find-append name (docs B law storage)
              (record { name = other; filename = B.sha1 content }),
        )
        (either_kept (find name (docs B law storage)) _ there)

  -- The loop over the data of a job ends at a name that is taken, if not before.
  store_each-name_taken :
      (before : Dict Bytes) (name : Text) (content : Bytes) (after : Dict Bytes)
      (storage : Storage B)
      → find name (docs B law storage) ≢ none
      → (taken : Text) × (store_each B (before ++ (name, content) ∷ after) storage
          ≡ (err (name_taken taken), (store_each B before storage).1))
  unfolding store_each stored
  store_each-name_taken [] name content after storage there =
      (name, rw ((store_data-name_taken B law name content storage).1 there))
  store_each-name_taken ((n, c) ∷ before) name content after storage there =
      elim (store_data-cases B law n c storage) [
        | inl (absent, e) ↦ rw e (
            store_each-name_taken before name content after (add_new B n c storage)
              (still_taken name n c storage there))
        | inr (known, e) ↦ (n, rw e)
      ]

  -- A job that brings data under a name that a document has, wherever the name stands among its data, is
  -- not queued: `NameTakenError` is raised, which leaves the pending jobs and the node as they are, no
  -- bundle asks for anything, and the storage is as the loop over the data before that name leaves it.
  pub take_job-name_taken :
      (job : Job) (before : Dict Bytes) (name : Text) (content : Bytes) (after : Dict Bytes)
      (s : Executor B)
      → job.content ≡ before ++ (name, content) ∷ after
      → find name (docs B law s.storage) ≢ none
      → (taken : Text) × (take_job B job s
          ≡ (err (name_taken taken), with_storage B s (store_each B before s.storage).1))
  unfolding take_job enqueue
  take_job-name_taken job before name content after s e there =
      let (taken, ends) = store_each-name_taken before name content after s.storage there in
      (taken, rw (e, ends))
