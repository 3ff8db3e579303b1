-- ===== src/Executor/Arrival.antt =====
-- How the data that a job waits for makes it runnable (dtn/executor.py).
use ma_sinafadavi_gpt.Base.{
  ◌≡◌, ◌∙◌, refl, ap, sym, Bool, true, not, ◌&&◌, List, [], ◌∷◌, ◌++◌, Text, text_eq, text_eq_refl,
  Bytes, select, member, ok, arith,
}
use ma_sinafadavi_gpt.Bundles.{BundleData, one}
use ma_sinafadavi_gpt.Jobs.{JobInfo, required_named_data}
use ma_sinafadavi_gpt.Storage.{Entry, Backend, IsLawful, Storage, add_new, find_missing}
use ma_sinafadavi_gpt.Storage.View.{find, is_none, find-append, docs}
use ma_sinafadavi_gpt.Storage.Store.{store_data_lem, docs-add_new}
use ma_sinafadavi_gpt.Storage.Cleanup.{find_missing-select, find_missing_iff}
use ma_sinafadavi_gpt.Executor.{
  Executor, with_storage, stored, store_each, each_with, store_names, handle_data,
  job_has_all_inputs,
}

select-both :
    (p q : Text → Bool) (names : List Text)
    → select (λ n. p n && q n) names ≡ select q (select p names)
unfolding select
select-both p q [] = refl
select-both p q (n ∷ names) = ground (arith, select-both p q names)

select-same :
    (p q : Text → Bool) (names : List Text)
    → ((n : Text) → p n ≡ q n)
    → select p names ≡ select q names
unfolding select
select-same p q [] h = refl
select-same p q (n ∷ names) h = ground (arith, h n, select-same p q names h)

is_none-append :
    (name : Text) (es : List Entry) (e : Entry)
    → is_none (find name (es ++ e ∷ [])) ≡ is_none (find name es) && not (text_eq e.name name)
is_none-append name es e = rw (find-append name es e) (ground arith)

module _ (B : Backend) (law : IsLawful B) where
  -- What is missing after a write: what was missing, without the name that was written.
  find_missing-add_new :
      (names : List Text) (name : Text) (content : Bytes) (s : Storage B)
      → find_missing B names (add_new B name content s)
        ≡ select (λ n. not (text_eq name n)) (find_missing B names s)
  find_missing-add_new names name content s =
      find_missing-select B law names (add_new B name content s)
      ∙ (select-same _ (λ n. is_none (find n (docs B law s)) && not (text_eq name n)) names
            (λ n.
              rw (docs-add_new B law name content s) (
                is_none-append n (docs B law s)
                  (record { name = name; filename = B.sha1 content })))
          ∙ (select-both (λ n. is_none (find n (docs B law s))) (λ n. not (text_eq name n)) names
              ∙ ap (select (λ n. not (text_eq name n))) (sym (find_missing-select B law names s))))

  first_missing :
      (names : List Text) (name : Text) (s : Storage B)
      → find_missing B names s ≡ name ∷ []
      → is_none (find name (docs B law s)) ≡ true
  unfolding member
  first_missing names name s h =
      ground (arith, find_missing_iff B law names name s, ap (member name) h, text_eq_refl name)

  store_names-one :
      (name : Text) (payload : Bytes) (storage : Storage B)
      → is_none (find name (docs B law storage)) ≡ true
      → store_names B (one name) payload storage ≡ (ok tt, add_new B name payload storage)
  unfolding store_names store_each each_with stored
  store_names-one name payload storage free = rw (store_data_lem B law name payload storage, free)

  nothing_missing :
      (names : List Text) (name : Text) (content : Bytes) (s : Storage B)
      → find_missing B names s ≡ name ∷ []
      → find_missing B names (add_new B name content s) ≡ []
  unfolding select
  nothing_missing names name content s h =
      find_missing-add_new names name content s ∙ rw (h, text_eq_refl name)

  -- A job that lacks one name has all its inputs as soon as a bundle with that name is handled, which
  -- raises nothing; the pending jobs stay.
  pub arrival_completes :
      (job : JobInfo) (name : Text) (b : BundleData) (s : Executor B)
      → b.named_data ≡ one name
      → find_missing B (required_named_data job) s.storage ≡ name ∷ []
      → (storage : Storage B) × (handle_data B b s ≡ (ok tt, with_storage B s storage))
        × (job_has_all_inputs B storage job ≡ true)
  unfolding handle_data job_has_all_inputs
  arrival_completes job name b s named missing = (
    add_new B name b.payload s.storage,
    ap (λ r. (r.0, with_storage B s r.1))
        (ap (λ n. store_names B n b.payload s.storage) named
          ∙ store_names-one name b.payload s.storage
              (first_missing (required_named_data job) name s.storage missing)),
    rw (nothing_missing (required_named_data job) name b.payload s.storage missing),
  )
