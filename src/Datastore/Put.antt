-- ===== src/Datastore/Put.antt =====
-- What a datastore does with a PUT (dtn/datastore.py).
use ma_sinafadavi_gpt.Base.{
  ◌≡◌, ◌∙◌, refl, ap, sym, inl, inr, Bool, Bool-cases, true, false, List, [], ◌∷◌, ◌++◌, map,
  map-append, append-nil, append_assoc, Text, Bytes, is_empty, ok, arith, if◌then◌else◌, All,
}
use ma_sinafadavi_gpt.Eid.{truthy}
use ma_sinafadavi_gpt.Bundles
use ma_sinafadavi_gpt.Bundles.{BundleData, Names, one, many, new, bundle}
use ma_sinafadavi_gpt.Bundles.BundleType
use ma_sinafadavi_gpt.Storage.{Backend, IsLawful, Storage, store_data, add_new}
use ma_sinafadavi_gpt.Storage.View.{find, docs, is_none}
use ma_sinafadavi_gpt.Storage.Store.{store_data_lem}
use ma_sinafadavi_gpt.Datastore.{
  Datastore, names_of, taken_message, outcome, put_reply, with_storage, respond, put_checked,
  put_all, handle_data,
}

-- The sender and the receiver of a response are not `dtn:none`.
pub record CanAnswer (B : Backend) (b : BundleData) (s : Datastore B) : Type 0 where
  pub from : truthy s.node.node_id ≡ true
  pub to : truthy b.source ≡ true

module _ (B : Backend) (law : IsLawful B) where
  -- Whether the name is free in the storage.
  abbrev pub free : Text → Storage B → Bool
  free name storage = is_none (find name (docs B law storage))

  -- `error` is set exactly when `success` is not.
  abbrev pub IsStatus : Bool × Text → Type 0
  IsStatus status = status.0 ≡ is_empty status.1

  new-put_reply :
      (b : BundleData) (s : Datastore B) (name : Text) (success : Bool) (error : Text)
      → CanAnswer B b s
      → is_empty name ≡ false
      → success ≡ is_empty error
      → new (put_reply B s b name (success, error)) ≡ ok (put_reply B s b name (success, error))
  unfolding new Bundles.has_names
  new-put_reply b s name success error h named status =
      rw (h.from, h.to, named, status) (ground arith)

  -- The status after the writing of a name: a refusal replaces it, and nothing restores it.
  abbrev pub next_status : Text → Storage B → Bool × Text → Bool × Text
  next_status name storage status =
      if free name storage then status else (false, taken_message name)

  outcome-store_data :
      (name : Text) (content : Bytes) (storage : Storage B) (status : Bool × Text)
      → outcome (store_data B name content storage).0 status ≡ ok (next_status name storage status)
  unfolding outcome
  outcome-store_data name content storage status =
      rw (store_data_lem B law name content storage) (ground arith)

  next_status-IsStatus :
      (name : Text) (storage : Storage B) (status : Bool × Text)
      → IsStatus status
      → IsStatus (next_status name storage status)
  next_status-IsStatus name storage (success, error) h = ground arith

  -- The loop over the names, one name at a time.
  put_all-cons :
      (b : BundleData) (name : Text) (names : List Text) (status : Bool × Text)
      (bundles : List BundleData) (s : Datastore B)
      → CanAnswer B b s
      → is_empty name ≡ false
      → IsStatus status
      → put_all B b (name ∷ names) status bundles s
        ≡ put_all B b names
            (next_status name s.storage status)
            (bundles ++ put_reply B s b name (next_status name s.storage status) ∷ [])
            (with_storage B s (store_data B name b.payload s.storage).1)
  unfolding put_all put_checked respond
  put_all-cons b name names status bundles s h named fits =
      let next = next_status name s.storage status in
      let s' = with_storage B s (store_data B name b.payload s.storage).1 in
      rw (
        outcome-store_data name b.payload s.storage status,
        new-put_reply b s' name next.0 next.1 (record { from = h.from; to = h.to }) named
            (next_status-IsStatus name s.storage status fits),
      )

  -- The loop at a free name.
  put_all-free :
      (b : BundleData) (name : Text) (names : List Text) (status : Bool × Text)
      (bundles : List BundleData) (s : Datastore B)
      → CanAnswer B b s
      → is_empty name ≡ false
      → IsStatus status
      → free name s.storage ≡ true
      → put_all B b (name ∷ names) status bundles s
        ≡ put_all B b names status
            (bundles ++ put_reply B s b name status ∷ [])
            (with_storage B s (add_new B name b.payload s.storage))
  put_all-free b name names status bundles s h named fits fresh =
      put_all-cons b name names status bundles s h named fits
      ∙ rw (store_data_lem B law name b.payload s.storage, fresh)

  -- The loop at a name that is taken.
  put_all-taken :
      (b : BundleData) (name : Text) (names : List Text) (status : Bool × Text)
      (bundles : List BundleData) (s : Datastore B)
      → CanAnswer B b s
      → is_empty name ≡ false
      → IsStatus status
      → free name s.storage ≡ false
      → put_all B b (name ∷ names) status bundles s
        ≡ put_all B b names
            (false, taken_message name)
            (bundles ++ put_reply B s b name (false, taken_message name) ∷ [])
            s
  put_all-taken b name names status bundles s h named fits taken =
      put_all-cons b name names status bundles s h named fits
      ∙ rw (store_data_lem B law name b.payload s.storage, taken)

  -- A PUT is the loop over the names.
  put-handle_data :
      (b : BundleData) (names : Names) (s : Datastore B)
      → b.type ≡ BundleType.ndata_put
      → b.named_data ≡ names
      → handle_data B b s ≡ put_all B b (names_of names) (true, []) [] s
  unfolding handle_data
  put-handle_data b names s type e =
      ground (arith) ∙ ap (λ n. put_all B b (names_of n) (true, []) [] s) e

  -- A PUT of one name, not empty, by a sender that can be answered: where the name is free the data
  -- is added and the response reports success; else nothing changes, and the response carries the
  -- message that the name is taken.
  pub put_one :
      (b : BundleData) (name : Text) (s : Datastore B)
      → CanAnswer B b s
      → is_empty name ≡ false
      → b.type ≡ BundleType.ndata_put
      → b.named_data ≡ one name
      → handle_data B b s ≡ (
          if free name s.storage
          then (
            ok (put_reply B s b name (true, []) ∷ []),
            with_storage B s (add_new B name b.payload s.storage),
          )
          else (ok (put_reply B s b name (false, taken_message name) ∷ []), s))
  unfolding names_of
  put_one b name s h named type names = elim (Bool-cases (free name s.storage)) [
    | inl fresh ↦
        put-handle_data b (one name) s type names
        ∙ (put_all-free b name [] (true, []) [] s h named refl fresh
            ∙ rw fresh (unfold put_all in refl))
    | inr taken ↦
        put-handle_data b (one name) s type names
        ∙ (put_all-taken b name [] (true, []) [] s h named refl taken
            ∙ rw taken (unfold put_all in refl))
  ]

  -- The named data of the responses so far, and of those to come.
  put_all-total :
      (b : BundleData) (names : List Text) (status : Bool × Text) (bundles : List BundleData)
      (s : Datastore B)
      → CanAnswer B b s
      → All (λ n. is_empty n ≡ false) names
      → IsStatus status
      → (replies : List BundleData) × (s' : Datastore B) × (put_all B b names status bundles s
          ≡ (ok replies, s'))
        × (map (λ (r : BundleData). r.named_data) replies
            ≡ map (λ (r : BundleData). r.named_data) bundles ++ map one names)
  put_all-total b [] status bundles s h named fits =
      (bundles, s, unfold put_all in refl, sym (append-nil _))
  put_all-total b (name ∷ names) status bundles s h (first, named) fits =
      let next = next_status name s.storage status in
      let (replies, s', run, total) =
        put_all-total b names next (bundles ++ put_reply B s b name next ∷ [])
          (with_storage B s (store_data B name b.payload s.storage).1)
          (record { from = h.from; to = h.to }) named
          (next_status-IsStatus name s.storage status fits) in
      (
        replies,
        s',
        put_all-cons b name names status bundles s h first fits ∙ run,
        total ∙ simp (map-append, append_assoc),
      )

  -- A PUT of several names, none empty, by a sender that can be answered, raises nothing and is
  -- answered by one response for each name, in their order.
  pub put_answered :
      (b : BundleData) (names : List Text) (s : Datastore B)
      → CanAnswer B b s
      → All (λ n. is_empty n ≡ false) names
      → b.type ≡ BundleType.ndata_put
      → b.named_data ≡ many names
      → (replies : List BundleData) × (s' : Datastore B) × (handle_data B b s ≡ (ok replies, s'))
        × (map (λ (r : BundleData). r.named_data) replies ≡ map one names)
  unfolding names_of
  put_answered b names s h named type several =
      let (replies, s', run, total) = put_all-total b names (true, []) [] s h named refl in
      (replies, s', put-handle_data b (many names) s type several ∙ run, total)

  -- A PUT of two different names, not empty, the first of them taken and the second free: the data
  -- is stored under the second name, and its response reports the failure of the first.
  pub put_failure_sticks :
      (b : BundleData) (first second : Text) (s : Datastore B)
      → CanAnswer B b s
      → is_empty first ≡ false
      → is_empty second ≡ false
      → b.type ≡ BundleType.ndata_put
      → b.named_data ≡ many (first ∷ second ∷ [])
      → free first s.storage ≡ false
      → free second s.storage ≡ true
      → handle_data B b s ≡ (
        ok (
            put_reply B s b first (false, taken_message first)
            ∷ put_reply B s b second (false, taken_message first)
            ∷ []),
        with_storage B s (add_new B second b.payload s.storage),
      )
  unfolding names_of
  put_failure_sticks b first second s h one_named two_named type several taken fresh =
      put-handle_data b (many (first ∷ second ∷ [])) s type several
      ∙ (put_all-taken b first (second ∷ []) (true, []) [] s h one_named refl taken
          ∙ (put_all-free b second [] (false, taken_message first)
                (put_reply B s b first (false, taken_message first) ∷ []) s h two_named refl fresh
              ∙ (unfold put_all in refl)))
