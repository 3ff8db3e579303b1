-- ===== src/Node/Rounds.antt =====
-- The loop over fetched bundles, and the round around it (dtn/node.py, dtn/executor.py,
-- dtn/datastore.py): what a node's `_handle_bundle` keeps, a round keeps.
use ma_sinafadavi_gpt.Base.{◌≡◌, refl, List, [], ◌∷◌, ◌++◌, Result, ok, err}
use ma_sinafadavi_gpt.Bundles.{BundleData}
use ma_sinafadavi_gpt.Messages.{Message}
use ma_sinafadavi_gpt.Node.{handle_all, continue_with, new_bundles, round, fetched, replies_or_none}

module _ {S : Type 0} where
  continue_with-ok :
      (r : Result (List BundleData) × S) (replies : List BundleData)
      (rest : List BundleData → S → Result (List BundleData) × S) {sent : List BundleData} {s' : S}
      → continue_with r replies rest ≡ (ok sent, s')
      → (more : List BundleData) × (m : S) × (r ≡ (ok more, m))
        × (rest (replies ++ more) m ≡ (ok sent, s'))
  unfolding continue_with
  continue_with-ok (ok more, m) replies rest h = (more, m, refl, h)
  continue_with-ok (err e, m) replies rest h = absurd (cc)

  -- A loop that ends without an exception handled its first bundle, and then the others.
  pub handle_all-cons :
      (handle : BundleData → S → Result (List BundleData) × S) (b : BundleData)
      (bs replies : List BundleData) (s : S) {sent : List BundleData} {s' : S}
      → handle_all handle (b ∷ bs) replies s ≡ (ok sent, s')
      → (more : List BundleData) × (m : S) × (handle b s ≡ (ok more, m))
        × (handle_all handle bs (replies ++ more) m ≡ (ok sent, s'))
  unfolding handle_all
  handle_all-cons handle b bs replies s h =
      continue_with-ok (handle b s) replies (handle_all handle bs) h

module _ {ℓ} {S : Type 0} (P : S → Type ℓ) (handle : BundleData → S → Result (List BundleData) × S)
    (keeps : (b : BundleData) (s : S) → P s → P (handle b s).1) where
  continue_with-keeps :
      (r : Result (List BundleData) × S) (replies : List BundleData)
      (rest : List BundleData → S → Result (List BundleData) × S)
      → P r.1
      → ((more : List BundleData) (m : S) → P m → P (rest more m).1)
      → P (continue_with r replies rest).1
  unfolding continue_with
  continue_with-keeps (ok more, m) replies rest h k = k (replies ++ more) m h
  continue_with-keeps (err e, m) replies rest h k = h

  handle_all-keeps :
      (bs replies : List BundleData) (s : S) → P s → P (handle_all handle bs replies s).1
  unfolding handle_all
  handle_all-keeps [] replies s h = h
  handle_all-keeps (b ∷ bs) replies s h =
      continue_with-keeps (handle b s) replies (handle_all handle bs) (keeps b s h)
        (handle_all-keeps bs)

  replies_or_none-keeps : (r : Result (List BundleData) × S) → P r.1 → P (replies_or_none r).1
  unfolding replies_or_none
  replies_or_none-keeps (ok replies, s) h = h
  replies_or_none-keeps (err e, s) h = h

  fetched-keeps : (r : Result (List BundleData)) (s : S) → P s → P (fetched handle r s).1
  unfolding fetched
  fetched-keeps (err e) s h = h
  fetched-keeps (ok bs) s h =
      replies_or_none-keeps (handle_all handle bs [] s) (handle_all-keeps bs [] s h)

  -- What every `_handle_bundle` of a node keeps, a round of `_handle_bundles` keeps, whatever the
  -- agent answers and whether or not an exception cuts the round short.
  pub round-keeps : (answer : Result Message) (s : S) → P s → P (round handle answer s).1
  unfolding round
  round-keeps answer s h = fetched-keeps (new_bundles answer) s h
