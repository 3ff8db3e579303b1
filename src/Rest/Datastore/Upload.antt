-- ===== src/Rest/Datastore/Upload.antt =====
-- Uploads to one path of a REST datastore (rest/nodes/datastore.py, `File`): any number of threads call
-- `store` and `delete`. A step is what a thread does between two points where others can go on: it
-- announces its upload, gets the write lock, writes a piece, or returns. A deletion takes the `File` out of
-- `data_files` while its uploads go on, and the next upload makes a new one for the path, with a lock and
-- a counter of its own; so does a name that leads to the same path. What a write leaves in the file while
-- there are several `File`s depends on where each of them stands in it, and is left open.
use ma_sinafadavi_gpt.Base.{
  ℕ, ◌+◌, ◌-◌, ◌≡◌, ◌≢◌, ◌∙◌, refl, ap, sym, subst, inl, inr, Bool, Bool-cases, true, false, Option,
  none, some, List, [], ◌∷◌, ◌++◌, append_assoc, append-nil, length, length-append, Bytes, arith,
  ◌==◌, if◌then◌else◌,
}

-- `FileStatus`
pub data FileStatus : Type 0 where
  created error interrupted : FileStatus

-- An upload by its pieces, as `file.read(65536)` returns them.
pub record Upload : Type 0 where
  pub id : ℕ
  pub pieces : List Bytes

-- The upload that holds the write lock, and its pieces that are not written yet.
pub record Writing : Type 0 where
  pub upload : Upload
  pub rest : List Bytes

-- A `File`, with the uploads that wait for its lock and the one that holds it.
pub record File : Type 0 where
  pub interrupt : ℕ
  pub deleted : Bool
  pub waiting : List Upload
  pub writer : Option Writing

-- `File(path)`
abbrev pub init : File
init = record { interrupt = 0; deleted = false; waiting = []; writer = none }

-- A `File` at work: with what stands under its path, and the uploads that have returned.
pub record Session : Type 0 where
  pub file : File
  pub content : Option Bytes
  pub ended : List (Upload × FileStatus)

unfoldable pub concat : List Bytes → Bytes
concat [] = []
concat (piece ∷ pieces) = piece ++ concat pieces

-- `self.interrupt += 1`, before the lock
unfoldable pub announce : Upload → File → File
announce u f = record f { interrupt = f.interrupt + 1; waiting = f.waiting ++ u ∷ [] }

-- Behind the lock: `self.deleted = False`, and the counter goes down.
unfoldable pub enter : List Upload → File → File
enter others f = record f { interrupt = f.interrupt - 1; deleted = false; waiting = others }

-- An upload that others wait behind returns; else the file is opened.
unfoldable pub opened : Upload → List Upload → Session → Session
unfolding enter
opened u others s =
    let f = enter others s.file in
    let open_file : Session = record s {
      file = record f { writer = some (record { upload = u; rest = u.pieces }) };
      content = some [];
    } in
    let give_up : Session = record s { file = f; ended = s.ended ++ (u, interrupted) ∷ [] } in
    if f.interrupt == 0 then open_file else give_up

unfoldable pub appended : Option Bytes → Bytes → Option Bytes
appended none piece = none
appended (some content) piece = some (content ++ piece)

-- The upload that holds the lock returns.
unfoldable pub returned : Upload → FileStatus → Option Bytes → Session → Session
returned u status content s = record {
  file = record (s.file) { writer = none };
  content = content;
  ended = s.ended ++ (u, status) ∷ [];
}

-- A step of one of the threads in `store`. Where opening or writing raises `OSError`, the file may or may not
-- be removed.
pub data Step (s : Session) : Session → Type 0 where
  announces : (u : Upload) → Step s (record s { file = announce u s.file })
  enters :
      (u : Upload) (before after : List Upload)
      → s.file.writer ≡ none
      → s.file.waiting ≡ before ++ u ∷ after
      → Step s (opened u (before ++ after) s)
  cannot_open :
      (u : Upload) (before after : List Upload) (removed : Bool)
      → s.file.writer ≡ none
      → s.file.waiting ≡ before ++ u ∷ after
      → s.file.interrupt - 1 ≡ 0
      → Step s (record {
        file = enter (before ++ after) s.file;
        content = if removed then none else s.content;
        ended = s.ended ++ (u, error) ∷ [];
      })
  writes :
      (u : Upload) (piece : Bytes) (rest : List Bytes)
      → s.file.writer ≡ some (record { upload = u; rest = piece ∷ rest })
      → s.file.interrupt ≡ 0
      → Step s (record s {
        file = record (s.file) { writer = some (record { upload = u; rest = rest }) };
        content = appended s.content piece;
      })
  stops :
      (u : Upload) (rest : List Bytes)
      → s.file.writer ≡ some (record { upload = u; rest = rest })
      → s.file.interrupt ≢ 0
      → Step s (returned u interrupted s.content s)
  finishes :
      (u : Upload)
      → s.file.writer ≡ some (record { upload = u; rest = [] })
      → s.file.interrupt ≡ 0
      → Step s (returned u created s.content s)
  fails :
      (u : Upload) (rest : List Bytes) (removed : Bool)
      → s.file.writer ≡ some (record { upload = u; rest = rest })
      → Step s (returned u error (if removed then none else s.content) s)

-- A path: what stands under it, the `File` that `data_files` holds for a name, and the other `File`s with
-- the path, which were taken out or stand under other names.
pub record PathState : Type 0 where
  pub content : Option Bytes
  pub current : Option File
  pub others : List File
  pub ended : List (Upload × FileStatus)

abbrev pub session : File → PathState → Session
session f s = record { file = f; content = s.content; ended = s.ended }

-- Nothing stands under the path, and no name leads to it.
abbrev pub unused : PathState
unused = record { content = none; current = none; others = []; ended = [] }

-- A step at a path, whichever thread makes it.
pub data PathStep (s : PathState) : PathState → Type 0 where
  -- `store_data` makes a `File` for the name.
  makes : s.current ≡ none → PathStep s (record s { current = some init })
  -- So it does for another name with this path.
  aliases : PathStep s (record s { others = s.others ++ init ∷ [] })
  -- An upload goes on where there is one `File`.
  works :
      (f : File) (t : Session)
      → s.current ≡ some f
      → s.others ≡ []
      → Step (session f s) t
      → PathStep s (record s { content = t.content; current = some t.file; ended = t.ended })
  -- An upload goes on where there are several.
  works_among :
      (f : File) (t : Session) (content : Option Bytes)
      → s.current ≡ some f
      → s.others ≢ []
      → Step (session f s) t
      → PathStep s (record s { content = content; current = some t.file; ended = t.ended })
  others_work :
      (f : File) (before after : List File) (t : Session) (content : Option Bytes)
      → s.others ≡ before ++ f ∷ after
      → Step (session f s) t
      → PathStep s
          (record s { content = content; others = before ++ t.file ∷ after; ended = t.ended })
  -- `_delete_data` takes the `File` out,
  pops :
      (f : File)
      → s.current ≡ some f
      → PathStep s (record s { current = none; others = s.others ++ f ∷ [] })
  -- and `delete` removes the file when it has the lock.
  deletes :
      (f : File) (before after : List File)
      → s.others ≡ before ++ f ∷ after
      → f.writer ≡ none
      → s.content ≢ none
      → PathStep s
          (record s { content = none; others = before ++ record f { deleted = true } ∷ after })

pub data Reachable : PathState → Type 0 where
  starts : Reachable unused
  moves : {s t : PathState} → Reachable s → PathStep s t → Reachable t

-- What the writer has on the disk, and what it has not.
abbrev pub IsPartial : Option Writing → Option Bytes → Type 0
IsPartial none content = Unit
IsPartial (some w) content =
    (done : Bytes) × (content ≡ some done) × (done ++ concat w.rest ≡ concat w.upload.pieces)

pub record IsCoherent (s : Session) : Type 0 where
  pub counted : s.file.interrupt ≡ length s.file.waiting
  pub partial : IsPartial s.file.writer s.content

one_less :
    (n : ℕ) (u : Upload) (waiting before after : List Upload)
    → waiting ≡ before ++ u ∷ after
    → n ≡ length waiting
    → n - 1 ≡ length (before ++ after)
one_less n u waiting before after there counted =
    omega (
      arith,
      counted,
      ap length there,
      length-append before (u ∷ after),
      length-append before after,
    )

opened-IsCoherent :
    (u : Upload) (before after : List Upload) (s : Session)
    → s.file.writer ≡ none
    → s.file.waiting ≡ before ++ u ∷ after
    → IsCoherent s
    → IsCoherent (opened u (before ++ after) s)
unfolding opened enter
opened-IsCoherent u before after s idle there h =
    let fewer = one_less s.file.interrupt u s.file.waiting before after there h.counted in
    elim (Bool-cases (s.file.interrupt - 1 == 0)) [
      | inl last ↦ rw last (record { counted = fewer; partial = ([], refl, refl) })
      | inr others ↦ rw others (record { counted = fewer; partial = rw idle tt })
    ]

whole_piece :
    (done piece : Bytes) (rest : List Bytes)
    → (done ++ piece) ++ concat rest ≡ done ++ concat (piece ∷ rest)
unfolding concat
whole_piece done piece rest = append_assoc done piece (concat rest)

writes-IsPartial :
    (u : Upload) (piece : Bytes) (rest : List Bytes) (content : Option Bytes)
    → IsPartial (some (record { upload = u; rest = piece ∷ rest })) content
    → IsPartial (some (record { upload = u; rest = rest })) (appended content piece)
unfolding appended
writes-IsPartial u piece rest content (done, e, whole) =
    (done ++ piece, ap (λ c. appended c piece) e, whole_piece done piece rest ∙ whole)

Step-IsCoherent : {s t : Session} → Step s t → IsCoherent s → IsCoherent t
unfolding announce enter returned
Step-IsCoherent {s} (announces u) h = record {
  counted = omega (arith, h.counted, length-append s.file.waiting (u ∷ []));
  partial = h.partial;
}
Step-IsCoherent {s} (enters u before after idle there) h =
    opened-IsCoherent u before after s idle there h
Step-IsCoherent {s} (cannot_open u before after removed idle there last) h = record {
  counted = one_less s.file.interrupt u s.file.waiting before after there h.counted;
  partial = rw idle tt;
}
Step-IsCoherent {s} (writes u piece rest busy calm) h = record {
  counted = h.counted;
  partial =
      writes-IsPartial u piece rest s.content (subst (λ w. IsPartial w s.content) busy h.partial);
}
Step-IsCoherent (stops u rest busy hurried) h = record { counted = h.counted; partial = tt }
Step-IsCoherent (finishes u busy calm) h = record { counted = h.counted; partial = tt }
Step-IsCoherent (fails u rest removed busy) h = record { counted = h.counted; partial = tt }

-- The one `File` of a path is coherent.
abbrev IsSole : PathState → Type 0
IsSole s = (f : File) → s.others ≡ [] → s.current ≡ some f → IsCoherent (session f s)

none_between : {A : Type 0} (before : List A) (x : A) (after : List A) → before ++ x ∷ after ≢ []
none_between [] x after = λ e. absurd (cc)
none_between (y ∷ before) x after = λ e. absurd (cc)

init-IsCoherent : (s : PathState) → IsCoherent (session init s)
init-IsCoherent s = record { counted = refl; partial = tt }

PathStep-IsSole : {s t : PathState} → PathStep s t → IsSole s → IsSole t
PathStep-IsSole {s} (makes free) h f alone here =
    let same : init ≡ f = cc in subst (λ g. IsCoherent (session g s)) same (init-IsCoherent s)
PathStep-IsSole {s} aliases h f alone here = absurd (none_between s.others init [] alone)
PathStep-IsSole {s} (works g t was sole step) h f alone here =
    let same : t.file ≡ f = cc in
    subst (λ k. IsCoherent (record t { file = k })) same (Step-IsCoherent step (h g sole was))
PathStep-IsSole {s} (works_among g t content was several step) h f alone here =
    absurd (several alone)
PathStep-IsSole {s} (others_work g before after t content there step) h f alone here =
    absurd (none_between before t.file after alone)
PathStep-IsSole {s} (pops g was) h f alone here = absurd (none_between s.others g [] alone)
PathStep-IsSole {s} (deletes g before after there idle full) h f alone here =
    absurd (none_between before (record g { deleted = true }) after alone)

Reachable-IsSole : {s : PathState} → Reachable s → IsSole s
Reachable-IsSole starts = λ f alone here. absurd (cc)
Reachable-IsSole (moves before step) = PathStep-IsSole step (Reachable-IsSole before)

no_one : (us : List Upload) → 0 ≡ length us → us ≡ []
no_one [] h = refl
no_one (u ∷ us) h = absurd (omega arith)

-- As long as one `File` was made for a path, that is, the name was never deleted and no other name leads to
-- the path, and however its uploads were interleaved: when an upload has no piece left and nobody has
-- interrupted it, so that it reports `CREATED`, the file holds exactly the pieces of that upload, and no
-- other upload waits.
pub created_whole :
    (s : PathState) (f : File) (u : Upload)
    → Reachable s
    → s.others ≡ []
    → s.current ≡ some f
    → f.writer ≡ some (record { upload = u; rest = [] })
    → f.interrupt ≡ 0
    → (s.content ≡ some (concat u.pieces)) × (f.waiting ≡ [])
unfolding concat
created_whole s f u reached alone here busy calm =
    let h = Reachable-IsSole reached f alone here in
    let (done, e, whole) = subst (λ w. IsPartial w s.content) busy h.partial in
    (e ∙ ap some (sym (append-nil done) ∙ whole), no_one f.waiting (sym calm ∙ h.counted))
