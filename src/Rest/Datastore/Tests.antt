-- ===== src/Rest/Datastore/Tests.antt =====
-- A REST datastore with concrete data (rest/nodes/datastore.py).
use ma_sinafadavi_gpt.Base.{
  err, ◌≡◌, refl, true, false, none, some, [], ◌∷◌, ◌++◌, Text, codes, text_eq, starts_with, split,
  ok, if◌then◌else◌,
}
use ma_sinafadavi_gpt.Base.Dict
use ma_sinafadavi_gpt.Base.Exceptions.{attribute_error}
use ma_sinafadavi_gpt.Rest.Breakout.{
  prevent_breakout, slashes, normpath, join_names, without_last_slash, is_formatted,
}
use ma_sinafadavi_gpt.Rest.Datastore.{
  delete_data, delete_one, Datastore, init, Stores, store_data, RemovesDirs, delete_job_data,
  is_job_data,
}
use ma_sinafadavi_gpt.Rest.Datastore.Names.{IsFiled, delete_job_data_lem}
use ma_sinafadavi_gpt.Rest.Datastore.Upload
use ma_sinafadavi_gpt.Rest.Datastore.Upload.{
  created, Upload, File, Step, PathState, PathStep, Reachable, unused, announce, enter, opened,
  concat, appended, created_whole,
}

abbrev same : Text → Text
same t = t

-- A name that leads out of the root directory is let through.
parent_accepted : prevent_breakout same same (codes "../x") ≡ ok (codes "../x")
unfolding prevent_breakout slashes text_eq without_last_slash is_formatted normpath starts_with
    split join_names
parent_accepted = refl

-- So is a name that `os.path.join` takes as an absolute path.
absolute_accepted : prevent_breakout same same (codes "//x") ≡ ok (codes "/x")
unfolding prevent_breakout slashes text_eq without_last_slash is_formatted normpath starts_with
    split join_names
absolute_accepted = refl

abbrev full : Datastore
full = record {
  data_files = (codes "j/a", codes "r/j/a") ∷ [];
  stored_data = (codes "j/a", codes "r/j/a") ∷ [];
}

abbrev keeps_dirs : RemovesDirs
keeps_dirs path = false

full-IsFiled : IsFiled full
unfolding Dict.lookup
full-IsFiled name gone = gone

delete_job_data_lem_example :
    ((delete_job_data keeps_dirs (codes "j") full).0 ≡ ok tt)
    × (Dict.lookup (codes "j/a") (delete_job_data keeps_dirs (codes "j") full).1.stored_data ≡ (
        if is_job_data (codes "j") (codes "j/a")
        then none
        else Dict.lookup (codes "j/a") full.stored_data))
delete_job_data_lem_example =
    delete_job_data_lem keeps_dirs (codes "j") (codes "j/a") full full-IsFiled

-- A deletion that falls between the two parts of `store_data` takes the `File` away.
abbrev unfiled : Datastore
unfiled = record { data_files = []; stored_data = full.stored_data }

unfiled_raises : (delete_data keeps_dirs (codes "j/a") unfiled).0 ≡ err attribute_error
unfolding delete_data delete_one Dict.lookup text_eq
unfiled_raises = refl

abbrev stores : Stores
stores path = created

abbrev below : Text → Text
below inner = codes "r/" ++ inner

a_stored : store_data same same below stores 9 3 (codes "j/a") init ≡ (ok true, full)
unfolding store_data prevent_breakout slashes text_eq without_last_slash is_formatted normpath
    starts_with split join_names Dict.lookup Dict.put
a_stored = refl

-- An upload of one piece, up to its last test.
abbrev upload : Upload
upload = record { id = 1; pieces = codes "ab" ∷ [] }

abbrev before_writing : File
before_writing = record {
  interrupt = 0;
  deleted = false;
  waiting = [];
  writer = some (record { upload = upload; rest = upload.pieces });
}

abbrev at_end : File
at_end = record before_writing { writer = some (record { upload = upload; rest = [] }) }

abbrev written : PathState
written = record { content = some (codes "ab"); current = some at_end; others = []; ended = [] }

made-Reachable : Reachable (record unused { current = some Upload.init })
made-Reachable = Reachable.moves Reachable.starts (PathStep.makes refl)

announced-Reachable : Reachable (record unused { current = some (announce upload Upload.init) })
announced-Reachable =
    Reachable.moves made-Reachable (PathStep.works Upload.init _ refl refl (Step.announces upload))

opened-Reachable : Reachable (record unused { current = some before_writing; content = some [] })
unfolding announce enter opened
opened-Reachable =
    Reachable.moves announced-Reachable (
      PathStep.works (announce upload Upload.init) _ refl refl (Step.enters upload [] [] refl refl))

written-Reachable : Reachable written
unfolding appended
written-Reachable =
    Reachable.moves opened-Reachable
      (PathStep.works before_writing _ refl refl (Step.writes upload (codes "ab") [] refl refl))

created_whole_example : (written.content ≡ some (concat upload.pieces)) × (at_end.waiting ≡ [])
created_whole_example = created_whole written at_end upload written-Reachable refl refl refl refl
