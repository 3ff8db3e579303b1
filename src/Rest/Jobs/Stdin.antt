-- ===== src/Rest/Jobs/Stdin.antt =====
-- What a REST executor makes of a standard input with a name and a path (rest/job.py).
use ma_sinafadavi_gpt.Base.{
  ℕ, ◌≡◌, ◌∙◌, refl, sym, subst, inl, inr, Bool, Bool-cases, true, false, Text, is_empty, ok, err,
  if◌then◌else◌,
}
use ma_sinafadavi_gpt.Base.Exceptions.{attribute_error}
use ma_sinafadavi_gpt.Rest.Breakout.{prevent_breakout}
use ma_sinafadavi_gpt.Rest.Model.{Source, name, placed, JobInfo}
use ma_sinafadavi_gpt.Rest.Jobs.{
  named_bin, named_stdin, with_paths, transform_job_info_broker, Place, reworded,
  invalid_formatting, binary_of, checked, stdin_of, internal,
}

-- The input comes with a name that is not empty, and a path.
abbrev pub IsPlaced : Source → Type 0
IsPlaced (name text) = ⊥
IsPlaced (placed text path) = (is_empty text ≡ false) × (is_empty path ≡ false)

-- What the client sends: its input still comes so, and its module is the one that was made.
abbrev IsSent : Source → JobInfo → Type 0
IsSent binary sent = IsPlaced sent.stdin × (sent.wasm_bin ≡ binary)

with_paths-IsSent :
    (id : ℕ) (info : JobInfo)
    → IsPlaced info.stdin
    → (sent : JobInfo) × (with_paths id info ≡ ok sent) × IsSent info.wasm_bin sent
unfolding with_paths
with_paths-IsSent id info h = (_, refl, (h, refl))

named_stdin-IsSent :
    (id : ℕ) (source : Source) (info : JobInfo)
    → IsPlaced source
    → (sent : JobInfo) × (named_stdin id source info ≡ ok sent) × IsSent info.wasm_bin sent
unfolding named_stdin
named_stdin-IsSent id (name text) info h = absurd h
named_stdin-IsSent id (placed text path) info (given, there) =
    rw given (_, refl, ((there, there), refl))

stdin_step :
    (named : Bool) (id : ℕ) (source : Source) (info : JobInfo)
    → IsPlaced source
    → IsPlaced info.stdin
    → (sent : JobInfo) × ((if named then ok info else named_stdin id source info) ≡ ok sent)
      × IsSent info.wasm_bin sent
stdin_step true id source info h k = (info, refl, (k, refl))
stdin_step false id source info h k = named_stdin-IsSent id source info h

-- The module of a job, as the client sends it.
abbrev sent_bin : ℕ → JobInfo → Source
sent_bin id info = if info.wasm_bin_is_named then info.wasm_bin else named_bin id info.wasm_bin

-- The client hands such an input on.
transform-IsSent :
    (id : ℕ) (info : JobInfo)
    → IsPlaced info.stdin
    → (sent : JobInfo) × (transform_job_info_broker id info ≡ ok sent)
      × IsSent (sent_bin id info) sent
unfolding transform_job_info_broker
transform-IsSent id info h =
    let started : JobInfo = record info { wasm_bin = sent_bin id info } in
    let (held, made, (there, same)) = stdin_step info.stdin_is_named id info.stdin started h h in
    let (sent, passed, (still, alike)) = with_paths-IsSent id held there in
    rw made (sent, passed, (still, alike ∙ same))

module _ (join : Text → Text → Text) (basename expanduser expandvars : Text → Text) where
  -- The module has no path of its own, or one that `prevent_breakout` accepts.
  abbrev pub IsFormatted : Source → Type 0
  IsFormatted (name text) = Unit {0}
  IsFormatted (placed text path) =
      (inner : Text) × (prevent_breakout expanduser expandvars path ≡ ok inner)

  binary_of-ok :
      (place : Place) (source : Source)
      → IsFormatted source
      → (binary : Text × Text) × (binary_of join basename expanduser expandvars place source
          ≡ ok binary)
  unfolding binary_of checked
  binary_of-ok place (name text) h = (_, refl)
  binary_of-ok place (placed text path) (inner, fine) = rw fine (_, refl)

  named_bin-IsFormatted :
      (id : ℕ) (source : Source) → IsFormatted source → IsFormatted (named_bin id source)
  unfolding named_bin
  named_bin-IsFormatted id (name text) h = tt
  named_bin-IsFormatted id (placed text path) h = h

  sent_bin-IsFormatted :
      (id : ℕ) (info : JobInfo) → IsFormatted info.wasm_bin → IsFormatted (sent_bin id info)
  sent_bin-IsFormatted id info h = elim (Bool-cases info.wasm_bin_is_named) [
    | inl named ↦ rw named h
    | inr own ↦ rw own (named_bin-IsFormatted id info.wasm_bin h)
  ]

  stdin_of_placed :
      (place : Place) (source : Source)
      → IsPlaced source
      → stdin_of join basename expanduser expandvars place source ≡ err attribute_error
  unfolding stdin_of
  stdin_of_placed place (name text) h = absurd h
  stdin_of_placed place (placed text path) (given, there) = rw given refl

  internal_placed :
      (place : Place) (info : JobInfo)
      → IsPlaced info.stdin
      → IsFormatted info.wasm_bin
      → internal join basename expanduser expandvars place info ≡ err attribute_error
  unfolding internal invalid_formatting reworded
  internal_placed place info h k =
      let (binary, fine) = binary_of-ok place info.wasm_bin k in
      rw (fine, stdin_of_placed place info.stdin h) refl

  -- A job whose standard input has a name and a path, both not empty, and whose module has no path or one
  -- that is well formatted: `transform_job_info_broker` of the client passes it on, and where the executor
  -- builds what it needs of the job that was sent, an `AttributeError` is raised.
  pub placed_stdin_refused :
      (id : ℕ) (place : Place) (info : JobInfo)
      → IsPlaced info.stdin
      → IsFormatted info.wasm_bin
      → (sent : JobInfo) × (transform_job_info_broker id info ≡ ok sent)
        × (internal join basename expanduser expandvars place sent ≡ err attribute_error)
  placed_stdin_refused id place info h k =
      let (sent, passed, (there, same)) = transform-IsSent id info h in
      (
        sent,
        passed,
        internal_placed place sent there
            (subst IsFormatted (sym same) (sent_bin-IsFormatted id info k)),
      )
