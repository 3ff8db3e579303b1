-- ===== src/Jobs/Required.antt =====
-- The named data that a job needs (dtn/job.py).
use ma_sinafadavi_gpt.Base.{
  ◌≡◌, ◌↔◌, ◌∙◌, refl, inl, inr, Bool, Bool-cases, true, false, not, ◌&&◌, ◌||◌, Option, none, some,
  List, [], ◌∷◌, Text, text_eq, text_eq_iff, text_eq_refl, member, is_empty, select, all, arith,
}
use ma_sinafadavi_gpt.Jobs.{
  JobInfo, Job, set_of, values, keys, with_stdin, required_named_data, has_all_data, missing_data,
}

pub member-select :
    (p : Text → Bool) (name : Text) (names : List Text)
    → member name (select p names) ≡ member name names && p name
unfolding member select
member-select p name [] = refl
member-select p name (n ∷ names) = elim (Bool-cases (text_eq n name)) [
  | inl same ↦
      rw ((text_eq_iff n name).0 same)
        (ground (arith, member-select p name names, text_eq_refl name))
  | inr differ ↦ rw differ (ground (arith, member-select p name names))
]

member-set_of : (name : Text) (names : List Text) → member name (set_of names) ≡ member name names
unfolding member set_of
member-set_of name [] = refl
member-set_of name (n ∷ names) = ground (
  arith,
  member-set_of name names,
  member-select (λ m. not (text_eq m n)) name (set_of names),
  text_eq_iff name n,
  text_eq_iff n name,
)

-- Whether a text is the one that an option holds.
abbrev pub is_stdin : Text → Option Text → Bool
is_stdin name none = false
is_stdin name (some t) = not (is_empty t) && text_eq t name

member-with_stdin :
    (name : Text) (o : Option Text) (rest : List Text)
    → member name (with_stdin o rest) ≡ is_stdin name o || member name rest
unfolding with_stdin member
member-with_stdin name none rest = refl
member-with_stdin name (some t) rest = ground arith

-- A name is required exactly if it is that of the module, that of the standard input where one is
-- set, or the source of an input file.
pub member-required_named_data :
    (j : JobInfo) (name : Text)
    → member name (required_named_data j)
      ≡ text_eq j.wasm_module name || is_stdin name j.stdin_file || member name (values j.inputs)
unfolding required_named_data
member-required_named_data j name =
    member-set_of name (j.wasm_module ∷ with_stdin j.stdin_file (values j.inputs))
    ∙ unfold member in ground (arith, member-with_stdin name j.stdin_file (values j.inputs))

all_iff_none :
    (p : Text → Bool) (names : List Text)
    → (all p names ≡ true) ↔ (select (λ n. not (p n)) names ≡ [])
unfolding all select
all_iff_none p [] = (λ h. refl, λ h. refl)
all_iff_none p (n ∷ names) = ground (arith, all_iff_none p names)

-- A job has all its data exactly if no name is missing.
pub has_all_data_iff : (job : Job) → (has_all_data job ≡ true) ↔ (missing_data job ≡ [])
unfolding has_all_data missing_data
has_all_data_iff job =
    all_iff_none (λ n. member n (keys job.content)) (required_named_data job.metadata)

-- A name is missing exactly if it is required and no data of the job has it.
pub member-missing_data :
    (job : Job) (name : Text)
    → member name (missing_data job)
      ≡ member name (required_named_data job.metadata) && not (member name (keys job.content))
unfolding missing_data
member-missing_data job name =
    member-select (λ n. not (member n (keys job.content))) name (required_named_data job.metadata)
