-- ===== src/Rest/Breakout.antt =====
-- The check of names that become paths (util/fs.py, `prevent_breakout`), with `os.path.normpath` of
-- POSIX. The expansions of `~` and of variables depend on the environment and are parameters.
use ma_sinafadavi_gpt.Base.{
  Bool, false, not, ◌&&◌, ◌||◌, List, [], ◌∷◌, ◌++◌, Text, codes, text_eq, is_empty, starts_with,
  split, Result, ok, err, ◌==◌, if◌then◌else◌,
}
use ma_sinafadavi_gpt.Base.Exceptions.{escapes}

-- `path.replace("\\", "/")`
unfoldable pub slashes : Text → Text
slashes [] = []
slashes (c ∷ s) = (if c == b'\\' then b'/' else c) ∷ slashes s

abbrev dots : Text
dots = codes ".."

-- Without the last item, and whether that is `..`
drop_last : List Text → List Text
drop_last [] = []
drop_last (n ∷ []) = []
drop_last (n ∷ m ∷ names) = n ∷ drop_last (m ∷ names)

ends_in_dots : List Text → Bool
ends_in_dots [] = false
ends_in_dots (n ∷ []) = text_eq n dots
ends_in_dots (n ∷ m ∷ names) = ends_in_dots (m ∷ names)

-- The loop of `normpath` over the names, with those that are kept.
normal_names : Bool → List Text → List Text → List Text
unfolding drop_last ends_in_dots
normal_names rooted kept [] = kept
normal_names rooted kept (n ∷ names) =
    let kept' =
      if is_empty n || text_eq n (codes ".")
      then kept
      else if not (text_eq n dots) || (not rooted && is_empty kept) || ends_in_dots kept
      then kept ++ n ∷ []
      else drop_last kept in
    normal_names rooted kept' names

-- `"/".join(names)`
unfoldable pub join_names : List Text → Text
join_names [] = []
join_names (n ∷ []) = n
join_names (n ∷ m ∷ names) = n ++ b'/' ∷ join_names (m ∷ names)

-- The slashes that `normpath` keeps at the front: two where there are exactly two.
front : Text → Text
front path =
    if starts_with path (codes "///")
    then codes "/"
    else if starts_with path (codes "//")
    then codes "//"
    else if starts_with path (codes "/")
    then codes "/"
    else []

or_dot : Text → Text
or_dot [] = codes "."
or_dot (c ∷ path) = c ∷ path

-- `os.path.normpath`
unfoldable pub normpath : Text → Text
unfolding normal_names front or_dot
normpath path =
    let slash = front path in
    or_dot (slash ++ join_names (normal_names (not (is_empty slash)) [] (split b'/' path)))

-- `path[:-1] if path.endswith("/") else path`
unfoldable pub without_last_slash : Text → Text
without_last_slash [] = []
without_last_slash (c ∷ []) = if c == b'/' then [] else c ∷ []
without_last_slash (c ∷ d ∷ s) = c ∷ without_last_slash (d ∷ s)

strip_first : Text → Text
strip_first [] = []
strip_first (c ∷ path) = if c == b'/' then path else c ∷ path

module _ (expanduser expandvars : Text → Text) where
  -- The test of a path without its last slash.
  unfoldable pub is_formatted : Text → Bool
  is_formatted path =
      text_eq (slashes (normpath path)) path
      && text_eq (expanduser path) path
      && text_eq (expandvars path) path

  -- `prevent_breakout`
  unfoldable pub prevent_breakout : Text → Result Text
  unfolding is_formatted strip_first
  prevent_breakout name =
      let path = slashes name in
      if text_eq path (codes "/")
      then ok []
      else if is_formatted (without_last_slash path)
      then ok (strip_first path)
      else err (escapes path)
