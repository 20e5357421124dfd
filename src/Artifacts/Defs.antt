-- ===== src/Artifacts/Defs.antt =====
-- The export of artifacts. The walk of the directory is the list of what it meets, as paths below
-- the root, and the file system may fail at any entry; patterns are matched byte by byte.
use ai_kodu_runner.Base.{
  ℕ, ◌+◌, ◌%◌, ◌^◌, decimal, Text, text, text_eq, bytes, split, starts_with, member,
  is_ascii_alphanumeric, Bool, false, not, ◌||◌, ◌&&◌, Option, none, some, List, [], ◌∷◌, ◌++◌, map,
  reverse, any, length, is_empty, Result, ok, err, Error, leb, ltb, ◌==◌, if◌then◌else◌, ◌>>=◌,
}
use ai_kodu_runner.Protocol.{Component, normal, components}
use ai_kodu_runner.Policy.{join}

unfoldable pub matches : List ℕ → List ℕ → Bool
matches [] value = is_empty value
matches (head ∷ rest) [] = head == b'*' && matches rest []
matches (head ∷ rest) (byte ∷ value) =
    let dropped = matches rest (byte ∷ value) in
    let stayed = matches (head ∷ rest) value in
    let next = matches rest value in
    if head == b'*' then dropped || stayed else byte == head && next

unfoldable pub glob_match : Text → Text → Bool
glob_match p s = matches (bytes p) (bytes s)

-- The names of `workspace::is_derived_path`.
abbrev pub derived_names : List Text
derived_names =
    text ".cache"
    ∷ text ".ai-kodu-runner"
    ∷ text ".dart_tool"
    ∷ text ".runner-cache"
    ∷ text "build"
    ∷ text "node_modules"
    ∷ []

unfoldable pub is_derived_component : Component → Bool
is_derived_component (normal name) = member name derived_names
is_derived_component _ = false

-- `workspace::is_derived_path`
unfoldable pub is_derived_path : Text → Bool
unfolding is_derived_component
is_derived_path path = any is_derived_component (components path)

-- `pattern.trim_start_matches("./")`
unfoldable pub trim_dot_slash : Text → Text
trim_dot_slash [] = []
trim_dot_slash (c ∷ []) = c ∷ []
trim_dot_slash (c ∷ d ∷ s) =
    let rest = trim_dot_slash s in if c == b'.' && d == b'/' then rest else c ∷ d ∷ s

-- The texts of `rel.ancestors()` without the empty one, for a path of plain names.
unfoldable pub ancestors : Text → List Text → List Text
ancestors above [] = []
ancestors above (name ∷ names) =
    let path = if is_empty above then name else above ++ (text "/" ++ name) in
    path ∷ ancestors path names

unfoldable pub names_pattern : List Text → Text → Bool
unfolding trim_dot_slash
names_pattern patterns derived_root =
    any
      (λ pattern.
        text_eq (trim_dot_slash pattern) derived_root
        || starts_with (derived_root ++ text "/") (trim_dot_slash pattern))
      patterns

-- For an entry below the root, by its path from there.
unfoldable pub should_visit : Text → List Text → Bool
unfolding ancestors names_pattern
should_visit rel patterns =
    is_empty rel
    || not (is_derived_path rel)
    || any (λ derived_root. is_derived_path derived_root && names_pattern patterns derived_root)
        (ancestors [] (split b'/' rel))

-- What the walk meets: a path below the root, whether it is a file, and its size; or a failure.
pub record Entry : Type 0 where
  pub rel : Text
  pub is_file : Bool
  pub size : ℕ

pub data Step : Type 0 where
  met : Entry → Step
  failed : Error → Step

-- The files copied to the destination, the last one first, and their size as a `u64`.
pub record Copied : Type 0 where
  pub out : List Entry
  pub size : ℕ

abbrev pub nothing : Copied
nothing = record { out = []; size = 0 }

abbrev pub copy_file : Entry → Copied → Copied
copy_file e done = record { out = e ∷ done.out; size = (done.size + e.size) % 2 ^ 64 }

-- An entry that the loop passes over.
abbrev pub is_skipped : List Text → Entry → Bool
is_skipped patterns e = not e.is_file || not (any (λ p. glob_match p e.rel) patterns)

-- The test at which the loop stops.
abbrev pub is_full : (max max_files : ℕ) → Copied → Entry → Bool
is_full max max_files done e =
    leb max_files (length done.out) || ltb max ((done.size + e.size) % 2 ^ 64)

unfoldable pub export_loop : List Text → (max max_files : ℕ) → Copied → List Step → Result Copied
export_loop patterns max max_files done [] = ok done
export_loop patterns max max_files done (failed e ∷ rest) = err e
export_loop patterns max max_files done (met e ∷ rest) =
    let passed = export_loop patterns max max_files done rest in
    let copied = export_loop patterns max max_files (copy_file e done) rest in
    if is_skipped patterns e
    then passed
    else if is_full max max_files done e
    then ok done
    else copied

-- `walk_dir visit` is the walk of the root with `filter_entry(visit)`. Without a pattern nothing is
-- read and nothing is written.
unfoldable pub export :
    (walk_dir : (Text → Bool) → List Step)
    → List Text
    → (max max_files : ℕ) → Result (Option (List Text))
export walk_dir patterns max max_files =
    if is_empty patterns
    then ok none
    else (export_loop patterns max max_files nothing (walk_dir (λ rel. should_visit rel patterns))
        >>= λ done. ok (some (map (λ (e : Entry). e.rel) (reverse done.out))))

unfoldable pub safe_char : ℕ → ℕ
safe_char c = if is_ascii_alphanumeric c || c == b'-' || c == b'_' || c == b'.' then c else b'_'

unfoldable pub safe_component : Text → Text
unfolding safe_char
safe_component value =
    let component = map safe_char value in if is_empty component then text "job" else component

-- `u32::to_string` gives the last component.
unfoldable pub destination : (base job_id : Text) (attempt : ℕ) → Text
destination base job_id attempt =
    join (join (join base (text "artifacts")) (safe_component job_id)) (decimal attempt)
