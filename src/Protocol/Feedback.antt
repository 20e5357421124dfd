-- ===== src/Protocol/Feedback.antt =====
-- `validate_feedback_file`. A path is read as Rust's `std::path` reads it on Unix: its components
-- are what stands between slashes, without the empty ones and without `.` past the front.
use ai_kodu_runner.Base.{
  Text, text, text_eq, strip_prefix, starts_with, ends_with, contains, contains_char, split, Bool,
  true, false, ◌||◌, none, some, List, [], ◌∷◌, any, is_empty, Result, ok, err, bail, ◌>>=◌, ◌>>◌,
  bail_if, if◌then◌else◌,
}

pub data Component : Type 0 where
  root_dir cur_dir parent_dir : Component
  normal : Text → Component

-- A part that is not at the front of the path.
unfoldable pub part_components : List Text → List Component
part_components [] = []
part_components (p ∷ ps) =
    let rest = part_components ps in
    if is_empty p || text_eq p (text ".")
    then rest
    else (if text_eq p (text "..") then parent_dir else normal p) ∷ rest

-- A leading `.` counts, and a leading slash is the root.
unfoldable pub front_components : List Text → List Component
front_components [] = []
front_components (p ∷ ps) =
    if text_eq p (text ".") then cur_dir ∷ part_components ps else part_components (p ∷ ps)

-- `path.is_absolute()`
unfoldable pub is_absolute : Text → Bool
is_absolute [] = false
is_absolute (c ∷ s) = starts_with (text "/") (c ∷ s)

-- `path.components()`
unfoldable pub components : Text → List Component
unfolding front_components part_components
components path =
    if is_absolute path
    then root_dir ∷ part_components (split b'/' path)
    else front_components (split b'/' path)

unfoldable pub is_normal : Component → Bool
is_normal (normal n) = true
is_normal _ = false

unfoldable pub is_special : Component → Bool
is_special (normal n) = false
is_special _ = true

-- The part of the value below `/workspace`.
unfoldable pub workspace_relative : Text → Result Text
workspace_relative value = elim (strip_prefix (text "/workspace/") value) [
  | some relative ↦ ok relative
  | none ↦
      if starts_with (text "/") value
      then err (bail (text "feedback_file must be inside /workspace"))
      else ok value
]

unfoldable pub validate_feedback_file : Text → Result Text
unfolding workspace_relative is_special
validate_feedback_file value = do
  relative ← workspace_relative value
  bail_if
      (is_empty relative
        || contains_char 92 relative
        || contains_char b':' relative
        || text_eq relative (text ".")
        || starts_with (text "./") relative
        || contains (text "/./") relative
        || ends_with (text "/.") relative)
      (text "invalid feedback_file path")
  bail_if (is_absolute relative || any is_special (components relative))
      (text "invalid feedback_file path")
  ok relative
