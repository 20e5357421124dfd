-- ===== src/Protocol/Paths.antt =====
-- What `validate_feedback_file` guarantees of a path that it accepts.
use ai_kodu_runner.Base.{
  Text, text, text_eq, text_eq_iff, strip_prefix, split, false, some, List, [], ◌∷◌, ◌++◌, any,
  is_empty, All, ok, ◌≡◌, ◌≢◌, refl, arith, >>=-eq-ok,
}
use ai_kodu_runner.Protocol.Feedback.{
  part_components, front_components, is_absolute, components, is_special, workspace_relative,
  validate_feedback_file,
}

-- The parts of a list, none of which is the parent directory.
abbrev pub NoParent : List Text → Type 0
NoParent parts = All (λ part. part ≢ text "..") parts

parent_facts : (is_empty (text "..") ≡ false) × (text_eq (text "..") (text ".") ≡ false)
unfolding text_eq text
parent_facts = (refl, refl)

part_components-NoParent :
    (parts : List Text) → any is_special (part_components parts) ≡ false → NoParent parts
unfolding part_components is_special
part_components-NoParent [] h = tt
part_components-NoParent (p ∷ ps) h = (
  λ e. ground (arith, parent_facts, text_eq_iff p (text "..")),
  ground (arith, part_components-NoParent ps),
)

front_components-NoParent :
    (parts : List Text) → any is_special (front_components parts) ≡ false → NoParent parts
unfolding front_components is_special
front_components-NoParent [] h = tt
front_components-NoParent (p ∷ ps) h = ground (arith, part_components-NoParent (p ∷ ps))

pub components-NoParent :
    (path : Text)
    → is_absolute path ≡ false
    → any is_special (components path) ≡ false
    → NoParent (split b'/' path)
unfolding components
components-NoParent path relative h =
    front_components-NoParent (split b'/' path) (rw (relative, components) at h)

-- A path that is accepted as `p` is relative, and no part of `p` between slashes is `..`: joined to
-- the workspace it names a place below the workspace.
pub feedback_stays_below :
    (value p : Text)
    → validate_feedback_file value ≡ ok p
    → (is_absolute p ≡ false) × NoParent (split b'/' p)
unfolding validate_feedback_file
feedback_stays_below value p h =
    let (relative, _, checked) = >>=-eq-ok (workspace_relative value) _ h in
    let facts : (is_absolute p ≡ false) × (any is_special (components p) ≡ false) =
      (ground (arith, checked), ground (arith, checked)) in
    (facts.0, components-NoParent p facts.0 facts.1)

strip_prefix-append : (p s : Text) → strip_prefix p (p ++ s) ≡ some s
unfolding strip_prefix
strip_prefix-append [] s = refl
strip_prefix-append (c ∷ p) s = ground (arith, strip_prefix-append p s)

pub workspace_relative-prefix : (r : Text) → workspace_relative (text "/workspace/" ++ r) ≡ ok r
unfolding workspace_relative
workspace_relative-prefix r = ground (arith, strip_prefix-append (text "/workspace/") r)

pub workspace_relative_self : (r : Text) → is_absolute r ≡ false → workspace_relative r ≡ ok r
unfolding workspace_relative is_absolute strip_prefix text
workspace_relative_self [] h = refl
workspace_relative_self (c ∷ r) h = ground arith

-- `/workspace/` in front of a relative path changes nothing: both spellings are accepted alike, with
-- the same result, or refused with the same error.
validate_feedback_file-prefix :
    (r : Text)
    → is_absolute r ≡ false
    → validate_feedback_file (text "/workspace/" ++ r) ≡ validate_feedback_file r
unfolding validate_feedback_file
validate_feedback_file-prefix r h = rw (workspace_relative-prefix r, workspace_relative_self r h)
