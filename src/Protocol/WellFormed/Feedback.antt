-- ===== src/Protocol/WellFormed/Feedback.antt =====
-- The feedback paths that the validator accepts.
use ai_kodu_runner.Base.{
  Text, text, text_eq_iff, strip_prefix, starts_with, split, Bool, true, false, Option, none, some,
  List, [], ◌∷◌, ◌++◌, any, ok, err, bail, if◌then◌else◌, Result, ◌≡◌, ◌↔◌, inl, inr, refl, ap, sym,
  ◌∙◌, arith, >>=-eq-ok,
}
use ai_kodu_runner.Protocol.Feedback.{
  part_components, front_components, is_absolute, components, is_special, workspace_relative,
  validate_feedback_file,
}
use ai_kodu_runner.Protocol.Paths.{
  NoParent, components-NoParent, workspace_relative-prefix, workspace_relative_self,
}
use ai_kodu_runner.Protocol.WellFormed.Parts.{IsPlaced, StartsPlain, IsFeedback}
use ai_kodu_runner.Protocol.WellFormed.Tests.{is_empty_iff}

strip_prefix-some : (p s r : Text) → strip_prefix p s ≡ some r → s ≡ p ++ r
unfolding strip_prefix
strip_prefix-some [] s r h = cc
strip_prefix-some (p ∷ ps) [] r h = cc
strip_prefix-some (p ∷ ps) (c ∷ s) r h = ground (arith, h, strip_prefix-some ps s r)

is_absolute_lem : (s : Text) → is_absolute s ≡ starts_with (text "/") s
unfolding is_absolute strip_prefix text
is_absolute_lem [] = refl
is_absolute_lem (c ∷ s) = refl

placed :
    (value r : Text) (o : Option Text) (outside : Bool)
    → strip_prefix (text "/workspace/") value ≡ o
    → starts_with (text "/") value ≡ outside
    → let m : Text = text "feedback_file must be inside /workspace" in
      ◌≡◌ {A = Result Text}
        (elim o [ some relative ↦ ok relative | none ↦ if outside then err (bail m) else ok value ])
        (ok r)
      → IsPlaced value r
placed value r (some relative) outside found _ h =
    inl (strip_prefix-some (text "/workspace/") value r (cc))
placed value r none true _ _ h = cc
placed value r none false _ plain h = inr (cc, plain)

workspace_relative_iff : (value r : Text) → (workspace_relative value ≡ ok r) ↔ IsPlaced value r
unfolding workspace_relative
workspace_relative_iff value r = (to, from)
  where
    to : workspace_relative value ≡ ok r → IsPlaced value r
    to h = placed value r _ _ refl refl h

    from : IsPlaced value r → workspace_relative value ≡ ok r
    from (inl h) = rw h (workspace_relative-prefix r)
    from (inr (same, plain)) =
        workspace_relative_self value (is_absolute_lem value ∙ plain) ∙ ap ok same

special_of_parts :
    (parts : List Text) → NoParent parts → any is_special (part_components parts) ≡ false
unfolding part_components is_special
special_of_parts [] h = refl
special_of_parts (p ∷ ps) h =
    ground (arith, h.0, text_eq_iff p (text ".."), special_of_parts ps h.1)

special_of_front :
    (parts : List Text)
    → StartsPlain parts
    → NoParent parts
    → any is_special (front_components parts) ≡ false
unfolding front_components
special_of_front [] s h = refl
special_of_front (p ∷ ps) s h =
    ground (arith, s, text_eq_iff p (text "."), special_of_parts (p ∷ ps) h)

front_StartsPlain :
    (parts : List Text) → any is_special (front_components parts) ≡ false → StartsPlain parts
unfolding front_components is_special
front_StartsPlain [] h = tt
front_StartsPlain (p ∷ ps) h = λ e. ground (arith, h, e, text_eq_iff p (text "."))

components_iff :
    (path : Text)
    → ((is_absolute path ≡ false) × (any is_special (components path) ≡ false)) ↔ (
        (starts_with (text "/") path ≡ false)
        × StartsPlain (split b'/' path)
        × NoParent (split b'/' path))
unfolding components
components_iff path = (
  λ (relative, plain). (
    sym (is_absolute_lem path) ∙ relative,
    front_StartsPlain (split b'/' path) (rw (relative) at plain),
    components-NoParent path relative plain,
  ),
  λ (relative, starts, below).
      let away = is_absolute_lem path ∙ relative in
      (away, rw away (special_of_front (split b'/' path) starts below)),
)

-- A feedback path is accepted with a place exactly when it is one, and names that place.
pub validate_feedback_file_iff :
    (value path : Text) → (validate_feedback_file value ≡ ok path) ↔ IsFeedback value path
unfolding validate_feedback_file
validate_feedback_file_iff value path = (
  λ h.
      let (relative, found, checked) = >>=-eq-ok (workspace_relative value) _ h in
      let same : relative ≡ path = ground (arith, checked) in
      let (no_root, starts, below) =
        (components_iff path).0 (ground (arith, checked), ground (arith, checked)) in
      record {
        placed = (workspace_relative_iff value path).0 (found ∙ ap ok same);
        nonempty = (is_empty_iff path).0 (ground (arith, checked));
        no_backslash = ground (arith, checked);
        no_colon = ground (arith, checked);
        no_dot = λ e. ground (arith, checked, text_eq_iff path (text "."), e);
        no_dot_first = ground (arith, checked);
        no_dot_within = ground (arith, checked);
        no_dot_last = ground (arith, checked);
        no_root = no_root;
        starts_plain = starts;
        no_parent = below;
      },
  λ f.
      let found = (workspace_relative_iff value path).1 f.placed in
      let (relative, plain) = (components_iff path).1 (f.no_root, f.starts_plain, f.no_parent) in
      let full = (is_empty_iff path).1 f.nonempty in
      ground (
        arith,
        found,
        relative,
        plain,
        full,
        text_eq_iff path (text "."),
        f.no_backslash,
        f.no_colon,
        f.no_dot,
        f.no_dot_first,
        f.no_dot_within,
        f.no_dot_last,
      ),
)
