-- ===== src/Docker/Places.antt =====
-- Tests of `safe_feedback_path`, over files that are a function from paths, and an instance of its
-- theorem.
use ai_kodu_runner.Base.{
  text, Bool, true, false, ◌&&◌, [], ◌∷◌, ◌++◌, Result, ok, err, bail, ◌≡◌, refl, ap, arith,
  if◌then◌else◌, Bool-cases, inl, inr,
}
use ai_kodu_runner.Protocol.{Component, normal, root_dir, validate_feedback_file}
use ai_kodu_runner.Protocol.Sample.{texts}
use ai_kodu_runner.Policy.{component_eq, components_start}
use ai_kodu_runner.Policy.Admission.{component_eq_iff}
use ai_kodu_runner.Docker.FeedbackPath.{
  FilePath, FileType, directory, symlink, Metadata, found, not_found, failed, FileSystem, parent,
  is_symlink, walk, walk_above, check_target, safe_feedback_path,
}
use ai_kodu_runner.Docker.Walked.{Keeps}
use ai_kodu_runner.Docker.Contained.{IsContained, safe_feedback_path_lem}

abbrev path_eq : FilePath → FilePath → Bool
path_eq [] [] = true
path_eq (c ∷ cs) (d ∷ ds) = component_eq c d && path_eq cs ds
path_eq _ _ = false

path_eq_refl : (p : FilePath) → path_eq p p ≡ true
path_eq_refl [] = refl
path_eq_refl (c ∷ cs) = ground (arith, (component_eq_iff c c).1 refl, path_eq_refl cs)

path_eq_sound : (p q : FilePath) → path_eq p q ≡ true → p ≡ q
path_eq_sound [] [] h = refl
path_eq_sound (c ∷ cs) (d ∷ ds) h = ground (arith, (component_eq_iff c d).0, path_eq_sound cs ds)
path_eq_sound [] (d ∷ ds) h = cc
path_eq_sound (c ∷ cs) [] h = cc

-- A directory is made where nothing is.
abbrev add_dir :
    (s : FilePath → Metadata) → FilePath → Metadata → Result (Unit {0}) × (FilePath → Metadata)
add_dir s p not_found = (ok tt, λ q. if path_eq p q then found directory else s q)
add_dir s p _ = (err (bail (text "File exists")), s)

made :
    (s : FilePath → Metadata) (p : FilePath) (m : Metadata)
    → (add_dir s p m).0 ≡ ok tt
    → (add_dir s p m).1 p ≡ found directory
made s p not_found h = ground (arith, path_eq_refl p)
made s p (found t) h = cc h
made s p (failed e) h = cc h

still_there :
    (s : FilePath → Metadata) (p q : FilePath) (m : Metadata) (t : FileType)
    → s p ≡ m
    → s q ≡ found t
    → (add_dir s p m).1 q ≡ found t
still_there s p q not_found t absent there = elim (Bool-cases (path_eq p q)) [
  | inl e ↦ cc (ap s (path_eq_sound p q e))
  | inr n ↦ rw n there
]
still_there s p q (found u) t absent there = there
still_there s p q (failed e) t absent there = there

abbrev files : FileSystem
files = record {
  Files = FilePath → Metadata;
  canonicalize = λ s p. ok p;
  symlink_metadata = λ s p. s p;
  create_dir = λ s p. add_dir s p (s p);
  created = λ s p h. made s p (s p) h;
  kept = λ s p q t there. still_there s p q (s p) t refl there;
}

abbrev work : Component
work = normal (text "w")

abbrev root : FilePath
root = root_dir ∷ work ∷ []

-- `/w` is a directory, and `/w/link` a link.
abbrev start : FilePath → Metadata
start p =
    if path_eq p root
    then found directory
    else if path_eq p (root ++ normal (text "link") ∷ [])
    then found symlink
    else not_found

abbrev target : FilePath
target = root ++ normal (text "a") ∷ normal (text "b.md") ∷ []

place_tests :
    ((safe_feedback_path files root (text "a/b.md") start).0 ≡ ok target)
    × ((safe_feedback_path files root (text "a/b.md") start).1 (root ++ normal (text "a") ∷ [])
        ≡ found directory)
    × ((safe_feedback_path files root (text "link/b.md") start).0
        ≡ err (bail (text "feedback_file parent must not be a symlink")))
    × ((safe_feedback_path files root (text "link") start).0
        ≡ err (bail (text "feedback_file must not be a symlink")))
unfolding texts component_eq components_start parent is_symlink walk walk_above check_target
    safe_feedback_path validate_feedback_file
place_tests = (refl, refl, refl, refl)

abbrev after : FilePath → Metadata
after = (safe_feedback_path files root (text "a/b.md") start).1

safe_feedback_path_lem_example :
    IsContained files root (text "a/b.md") target start after × Keeps files start after
safe_feedback_path_lem_example =
    safe_feedback_path_lem files root (text "a/b.md") target start after
      (λ i. (place_tests.0 i, after))
