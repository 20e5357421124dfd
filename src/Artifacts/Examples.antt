-- ===== src/Artifacts/Examples.antt =====
-- Tests of the export, and instances of its theorems.
use ai_kodu_runner.Base.{
  ◌≤◌, Text, text, bytes, decimal, Bool, true, false, some, none, List, [], ◌∷◌, ◌++◌, map, All,
  length, ◌≡◌, ◌≢◌, ◌↔◌, refl, ok, arith, if◌then◌else◌,
}
use ai_kodu_runner.Protocol.Sample.{texts}
use ai_kodu_runner.Policy.{join}
use ai_kodu_runner.Artifacts.Defs.{
  matches, glob_match, is_derived_component, is_derived_path, trim_dot_slash, ancestors,
  names_pattern, should_visit, Entry, Step, met, failed, export_loop, export, safe_char,
  safe_component, destination,
}
use ai_kodu_runner.Artifacts.Glob.{Denotes, matches_iff}
use ai_kodu_runner.Artifacts.Export.{selected, total, IsRead, Stops, export_selects}
use ai_kodu_runner.Artifacts.Names.{IsSafeChar, safe_component_lem}

artifacts : Unit {0}
unfolding texts matches glob_match is_derived_component is_derived_path trim_dot_slash ancestors
    names_pattern should_visit export_loop export safe_char safe_component destination join decimal
artifacts = tt

abbrev file : Text → Step
file rel = met (record { rel = rel; is_file = true; size = 7 })

-- A tree with a source, a build result and a package.
abbrev tree : List Step
tree =
    met (record { rel = []; is_file = false; size = 0 })
    ∷ met (record { rel = text "build"; is_file = false; size = 0 })
    ∷ file (text "build/app.js")
    ∷ file (text "lib/main.dart")
    ∷ file (text "lib/util.dart")
    ∷ []

abbrev keep : (Text → Bool) → List Step → List Step
keep visit [] = []
keep visit (failed e ∷ rest) = failed e ∷ keep visit rest
keep visit (met e ∷ rest) = if visit e.rel then met e ∷ keep visit rest else keep visit rest

abbrev walk_tree : (Text → Bool) → List Step
walk_tree visit = keep visit tree

abbrev everything : List Text
everything = text "**" ∷ []

export_tests :
    (export walk_tree everything 100 10
      ≡ ok (some (text "lib/main.dart" ∷ text "lib/util.dart" ∷ [])))
    × (export walk_tree (text "./build/*.js" ∷ []) 100 10 ≡ ok (some []))
    × (export walk_tree (text "build/*.js" ∷ []) 100 10 ≡ ok (some (text "build/app.js" ∷ [])))
    × (export walk_tree everything 13 10 ≡ ok (some (text "lib/main.dart" ∷ [])))
    × (export walk_tree [] 100 10 ≡ ok none)
    × (destination (text "/srv") (text "job/1") 2 ≡ text "/srv/artifacts/job_1/2")
    × (destination (text "/srv") (text "..") 2 ≡ text "/srv/artifacts/../2")
unfolding artifacts
export_tests = (refl, refl, refl, refl, refl, refl, refl)

matches_iff_example :
    (matches (bytes (text "a*c")) (bytes (text "abbc")) ≡ true)
    ↔ Denotes (bytes (text "a*c")) (bytes (text "abbc"))
matches_iff_example = matches_iff (bytes (text "a*c")) (bytes (text "abbc"))

read : IsRead (walk_tree (λ rel. should_visit rel everything))
unfolding artifacts
read = (omega arith, (omega arith, (omega arith, tt)))

export_selects_example :
    (kept dropped : List Entry) × (selected everything
        (walk_tree (λ rel. should_visit rel everything))
      ≡ kept ++ dropped)
    × (export walk_tree everything 13 10 ≡ ok (some (map (λ (e : Entry). e.rel) kept)))
    × (length kept ≤ 10)
    × (total kept ≤ 13)
    × Stops 13 10 kept dropped
export_selects_example = export_selects walk_tree everything 13 10 (λ e. cc) (omega arith) read

safe_component_lem_example :
    (safe_component (text "job/1") ≢ [])
    × All IsSafeChar (safe_component (text "job/1"))
    × (text "job/1" ≢ []
        → All IsSafeChar (text "job/1")
        → safe_component (text "job/1") ≡ text "job/1")
safe_component_lem_example = safe_component_lem (text "job/1")
