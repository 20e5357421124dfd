-- ===== src/Executor/Factory.antt =====
-- src/executor/mod.rs: the executors of the runner. `docker` is the result of making the Docker
-- executor, and `display` prints a set of names, joined by commas.
use ai_kodu_runner.Base.{Text, text, Bool, true, false, List, [], ◌∷◌, ◌++◌, map, Result, ok, ◌>>=◌}
use ai_kodu_runner.Executor.Defs.{
  DoctorCheck, DoctorReport, Executor, ExecutorFactory, register, get,
}

unfoldable pub factory : (docker : Result Executor) → Result ExecutorFactory
factory docker = do executor ← docker; register (text "docker") executor []

abbrev pub show_bool : Bool → Text
show_bool true = text "true"
show_bool false = text "false"

unfoldable pub check_line : DoctorCheck → Text
check_line check =
    check.name
    ++ (text ": " ++ (show_bool check.healthy ++ (text " (" ++ (check.message ++ text ")"))))

-- The lines of the report.
unfoldable pub report_lines : (display : List Text → Text) → DoctorReport → List Text
unfolding check_line
report_lines display report =
    (text "executor: " ++ report.executor)
    ∷ (text "healthy: " ++ show_bool report.healthy)
    ∷ (text "capabilities: " ++ display report.capabilities.capabilities)
    ∷ map check_line report.checks

unfoldable pub doctor :
    (display : List Text → Text) → (docker : Result Executor) → Result (List Text)
unfolding factory report_lines
doctor display docker = do
  executors ← factory docker
  executor ← get (text "docker") executors
  report ← executor.doctor
  ok (report_lines display report)
