-- ===== src/Docker/Played.antt =====
-- What `exec_command` gives back of a command's output.
use ai_kodu_runner.Base.{List}
