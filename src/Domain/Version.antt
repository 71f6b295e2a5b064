-- ===== src/Domain/Version.antt =====
-- newz/version.py: the versions that rows and assessments carry.
use new_z.Prelude.{String}

abbrev pub code_version : String
code_version = "0.1.0"

abbrev pub current_policy_version : String
current_policy_version = "1.0.0"
