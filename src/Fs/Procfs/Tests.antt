-- ===== src/Fs/Procfs/Tests.antt =====
-- Tests of the process file system, src/fs/procfs.c.
use nsos.Prelude.{ℕ, ◌%◌, ◌^◌, ◌≡◌, ◌↔◌, some, List, [], ◌∷◌}
use nsos.Fs.Procfs.{parse_pid}
use nsos.Fs.Procfs.Pid.{IsNumeral, value_from, parse_pid_iff}

-- "102"
abbrev name : List ℕ
name = 49 ∷ 48 ∷ 50 ∷ []

parse_pid_iff_example :
    (parse_pid name ≡ some 102) ↔ (IsNumeral name × (value_from 0 name % 2 ^ 32 ≡ 102))
parse_pid_iff_example = parse_pid_iff name 102
