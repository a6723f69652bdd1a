-- ===== src/Fs/Reach/Tests.antt =====
-- Tests of the reads of src/fs/procfs.c.
use nsos.Prelude.{[], ◌∷◌, ◌≡◌, ◌⊎◌, none, some, arith}
use nsos.Machine.{stop, fault}
use nsos.Fs.State.{procfs}
use nsos.Fs.Procfs.{Report, proc_text}
use nsos.Fs.Driver.{read}
use nsos.Fs.Reach.{Bounded, read-Bounded}
use nsos.Example.{env, kernel}

-- Every text is "xy", and no block is listed.
abbrev report : Report
report = record { sprintf = λ format args. 120 ∷ 121 ∷ []; blocks = λ calls. []; filebuf = 100000 }

-- The example's file, as one of the process file system, into a buffer of 8 bytes at 600.
read-Bounded_example :
    let o = read env report (some procfs) 30 600 8 kernel in
    ((some procfs ≡ none) × (o ≡ stop fault kernel)) ⊎ Bounded 100000 600 8 kernel o
unfolding proc_text
read-Bounded_example = read-Bounded env report (some procfs) 30 600 8 kernel (λ _. omega arith)
