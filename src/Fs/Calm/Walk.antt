-- ===== src/Fs/Calm/Walk.antt =====
-- The path walk of src/fs/path.c uses no semaphore and changes no thread.
use nsos.Prelude.{ℕ, zero, suc, ◌≡◌, refl, ◌∙◌, arith, Bool, List}
use nsos.Machine.{Ptr, Env, Outcome, done, stop}
use nsos.Fs.State.{Kernel, NameiData}
use nsos.Fs.Dentry.{d_drop, d_drop_walk, unlink}
use nsos.Fs.Path.{
  find_mount, find_child, enter, ask_driver, do_lookup, walk, path_lookup, make_entry, make_walk,
  make_path,
}
use nsos.Fs.Calm.{
  quiet, IsCalm, Undisturbed, ended, stopped, if-Undisturbed, then_Undisturbed, calm_rules,
  calm_runs,
}
use nsos.Fs.Calm.Drivers.{driver_rules}

find_mount-IsCalm : (fuel mntit d : ℕ) → IsCalm (find_mount fuel mntit d)
unfolding find_mount
find_mount-IsCalm zero mntit d = search calm_runs
find_mount-IsCalm (suc fuel) mntit d = record {
  at = λ s. let more = (find_mount-IsCalm fuel (s.mounts mntit).next d).at s in search calm_runs;
}

find_child-IsCalm : (fuel denit : ℕ) (name : List ℕ) → IsCalm (find_child fuel denit name)
unfolding find_child
find_child-IsCalm zero denit name = search calm_runs
find_child-IsCalm (suc fuel) denit name = record {
  at = λ s.
      let more = (find_child-IsCalm fuel (s.dentries denit).child name).at s in search calm_runs;
}

enter-IsCalm : (fuel : ℕ) (denit : Ptr) (nd : NameiData) → IsCalm (enter fuel denit nd)
unfolding enter
enter-IsCalm fuel denit nd = record {
  at = λ s.
      let found = (find_mount-IsCalm fuel s.mnt_head denit).at s in
      search (calm_runs, calm_rules, then_Undisturbed) depth 10;
}

d_drop_walk-IsCalm : (fuel denit dp : ℕ) → IsCalm (d_drop_walk fuel denit dp)
unfolding d_drop_walk
d_drop_walk-IsCalm zero denit dp = search calm_runs
d_drop_walk-IsCalm (suc fuel) denit dp = record {
  at = λ s.
      let more = (d_drop_walk-IsCalm fuel (s.dentries denit).child dp).at s in search calm_runs;
}

unlink-quiet : (denit dp : Ptr) (s : Kernel) → quiet (unlink denit dp s) ≡ quiet s
unlink-quiet denit dp s = ground arith

unlinked :
    (dp : Ptr) (s : Kernel) (o : Outcome Kernel Ptr)
    → Undisturbed s o
    → Undisturbed {A = Unit {0}} s
        (elim o [ done denit s' ↦ done tt (unlink denit dp s') | stop why s' ↦ stop why s' ])
unlinked dp s (done denit s') (ended h) = ended (unlink-quiet denit dp s' ∙ h)
unlinked dp s (stop why s') (stopped n) = stopped n

d_drop-IsCalm : (fuel : ℕ) (dp : Ptr) → IsCalm (d_drop fuel dp)
unfolding d_drop
d_drop-IsCalm fuel dp = record {
  at = λ s.
      let walked = d_drop_walk-IsCalm fuel (s.dentries (s.dentries dp).parent).subdirs dp in
      if-Undisturbed s _ _ _ (ended refl) (unlinked dp s _ (walked.at s));
}

ask_driver-IsCalm :
    (env : Env) (fuel : ℕ) (name : List ℕ) (nd : NameiData) → IsCalm (ask_driver env fuel name nd)
unfolding ask_driver
ask_driver-IsCalm env fuel name nd = search driver_rules depth 40 fits 4000

do_lookup-IsCalm :
    (env : Env) (fuel : ℕ) (name : List ℕ) (nd : NameiData) → IsCalm (do_lookup env fuel name nd)
unfolding do_lookup
do_lookup-IsCalm env fuel name nd =
    search (driver_rules, find_child-IsCalm, enter-IsCalm, d_drop-IsCalm, ask_driver-IsCalm) depth
      40 fits 4000

ruleset walk_rules = (driver_rules, do_lookup-IsCalm)

walk-IsCalm :
    (env : Env) (fuel rounds flags : ℕ) (name : List ℕ) (nd : NameiData)
    → IsCalm (walk env fuel rounds flags name nd)
unfolding walk
walk-IsCalm env fuel zero flags name nd = search calm_runs
walk-IsCalm env fuel (suc rounds) flags name nd =
    let next = walk-IsCalm env fuel rounds in search (walk_rules, next) depth 40 fits 4000

pub path_lookup-IsCalm :
    (env : Env) (fuel : ℕ) (name : List ℕ) (flags : ℕ) → IsCalm (path_lookup env fuel name flags)
unfolding path_lookup
path_lookup-IsCalm env fuel name flags = search (walk_rules, walk-IsCalm) depth 20

make_entry-IsCalm :
    (env : Env) (fuel : ℕ) (name : List ℕ) (dir : Bool) (mode : ℕ) (nd : NameiData)
    → IsCalm (make_entry env fuel name dir mode nd)
unfolding make_entry
make_entry-IsCalm env fuel name dir mode nd = search walk_rules depth 40 fits 4000

make_walk-IsCalm :
    (env : Env) (fuel rounds flags mode : ℕ) (name : List ℕ) (nd : NameiData)
    → IsCalm (make_walk env fuel rounds flags mode name nd)
unfolding make_walk
make_walk-IsCalm env fuel zero flags mode name nd = search calm_runs
make_walk-IsCalm env fuel (suc rounds) flags mode name nd =
    let next = make_walk-IsCalm env fuel rounds in
    search (walk_rules, make_entry-IsCalm, next) depth 40 fits 4000

pub make_path-IsCalm :
    (env : Env) (fuel : ℕ) (name : List ℕ) (flags mode : ℕ)
    → IsCalm (make_path env fuel name flags mode)
unfolding make_path
make_path-IsCalm env fuel name flags mode = search (walk_rules, make_walk-IsCalm) depth 20
