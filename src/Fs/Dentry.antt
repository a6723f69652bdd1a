-- ===== src/Fs/Dentry.antt =====
-- src/fs/dentry.c: taking a dentry out of its parent's chain.
pub mod Drop
mod Tests
use nsos.Prelude.{ℕ, zero, suc, ◌||◌, ◌==◌, if◌then◌else◌}
use nsos.Machine.{Ptr, null, Run, done, stop, hang}
use nsos.Fs.State.{Kernel, put_dentry}

-- The `while` of `d_drop`, which goes on until the next entry is NULL or `dp`.
unfoldable pub d_drop_walk : ℕ → (denit dp : Ptr) → Run Kernel Ptr
d_drop_walk zero denit dp s = stop hang s
d_drop_walk (suc fuel) denit dp s =
    let next = (s.dentries denit).child in
    let rest = d_drop_walk fuel next dp s in
    if next == null || next == dp then done denit s else rest

-- What follows the loop: nothing if the chain has ended, else `dp` is unlinked.
abbrev pub unlink : (denit dp : Ptr) → Kernel → Kernel
unlink denit dp s =
    let d = s.dentries denit in
    if d.child == null then s else put_dentry denit (record d { child = (s.dentries dp).child }) s

unfoldable pub d_drop : ℕ → Ptr → Run Kernel (Unit {0})
unfolding d_drop_walk
d_drop fuel dp s =
    let up = (s.dentries dp).parent in
    let d = s.dentries up in
    if dp == d.subdirs
    then done tt (put_dentry up (record d { subdirs = (s.dentries dp).child }) s)
    else elim (d_drop_walk fuel d.subdirs dp s) [
      | done denit s' ↦ done tt (unlink denit dp s')
      | stop why s' ↦ stop why s'
    ]
