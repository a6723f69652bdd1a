-- ===== src/Fs/Dentry/Tests.antt =====
-- Tests of src/fs/dentry.c.
use nsos.Prelude.{◌≡◌, inl, inr, refl, [], ◌∷◌, arith, ◌==◌, if◌then◌else◌}
use nsos.Machine.{Ptr, done}
use nsos.Fs.State.{Kernel}
use nsos.Fs.Dentry.{d_drop}
use nsos.Fs.Dentry.Drop.{Siblings, NotIn, remove, d_drop_lem}
use nsos.Example.{kernel}

-- The dentries 11, 12 and 13 are in the directory 10.
abbrev family : Kernel
family = record kernel {
  dentries = λ p. record (kernel.dentries p) {
    parent = 10;
    subdirs = if p == 10 then 11 else 0;
    child = if p == 11 then 12 else if p == 12 then 13 else 0;
  };
}

d_drop_lem_example :
    (s' : Kernel) × (d_drop 3 12 family ≡ done tt s')
    × Siblings s' (s'.dentries 10).subdirs (remove 12 (11 ∷ 12 ∷ 13 ∷ []))
    × ((q : Ptr) → NotIn q (10 ∷ 11 ∷ 12 ∷ 13 ∷ []) → s'.dentries q ≡ family.dentries q)
d_drop_lem_example =
    d_drop_lem 3 12 10 (11 ∷ 12 ∷ 13 ∷ []) family refl
      (refl, omega arith, (refl, omega arith, (refl, omega arith, refl)))
      (
        (omega arith, (omega arith, (omega arith, tt))),
        ((omega arith, (omega arith, tt)), ((omega arith, tt), (tt, tt))),
      )
      (inr (inl refl)) (omega arith)
