-- ===== src/Fs/Kvfs/Create.antt =====
-- The entries of `kvfs_files` that `kvfs_create` of src/fs/kvfs.c gives out.
use nsos.Prelude.{
  ℕ, ◌<◌, ◌≡◌, ◌≢◌, ◌⊎◌, inl, inr, refl, sym, ◌∙◌, Bool, true, false, not, leb, arith, ◌==◌, ==_ne,
  ==_refl, Bool-cases,
}
use nsos.Machine.{Ptr, Outcome, done}
use nsos.Kmt.State.{update}
use nsos.Kmt.Life.{scan-Found}
use nsos.Fs.State.{Kernel, Inode, FileNode}
use nsos.Fs.Kvfs.{kvfs_max_file, free_node, kvfs_create}

-- The files with the inodes of `live` have entries in use, and each its own.
pub record Owned (live : Ptr → Type 0) (s : Kernel) : Type 0 where
  pub bounded : (p : Ptr) → live p → (s.inodes p).ino < kvfs_max_file
  pub used : (p : Ptr) → live p → (s.kvfs_files (s.inodes p).ino).inuse ≡ true
  pub apart : (p q : Ptr) → live p → live q → (s.inodes p).ino ≡ (s.inodes q).ino → p ≡ q

-- One more file.
abbrev pub WithFile : Ptr → (Ptr → Type 0) → Ptr → Type 0
WithFile ip live p = live p ⊎ (p ≡ ip)

-- How a creation comes out.
pub data Created (live : Ptr → Type 0) (ip : Ptr) (s : Kernel) : Outcome Kernel ℕ → Type 0 where
  full :
      ((i : ℕ) → i < kvfs_max_file → (s.kvfs_files i).inuse ≡ true) → Created live ip s (done 1 s)
  made : {s' : Kernel} → Owned (WithFile ip live) s' → Created live ip s (done 0 s')

module _ (live : Ptr → Type 0) (ip : Ptr) (s s' : Kernel) (i : ℕ) (inode : Inode) (node : FileNode)
    (inodes : s'.inodes ≡ update s.inodes ip inode)
    (files : s'.kvfs_files ≡ update s.kvfs_files i node) (ino : inode.ino ≡ i)
    (taken : node.inuse ≡ true) (low : i < kvfs_max_file) (free : (s.kvfs_files i).inuse ≡ false)
    (new : (p : Ptr) → live p → ip ≢ p) (o : Owned live s) where
  old_ino : (p : Ptr) → live p → (s'.inodes p).ino ≡ (s.inodes p).ino
  old_ino p l = let other : (ip == p) ≡ false = ==_ne ip p (new p l) in rw (inodes, other) refl

  new_ino : (p : Ptr) → p ≡ ip → (s'.inodes p).ino ≡ i
  new_ino p e = rw (e, inodes, ==_refl ip) ino

  other_entry : (p : Ptr) → live p → (s.inodes p).ino ≢ i
  other_entry p l e = let u : (s.kvfs_files i).inuse ≡ true = rw (sym e) (o.used p l) in cc

  now_used : (p : Ptr) → WithFile ip live p → (s'.kvfs_files (s'.inodes p).ino).inuse ≡ true
  now_used p (inl l) =
      let other : (i == (s.inodes p).ino) ≡ false = ==_ne _ _ (λ e. other_entry p l (sym e)) in
      rw (old_ino p l, files, other) (o.used p l)
  now_used p (inr e) = rw (new_ino p e, files, ==_refl i) taken

  now_apart :
      (p q : Ptr)
      → WithFile ip live p
      → WithFile ip live q
      → (s'.inodes p).ino ≡ (s'.inodes q).ino
      → p ≡ q
  now_apart p q (inl l) (inl l') e = o.apart p q l l' (sym (old_ino p l) ∙ e ∙ old_ino q l')
  now_apart p q (inl l) (inr n) e = absurd (other_entry p l (sym (old_ino p l) ∙ e ∙ new_ino q n))
  now_apart p q (inr n) (inl l) e =
      absurd (other_entry q l (sym (old_ino q l) ∙ sym e ∙ new_ino p n))
  now_apart p q (inr n) (inr n') e = n ∙ sym n'

  now_bounded : (p : Ptr) → WithFile ip live p → (s'.inodes p).ino < kvfs_max_file
  now_bounded p (inl l) = rw (old_ino p l) (o.bounded p l)
  now_bounded p (inr e) = rw (new_ino p e) low

  now_Owned : Owned (WithFile ip live) s'
  now_Owned = record { bounded = now_bounded; used = now_used; apart = now_apart }

is_used : (b : Bool) → not b ≡ false → b ≡ true
is_used true e = refl
is_used false e = cc

is_free : (b : Bool) → not b ≡ true → b ≡ false
is_free true e = cc
is_free false e = refl

-- A creation in the file system in memory either answers 1, with every entry of its table in use, and
-- changes nothing, or answers 0, and then the new file and the files there were have entries in
-- use below 1024, and different files different ones. This held of the old files, and the inode of
-- the new file is not one of theirs.
pub kvfs_create-Created :
    (live : Ptr → Type 0) (ip dp : Ptr) (s : Kernel)
    → Owned live s
    → ((p : Ptr) → live p → ip ≢ p)
    → Created live ip s (kvfs_create ip dp s)
unfolding kvfs_create
kvfs_create-Created live ip dp s o new =
    let f = scan-Found (λ i. not (s.kvfs_files i).inuse) kvfs_max_file 0 in
    elim (Bool-cases (leb kvfs_max_file (free_node s))) [
      | inl none_free ↦
          rw none_free
            (full (λ i lt. is_used _ (f.first i (omega arith) (ground (arith, none_free)))))
      | inr some_free ↦
          let low : free_node s < kvfs_max_file = ground (arith, some_free) in
          let free : (s.kvfs_files (free_node s)).inuse ≡ false = is_free _ (f.hit low) in
          rw some_free
            (made (now_Owned live ip s _ (free_node s) _ _ refl refl refl refl low free new o))
    ]
