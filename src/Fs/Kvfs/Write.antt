-- ===== src/Fs/Kvfs/Write.antt =====
-- What `kvfs_write` of src/fs/kvfs.c leaves of a file.
use nsos.Prelude.{
  ℕ, ◌+◌, ◌-◌, ◌^◌, ◌≤◌, ◌<◌, ◌≡◌, ◌⊎◌, inl, inr, refl, true, false, ltb, ◌==◌, if◌then◌else◌,
  Bool-cases, ==_refl,
}
use nsos.Machine.{Ptr, null, Env, state_of}
use nsos.CString.{Memory, memset, memcpy, add32}
use nsos.CString.Move.{within}
use nsos.Acl.{has}
use nsos.Fs.State.{Inode, FileNode, Kernel, pmm_alloc, pmm_free}
use nsos.Fs.Kvfs.{o_wronly, write_pos, kvfs_write}

-- The inode of an open file and its entry in the table of contents.
abbrev pub inode_of : Ptr → Kernel → Inode
inode_of fp s = s.inodes (s.files fp).inode

abbrev pub node_of : Ptr → Kernel → FileNode
node_of fp s = s.kvfs_files (inode_of fp s).ino

-- A file's contents as its driver keeps them: the `i`-th byte.
abbrev pub byte_at : Ptr → Kernel → ℕ → ℕ
byte_at fp s i = s.kmt.bytes ((node_of fp s).start + i)

-- What a write changes: the memory, the entry, the size and the position.
abbrev pub Changed : Ptr → Kernel → Kernel → Memory → (first last long here : ℕ) → Type 0
Changed fp s s' m first last long here =
    (s'.kmt.bytes ≡ m)
    × (node_of fp s' ≡ record (node_of fp s) { start = first; end = last })
    × ((inode_of fp s').size ≡ long)
    × ((s'.files fp).pos ≡ here)

module _ (env : Env) (fp buf count : ℕ) (s : Kernel) where
  abbrev pub after : Kernel
  after = state_of (kvfs_write env fp buf count s)

  -- Where the write ends.
  abbrev pub length : ℕ
  length = add32 (write_pos fp s) count

  -- The place that the allocator gives for the longer file.
  abbrev pub new_start : Ptr
  new_start = env.alloc s.kmt.heap length

  -- The memory after the first `memcpy`, if there is one.
  abbrev pub moved : Memory
  moved =
      let m = memset new_start 0 length s.kmt.bytes in
      let old = node_of fp s in
      if old.start == null then m else memcpy new_start old.start (inode_of fp s).size m

  abbrev pub overwritten : Ptr → Memory → Memory
  overwritten start m = memcpy (add32 start (write_pos fp s)) buf count m

  module _ (writable : has (s.files fp).mode o_wronly ≡ true) where
    pub grows-Changed :
        ltb (inode_of fp s).size length ≡ true
        → Changed fp s after
            (overwritten new_start moved)
            new_start
            (add32 new_start length)
            length
            length
    unfolding kvfs_write pmm_alloc pmm_free
    grows-Changed longer = elim (Bool-cases ((node_of fp s).start == null)) [
      | inl fresh ↦
          rw
            (
              writable,
              longer,
              fresh,
              ==_refl fp,
              ==_refl (s.files fp).inode,
              ==_refl (inode_of fp s).ino,
              longer,
            )
            (refl, refl, refl, refl)
      | inr old ↦
          rw
            (
              writable,
              longer,
              old,
              ==_refl fp,
              ==_refl (s.files fp).inode,
              ==_refl (inode_of fp s).ino,
              longer,
            )
            (refl, refl, refl, refl)
    ]

    pub stays-Changed :
        ltb (inode_of fp s).size length ≡ false
        → Changed fp s after
            (overwritten (node_of fp s).start s.kmt.bytes)
            (node_of fp s).start
            (node_of fp s).end
            (inode_of fp s).size
            length
    unfolding kvfs_write
    stays-Changed fits =
        rw
          (
            writable,
            fits,
            ==_refl fp,
            ==_refl (s.files fp).inode,
            ==_refl (inode_of fp s).ino,
            fits,
          )
          (refl, refl, refl, refl)

-- What the `i`-th byte of a file is after `count` bytes `new` were written at `pos` of a file of
-- `size` bytes `old`.
abbrev pub written : (old : ℕ → ℕ) (size pos count : ℕ) (new : ℕ → ℕ) → ℕ → ℕ
written old size pos count new i =
    if within pos count i then new (i - pos) else if ltb i size then old i else 0

-- Two stretches of memory have no byte in common.
abbrev pub Apart : (p n q k : ℕ) → Type 0
Apart p n q k = (p + n ≤ q) ⊎ (q + k ≤ p)

-- A write that stays in range: the caller's buffer is apart from the file's contents, and what the
-- allocator gives for a longer file is apart from both.
pub record Sound (env : Env) (fp buf count : ℕ) (s : Kernel) : Type 0 where
  pub writable : has (s.files fp).mode o_wronly ≡ true
  pub short : write_pos fp s + count < 2 ^ 31
  pub small : (inode_of fp s).size < 2 ^ 31
  pub empty : (node_of fp s).start ≡ null → (inode_of fp s).size ≡ 0
  pub low : (node_of fp s).start + 2 ^ 31 < 2 ^ 32
  pub buffer : Apart (node_of fp s).start (inode_of fp s).size buf count
  pub new_low : new_start env fp buf count s + 2 ^ 31 < 2 ^ 32
  pub new_buffer : Apart (new_start env fp buf count s) (write_pos fp s + count) buf count
  pub new_old :
      Apart
        (new_start env fp buf count s)
        (write_pos fp s + count)
        (node_of fp s).start
        (inode_of fp s).size
