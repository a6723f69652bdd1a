-- ===== src/Fs/Kvfs/Back.antt =====
-- A write, a seek back and a read of a file of src/fs/kvfs.c.
use nsos.Prelude.{
  ℕ, ◌+◌, ◌-◌, ◌^◌, ◌<◌, ◌≡◌, inl, inr, refl, ap, ◌∙◌, true, false, arith, ltb, Bool-cases, ==_refl,
}
use nsos.Machine.{Ptr, Env, done, state_of}
use nsos.CString.{Memory}
use nsos.CString.Move.{within}
use nsos.Fs.State.{File, FileNode, Kernel, put_bytes}
use nsos.Fs.File.{llseek}
use nsos.Fs.Kvfs.{kvfs_read, kvfs_llseek, write_pos}
use nsos.Fs.Kvfs.Write.{
  node_of, inode_of, Apart, Sound, after, length, grows-Changed, stays-Changed,
}
use nsos.Fs.Kvfs.Contents.{total, kvfs_write-size, kvfs_write-written}
use nsos.Fs.Kvfs.Read.{read_from, read_count, Readable, kvfs_read_lem}

-- The entry of a file tells where its contents end.
abbrev pub EndsRight : Ptr → Kernel → Type 0
EndsRight fp s = (node_of fp s).end ≡ (node_of fp s).start + (inode_of fp s).size

llseek-file :
    (fp pos : ℕ) (w : Kernel)
    → (state_of (kvfs_llseek fp pos 0 w)).files fp ≡ record (w.files fp) { pos = pos }
unfolding kvfs_llseek llseek
llseek-file fp pos w = rw (==_refl fp) refl

llseek-Kept :
    (fp pos : ℕ) (w : Kernel)
    → let r = state_of (kvfs_llseek fp pos 0 w) in
      (node_of fp r ≡ node_of fp w) × ((r.files fp).pos ≡ pos) × (r.kmt.bytes ≡ w.kmt.bytes)
unfolding kvfs_llseek llseek
llseek-Kept fp pos w = (
  ap (λ (f : File). w.kvfs_files (w.inodes f.inode).ino) (llseek-file fp pos w),
  ap (λ (f : File). f.pos) (llseek-file fp pos w),
  refl,
)

module _ (env : Env) (fp buf count : ℕ) (s : Kernel) (ok : Sound env fp buf count s)
    (right : EndsRight fp s) where
  open ok use {short, small, low, new_low}

  abbrev wrote : Kernel
  wrote = after env fp buf count s

  wrote-EndsRight : EndsRight fp wrote
  wrote-EndsRight = elim (Bool-cases (ltb (inode_of fp s).size (length env fp buf count s))) [
    | inl longer ↦
        let c = grows-Changed env fp buf count s ok.writable longer in
        let first = ap (λ (n : FileNode). n.start) c.1 in
        let last = ap (λ (n : FileNode). n.end) c.1 in
        omega (arith, c.2, first, last, total env fp buf count s ok)
    | inr fits ↦
        let c = stays-Changed env fp buf count s ok.writable fits in
        let first = ap (λ (n : FileNode). n.start) c.1 in
        let last = ap (λ (n : FileNode). n.end) c.1 in omega (arith, c.2, first, last, right)
  ]

  -- The position goes back to where the write began.
  abbrev pub rewound : Kernel
  rewound = state_of (kvfs_llseek fp (write_pos fp s) 0 wrote)

  written_at :
      (k : ℕ)
      → k < count
      → wrote.kmt.bytes ((node_of fp wrote).start + (write_pos fp s + k)) ≡ s.kmt.bytes (buf + k)
  written_at k lt =
      let inside : within (write_pos fp s) count (write_pos fp s + k) ≡ true = ground arith in
      let off : write_pos fp s + k - write_pos fp s ≡ k = omega arith in
      (kvfs_write-written env fp buf count s ok (write_pos fp s + k) (omega arith)).0
      ∙ rw (inside, off) refl

  rewound-Readable :
      (out : ℕ)
      → (node_of fp wrote).end < 2 ^ 31
      → Apart (node_of fp wrote).start (inode_of fp wrote).size out count
      → Readable fp out count rewound
  rewound-Readable out end_low apart =
      let kept = llseek-Kept fp (write_pos fp s) wrote in
      let first = ap (λ (n : FileNode). n.start) kept.0 in
      let last = ap (λ (n : FileNode). n.end) kept.0 in
      let pos = kept.1 in
      let sizes = kvfs_write-size env fp buf count s ok in
      let ends = wrote-EndsRight in
      record {
        low = omega (arith, last);
        near = omega (arith, first, last, pos, sizes.0, ends);
        apart = omega (arith, first, last, pos, sizes.0, ends);
      }

  rewound-count :
      (read_count fp count rewound ≡ count)
      × (read_from fp rewound ≡ (node_of fp wrote).start + write_pos fp s)
  rewound-count =
      let kept = llseek-Kept fp (write_pos fp s) wrote in
      let first = ap (λ (n : FileNode). n.start) kept.0 in
      let last = ap (λ (n : FileNode). n.end) kept.0 in
      let pos = kept.1 in
      let sizes = kvfs_write-size env fp buf count s ok in
      let ends = wrote-EndsRight in
      (omega (arith, first, last, pos, sizes.0, ends), omega (arith, first, pos))

  -- After a write, a seek back to where it began and a read of as many bytes into a buffer apart
  -- from the file, the read answers that count and the buffer holds the bytes that were written. The
  -- write is `Sound`, the entry of the file tells where its contents end, and after the write they
  -- end below 2 ^ 31.
  pub kvfs_read-kvfs_write :
      (out : ℕ)
      → (node_of fp wrote).end < 2 ^ 31
      → Apart (node_of fp wrote).start (inode_of fp wrote).size out count
      → (m : Memory) × (kvfs_read fp out count rewound ≡ done count (put_bytes m rewound))
        × ((k : ℕ) → k < count → m (out + k) ≡ s.kmt.bytes (buf + k))
  kvfs_read-kvfs_write out end_low apart =
      let (m, e, copied) =
        kvfs_read_lem fp out count rewound (rewound-Readable out end_low apart) in
      let counts = rewound-count in
      let full : ltb count count ≡ false = ground arith in
      (
        m,
        rw (counts.0, full) at e,
        λ k lt.
            let inside : within out count (out + k) ≡ true = ground arith in
            let off : out + k - out ≡ k = omega arith in
            let there : (node_of fp wrote).start + write_pos fp s + k
                ≡ (node_of fp wrote).start + (write_pos fp s + k) =
              omega arith in
            rw (counts.0, inside, counts.1, off, there, (llseek-Kept fp (write_pos fp s) wrote).2)
              at (copied (out + k))
            ∙ written_at k lt,
      )
