-- ===== src/Fs/Kvfs/Contents.antt =====
-- The contents of a file after `kvfs_write` of src/fs/kvfs.c.
use nsos.Prelude.{
  ℕ, ◌+◌, ◌-◌, ◌^◌, ◌≤◌, ◌<◌, ◌≡◌, ◌⊎◌, inl, inr, refl, ap, ◌∙◌, false, arith, ltb, lt→ltb, ◌==◌,
  if◌then◌else◌, Bool-cases, ==_iff, ltb→lt, max,
}
use nsos.Machine.{Ptr, null, Env}
use nsos.CString.{Memory, memset, add32}
use nsos.CString.Move.{CopiesDown, memcpy-inside, memcpy-outside, memset_lem, within}
use nsos.Fs.State.{FileNode, Kernel}
use nsos.Fs.Kvfs.{write_pos}
use nsos.Fs.Kvfs.Write.{
  inode_of, node_of, byte_at, after, length, new_start, moved, overwritten, grows-Changed,
  stays-Changed, written, Sound,
}

same_byte : {m m' : Memory} {p p' : Ptr} → m ≡ m' → p ≡ p' → (i : ℕ) → m (p + i) ≡ m' (p' + i)
same_byte e f i = rw (e, f) refl

module _ (env : Env) (fp buf count : ℕ) (s : Kernel) (ok : Sound env fp buf count s) where
  open ok use {short, small, empty, low, buffer, new_low, new_buffer, new_old}

  abbrev start : Ptr
  start = (node_of fp s).start

  abbrev old_size : ℕ
  old_size = (inode_of fp s).size

  abbrev fresh : Ptr
  fresh = new_start env fp buf count s

  pub total : length env fp buf count s ≡ write_pos fp s + count
  total = omega arith

  moved-outside :
      (q : ℕ)
      → (q < fresh) ⊎ (fresh + (write_pos fp s + count) ≤ q)
      → old_size ≤ write_pos fp s + count
      → moved env fp buf count s q ≡ s.kmt.bytes q
  moved-outside q out le =
      let cleared = memset_lem fresh 0 (length env fp buf count s) s.kmt.bytes q (omega arith) in
      let same : memset fresh 0 (length env fp buf count s) s.kmt.bytes q ≡ s.kmt.bytes q =
        ground (arith, cleared, total) in
      elim (Bool-cases (start == null)) [
        | inl none' ↦ rw none' same
        | inr some' ↦ rw some' (
            memcpy-outside fresh start old_size
              (memset fresh 0 (length env fp buf count s) s.kmt.bytes) q small (omega arith)
            ∙ same)
      ]

  moved-inside :
      (i : ℕ)
      → i < write_pos fp s + count
      → old_size ≤ write_pos fp s + count
      → moved env fp buf count s (fresh + i)
        ≡ (if ltb i old_size then s.kmt.bytes (start + i) else 0)
  moved-inside i lt le =
      let clear = memset fresh 0 (length env fp buf count s) s.kmt.bytes in
      let inside =
        memset_lem fresh 0 (length env fp buf count s) s.kmt.bytes (fresh + i) (omega arith) in
      let zeroed : clear (fresh + i) ≡ 0 = ground (arith, inside, total) in
      elim (Bool-cases (start == null)) [
        | inl none' ↦
            let e = empty ((==_iff start null).0 none') in
            let beyond : ltb i old_size ≡ false = ground arith in rw (none', beyond) zeroed
        | inr some' ↦ rw some' (elim (Bool-cases (ltb i old_size)) [
          | inl old ↦
              let kept =
                memset_lem fresh 0 (length env fp buf count s) s.kmt.bytes (start + i)
                  (omega arith) in
              let same : clear (start + i) ≡ s.kmt.bytes (start + i) =
                ground (arith, kept, total, new_old) in
              rw old (
                memcpy-inside fresh start old_size clear i small (ltb→lt i old_size old)
                  (omega arith)
                ∙ same)
          | inr beyond ↦
              let past : old_size ≤ i = ground arith in
              rw beyond
                (memcpy-outside fresh start old_size clear (fresh + i) small (omega arith) ∙ zeroed)
        ])
      ]

  overwritten_lem :
      (p : Ptr) (m : Memory) (i : ℕ)
      → p + 2 ^ 31 < 2 ^ 32
      → CopiesDown (p + write_pos fp s) buf count
      → overwritten env fp buf count s p m (p + i)
        ≡ (if within (write_pos fp s) count i then m (buf + (i - write_pos fp s)) else m (p + i))
  overwritten_lem p m i fits ok' =
      let at : add32 p (write_pos fp s) ≡ p + write_pos fp s = omega arith in
      elim (Bool-cases (within (write_pos fp s) count i)) [
        | inl new ↦
            let off : p + i ≡ p + write_pos fp s + (i - write_pos fp s) = ground arith in
            rw (new, at, off)
              (memcpy-inside (p + write_pos fp s) buf count m (i - write_pos fp s) (omega arith)
                (ground arith) ok')
        | inr old ↦
            rw (old, at)
              (memcpy-outside (p + write_pos fp s) buf count m (p + i) (omega arith) (ground arith))
      ]

  grown_byte :
      (i : ℕ)
      → i < write_pos fp s + count
      → old_size ≤ write_pos fp s + count
      → (if within (write_pos fp s) count i
          then moved env fp buf count s (buf + (i - write_pos fp s))
          else moved env fp buf count s (fresh + i))
        ≡ written (byte_at fp s) old_size (write_pos fp s) count (λ k. s.kmt.bytes (buf + k)) i
  grown_byte i at le = elim (Bool-cases (within (write_pos fp s) count i)) [
    | inl new ↦
        let inside : i - write_pos fp s < count = ground arith in
        rw new (moved-outside (buf + (i - write_pos fp s)) (omega arith) le)
    | inr old ↦ rw old (moved-inside i at le)
  ]

  kept_byte :
      (i : ℕ)
      → i < old_size
      → (if within (write_pos fp s) count i
          then s.kmt.bytes (buf + (i - write_pos fp s))
          else s.kmt.bytes (start + i))
        ≡ written (byte_at fp s) old_size (write_pos fp s) count (λ k. s.kmt.bytes (buf + k)) i
  kept_byte i at = rw (lt→ltb i old_size at) refl

  kvfs_write-byte :
      (i : ℕ)
      → i < max old_size (write_pos fp s + count)
      → byte_at fp (after env fp buf count s) i
        ≡ written (byte_at fp s) old_size (write_pos fp s) count (λ k. s.kmt.bytes (buf + k)) i
  kvfs_write-byte i lt = elim (Bool-cases (ltb old_size (length env fp buf count s))) [
    | inl longer ↦
        let c = grows-Changed env fp buf count s ok.writable longer in
        let more : old_size < write_pos fp s + count =
          omega (arith, ltb→lt old_size (length env fp buf count s) longer, total) in
        let at : i < write_pos fp s + count = omega arith in
        let place = ap (λ (n : FileNode). n.start) c.1 in
        same_byte c.0 place i
        ∙ (overwritten_lem fresh (moved env fp buf count s) i new_low (omega arith)
            ∙ grown_byte i at (omega arith))
    | inr fits ↦
        let c = stays-Changed env fp buf count s ok.writable fits in
        let less : write_pos fp s + count ≤ old_size = ground (arith, total) in
        let at : i < old_size = omega arith in
        let place = ap (λ (n : FileNode). n.start) c.1 in
        same_byte c.0 place i
        ∙ (overwritten_lem start s.kmt.bytes i low (omega arith) ∙ kept_byte i at)
  ]

  pub kvfs_write-size :
      ((inode_of fp (after env fp buf count s)).size ≡ max old_size (write_pos fp s + count))
      × (((after env fp buf count s).files fp).pos ≡ write_pos fp s + count)
  kvfs_write-size = elim (Bool-cases (ltb old_size (length env fp buf count s))) [
    | inl longer ↦
        let c = grows-Changed env fp buf count s ok.writable longer in
        let more = ltb→lt old_size (length env fp buf count s) longer in
        (omega (arith, c.2, total, more), omega (arith, c.3, total))
    | inr fits ↦
        let c = stays-Changed env fp buf count s ok.writable fits in
        let less : write_pos fp s + count ≤ old_size = ground (arith, total) in
        (omega (arith, c.2, total), omega (arith, c.3, total))
  ]

  -- After a write that is `Sound` every byte of the file is as written: the caller's bytes at the position of the
  -- write, zeros between the old end and that position, and the old bytes elsewhere. The file is
  -- as long as the write needs and not shorter than before, and the position is behind the write.
  -- A write is sound if the file is open for writing, the buffer, the old contents and the new place
  -- do not overlap, and all sizes are below 2 ^ 31.
  pub kvfs_write-written :
      (i : ℕ)
      → i < max old_size (write_pos fp s + count)
      → (byte_at fp (after env fp buf count s) i
          ≡ written (byte_at fp s) old_size (write_pos fp s) count (λ k. s.kmt.bytes (buf + k)) i)
        × ((inode_of fp (after env fp buf count s)).size ≡ max old_size (write_pos fp s + count))
        × (((after env fp buf count s).files fp).pos ≡ write_pos fp s + count)
  kvfs_write-written i lt = (kvfs_write-byte i lt, kvfs_write-size.0, kvfs_write-size.1)
