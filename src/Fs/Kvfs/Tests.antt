-- ===== src/Fs/Kvfs/Tests.antt =====
-- Tests of the file system in memory, src/fs/kvfs.c.
use nsos.Prelude.{
  ℕ, ◌+◌, ◌-◌, ◌<◌, ◌≡◌, inl, inr, refl, sym, ◌∙◌, arith, max, ltb, ◌&&◌, ◌==◌, if◌then◌else◌,
}
use nsos.Machine.{Ptr, done}
use nsos.CString.{Memory}
use nsos.CString.Move.{within}
use nsos.Fs.Kvfs.Read.{Readable, kvfs_read_lem}
use nsos.Fs.Kvfs.Back.{rewound, kvfs_read-kvfs_write}
use nsos.Fs.Kvfs.{kvfs_create, kvfs_write, kvfs_read, enlarge, put_data}
use nsos.Fs.State.{Kernel, pmm_alloc, pmm_free, put_bytes}
use nsos.Fs.Kvfs.Write.{Sound, after, byte_at, inode_of, written}
use nsos.Fs.Kvfs.Contents.{kvfs_write-written}
use nsos.Fs.Kvfs.Create.{Owned, Created, kvfs_create-Created}
use nsos.Example.{env, kernel}

kernel-Sound : Sound env 500 1000 6 kernel
kernel-Sound = record {
  writable = refl;
  short = omega arith;
  small = omega arith;
  empty = λ e. absurd (omega (arith, e));
  low = omega arith;
  buffer = inl (omega arith);
  new_low = omega arith;
  new_buffer = inr (omega arith);
  new_old = inr (omega arith);
}

-- Six bytes go to position 2 of the file of 4 bytes: its byte 3 is the second of them.
kvfs_write-written_example :
    (byte_at 500 (after env 500 1000 6 kernel) 3
      ≡ written (byte_at 500 kernel) 4 2 6 (λ k. 1000 + k) 3)
    × ((inode_of 500 (after env 500 1000 6 kernel)).size ≡ max 4 (2 + 6))
    × (((after env 500 1000 6 kernel).files 500).pos ≡ 2 + 6)
unfolding kvfs_write enlarge put_data pmm_alloc pmm_free
kvfs_write-written_example = kvfs_write-written env 500 1000 6 kernel kernel-Sound 3 (omega arith)

kernel-Readable : Readable 500 1000 6 kernel
kernel-Readable = record { low = omega arith; near = omega arith; apart = inl (omega arith) }

-- Six bytes are asked for at position 2 of the file of 4 bytes: two come, and a line feed.
kvfs_read_lem_example :
    (m : Memory) × (kvfs_read 500 1000 6 kernel ≡ done 3 (put_bytes m kernel))
    × ((q : ℕ)
        → m q ≡ (
            if within 1000 2 q
            then 202 + (q - 1000)
            else if ltb 2 6 && q == 1000 + 2
            then 10
            else q))
kvfs_read_lem_example = kvfs_read_lem 500 1000 6 kernel kernel-Readable

-- The six bytes are written and read back to address 3000.
kvfs_read-kvfs_write_example :
    (m : Memory) × (kvfs_read 500 3000 6 (rewound env 500 1000 6 kernel kernel-Sound refl)
      ≡ done 6 (put_bytes m (rewound env 500 1000 6 kernel kernel-Sound refl)))
    × ((k : ℕ) → k < 6 → m (3000 + k) ≡ 1000 + k)
unfolding kvfs_write enlarge put_data pmm_alloc pmm_free
kvfs_read-kvfs_write_example =
    kvfs_read-kvfs_write env 500 1000 6 kernel kernel-Sound refl 3000 (omega arith)
      (inr (omega arith))

-- The file with the inode at 20 has the only entry in use.
abbrev one_file : Kernel
one_file = record kernel { kvfs_files = λ i. record { inuse = i == 3; start = 200; end = 204 } }

abbrev Only : Ptr → Type 0
Only p = p ≡ 20

one_file-Owned : Owned Only one_file
one_file-Owned = record {
  bounded = λ p l. omega arith;
  used = λ p l. refl;
  apart = λ p q l l' e. l ∙ sym l';
}

kvfs_create-Created_example : Created Only 21 one_file (kvfs_create 21 30 one_file)
kvfs_create-Created_example =
    kvfs_create-Created Only 21 30 one_file one_file-Owned (λ p l. omega arith)
