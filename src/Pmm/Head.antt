-- ===== src/Pmm/Head.antt =====
-- `pmm_free` of src/pmm.c where the freed block is the first: the head of the list.
use nsos.Prelude.{ℕ, ◌+◌, ◌^◌, ◌≤◌, ◌<◌, ◌≡◌, refl, List, [], arith}
use nsos.Machine.{Ptr, null}
use nsos.CString.{Memory}
use nsos.Pmm.Block.{front, next, set_front, set_next, set_inuse}
use nsos.Pmm.Bytes.{Agree}
use nsos.Pmm.Links.{Linked-le, Linked-refront}
use nsos.Pmm.Split.{Header, writes}
use nsos.Pmm.Join.{Between}

abbrev pub head_reset : (h b : Ptr) → Memory → Memory
head_reset h b m =
    let m₁ = set_front h null (set_next h (next m b) m) in
    set_inuse h 0 (set_front (next m₁ h) h m₁)

module _ (m : Memory) (h b n end : ℕ) (to : next m b ≡ n) (p : h + 12 ≤ n) (s : n ≤ end)
    (t : end < 2 ^ 32) where
  pub head_reset_h : Header (head_reset h b m) h null 0 n
  head_reset_h = record {
    front_field = grind writes;
    inuse_field = grind writes;
    next_field = grind writes;
  }

  head_reset_back : front (head_reset h b m) n ≡ h
  head_reset_back = grind writes

  pub head_reset_below : Agree m (head_reset h b m) 0 h
  head_reset_below x lo hi = grind writes

  pub head_reset_above : Agree m (head_reset h b m) (n + 4) end
  head_reset_above x lo hi = grind writes

-- The first block begins at the start of the heap again.
pub head_reset-Between :
    (m : Memory) (end head h b : Ptr) (us vs : List Ptr)
    → Between m end head us vs b
    → 0 < h
    → h ≤ b
    → end < 2 ^ 32
    → Between (head_reset h b m) end h [] vs h
head_reset-Between m end head h b us vs w pos le small =
    let n = next m b in
    let m' = head_reset h b m in
    let room = w.room in
    let s = Linked-le m end b n vs w.right in
    let p : h + 12 ≤ n = omega arith in
    let at = head_reset_h m h b n end refl p s small in
    let back = head_reset_back m h b n end refl p s small in
    let above = head_reset_above m h b n end refl p s small in
    record {
      last = null;
      left = (refl, refl);
      positive = pos;
      free = at.inuse_field;
      front_field = at.front_field;
      room = rw at.next_field p;
      right = rw at.next_field (Linked-refront m m' end b h n vs w.right above (λ _. back));
    }
