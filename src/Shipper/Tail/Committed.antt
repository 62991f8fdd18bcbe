-- ===== src/Shipper/Tail/Committed.antt =====
-- The position that `read_new_lines` persists.
use sentinel_brief.Prelude.{
  Text, ℕ, ◌+◌, ◌-◌, ◌≤◌, ◌≡◌, ◌≢◌, refl, ap, sym, ◌∙◌, Bool, true, false, ◌==◌, ==_iff, none, some,
  List, ◌++◌, length, drop, Bool-cases, inl, inr,
}
use sentinel_brief.Shipper.Tail.Split.{lines}
use sentinel_brief.Shipper.Tail.Drain.{Limits, max_line_bytes, Reading, short, drain_open_file}
use sentinel_brief.Shipper.Tail.Drain.Delivered.{Follows}
use sentinel_brief.Shipper.Tail.Drain.Restart.{restart_lem}
use sentinel_brief.Shipper.Tail.{
  Handle, AtPath, Disk, Tailer, commit_offset, is_empty, all_decode, decoded, answered, reading_of,
  read_new_lines,
}

none-ne-some : {A : Type 0} (a : A) → none ≢ some a
none-ne-some a e = cc

-- What a call that returns lines has saved.
record Saved (h : Handle) (ls : List Text) (r : Reading) (got : List Text) (t : Tailer)
    : Type 0 where
  same : got ≡ ls
  saved : t.saved ≡ some (record { inode = h.inode; offset = r.position - length r.buffer })
  dropping : t.dropping_bytes ≡ r.dropping_bytes

some_injective : {A : Type 0} {a b : A} → some a ≡ some b → a ≡ b
some_injective e = cc

module _ (decodes : Text → Bool) (limits : Limits) where
  answered-Saved :
      (h : Handle) (t : Tailer) (ls : List Text) (r : Reading) (got : List Text)
      → let result = answered decodes limits true (decoded decodes limits h t (ls, r)) in
        result.0 ≡ some got → is_empty got ≡ false → Saved h ls r got result.1
  unfolding commit_offset
  answered-Saved h t ls r got e full = elim (Bool-cases (all_decode decodes ls)) [
    | inl good ↦
        let same : ls ≡ got = some_injective (rw good at e) in
        let some_line : is_empty ls ≡ false = rw same full in
        rw (good, some_line) (record { same = sym same; saved = refl; dropping = refl })
    | inr bad ↦ absurd (none-ne-some got (rw bad at e))
  ]

  -- The path still leads to the file that is open: the call reads on in it.
  reads_on :
      (h : Handle) (disk : Disk) (t : Tailer)
      → t.file ≡ some h
      → disk.at_path ≡ AtPath.present h.inode
      → read_new_lines decodes limits true disk t
        ≡ answered decodes limits true (
            decoded decodes limits h t
              (drain_open_file limits (reading_of decodes limits h disk t)))
  unfolding read_new_lines
  reads_on h disk t ef ep =
      let self : (h.inode == h.inode) ≡ true = (==_iff h.inode h.inode).1 refl in
      rw (ef, ep, self) refl

  -- A call that persists, on the open file that the path still leads to. The file holds `base`,
  -- then the bytes that were read, then those that are left, and the tailer follows it. If the
  -- call returns lines, and no line is being dropped after it, the position that it saved is one
  -- in this file from which on the short lines are just those that were not yet given back.
  pub read_new_lines-restart :
      (h : Handle) (disk : Disk) (t : Tailer) (out : List Text) (base seen : Text) (got : List Text)
      → 1 ≤ limits.read_chunk_bytes
      → 1 ≤ limits.max_batch_lines
      → t.file ≡ some h
      → disk.at_path ≡ AtPath.present h.inode
      → Follows limits out seen (reading_of decodes limits h disk t)
      → h.position ≡ length base + length seen
      → disk.content h.inode ≡ base ++ (seen ++ drop h.position (disk.content h.inode))
      → (read_new_lines decodes limits true disk t).0 ≡ some got
      → is_empty got ≡ false
      → (read_new_lines decodes limits true disk t).1.dropping_bytes ≡ none
      → (offset : ℕ) × ((read_new_lines decodes limits true disk t).1.saved
          ≡ some (record { inode = h.inode; offset = offset }))
        × ((out ++ got)
              ++ short (max_line_bytes limits) (lines (drop offset (disk.content h.inode)))
            ≡ short
                (max_line_bytes limits)
                (lines (seen ++ drop h.position (disk.content h.inode))))
  read_new_lines-restart h disk t out base seen got hc hb ef ep f at file e full no_drop =
      let r0 = reading_of decodes limits h disk t in
      let (ls, r) = drain_open_file limits r0 in
      let on = reads_on h disk t ef ep in
      let s = answered-Saved h t ls r got (rw on at e) full in
      let none_dropped : r.dropping_bytes ≡ none = sym s.dropping ∙ (rw on at no_drop) in
      let restart = restart_lem limits out base seen r0 hc hb f at none_dropped in
      (
        r.position - length r.buffer,
        rw on s.saved,
        rw s.same (
            ap
              (λ c.
                (out ++ ls)
                ++ short (max_line_bytes limits) (lines (drop (r.position - length r.buffer) c)))
              file
            ∙ restart),
      )
