-- ===== src/Shipper/Tail/Deferred.antt =====
-- A call of `read_new_lines` that does not persist.
use sentinel_brief.Prelude.{
  Text, ◌≡◌, refl, ◌∙◌, Bool, false, not, ◌||◌, ◌==◌, ltb, Option, none, some, List, Bool-cases,
  inl, inr,
}
use sentinel_brief.Shipper.Tail.{
  Handle, AtPath, Disk, Tailer, is_empty, all_decode, with_pending, decoded, answered, rotated,
  read_open, warn_once_per_errno, open_at_saved_offset, read_closed, read_file, reading_of,
  drain_handle, read_new_lines,
}
use sentinel_brief.Shipper.Tail.Drain.{Limits, Reading, drain_open_file}

module _ (decodes : Text → Bool) (limits : Limits) where
  with_pending-saved :
      (h : Handle) (ls : List Text) (t : Tailer) (r : Reading)
      → (with_pending decodes limits h ls t r).saved ≡ t.saved
  with_pending-saved h ls t r = elim (Bool-cases (not (is_empty ls) || ltb 0 r.dropped_bytes)) [
    | inl e ↦ rw e refl
    | inr e ↦ rw e refl
  ]

  decoded-saved :
      (h : Handle) (t : Tailer) (ls : List Text) (r : Reading)
      → (decoded decodes limits h t (ls, r)).1.saved ≡ t.saved
  decoded-saved h t ls r = elim (Bool-cases (all_decode decodes ls)) [
    | inl e ↦ rw e (with_pending-saved h ls _ r)
    | inr e ↦ rw e refl
  ]

  drain_handle-saved :
      (h : Handle) (disk : Disk) (t : Tailer)
      → (drain_handle decodes limits h disk t).1.saved ≡ t.saved
  unfolding drain_handle
  drain_handle-saved h disk t =
      let (ls, r) = drain_open_file limits (reading_of decodes limits h disk t) in
      decoded-saved h t ls r

  answered-saved :
      (o : Option (List Text) × Tailer) → (answered decodes limits false o).1.saved ≡ o.1.saved
  answered-saved (none, t) = refl
  answered-saved (some ls, t) = refl

  rotated-saved :
      (o : Option (List Text) × Tailer) → (rotated decodes limits false o).1.saved ≡ o.1.saved
  rotated-saved (none, t) = refl
  rotated-saved (some ls, t) = elim (Bool-cases t.at_eof) [ inl e ↦ rw e refl | inr e ↦ rw e refl ]

  read_open-saved :
      (h : Handle) (disk : Disk) (p : AtPath) (t : Tailer)
      → (read_open decodes limits false h disk p t).1.saved ≡ t.saved
  unfolding warn_once_per_errno
  read_open-saved h disk (AtPath.present inode) t = elim (Bool-cases (inode == h.inode)) [
    | inl e ↦
        rw e (answered-saved (drain_handle decodes limits h disk t) ∙ drain_handle-saved h disk t)
    | inr e ↦
        rw e (rotated-saved (drain_handle decodes limits h disk t) ∙ drain_handle-saved h disk t)
  ]
  read_open-saved h disk AtPath.missing t =
      rotated-saved (drain_handle decodes limits h disk _) ∙ drain_handle-saved h disk _
  read_open-saved h disk (AtPath.unreadable errno) t =
      rotated-saved (drain_handle decodes limits h disk _) ∙ drain_handle-saved h disk _

  read_closed-saved :
      (disk : Disk) (p : AtPath) (t : Tailer)
      → (read_closed decodes limits false disk p t).1.saved ≡ t.saved
  unfolding warn_once_per_errno open_at_saved_offset
  read_closed-saved disk (AtPath.present inode) t =
      answered-saved (drain_handle decodes limits _ disk _) ∙ drain_handle-saved _ disk _
  read_closed-saved disk AtPath.missing t = refl
  read_closed-saved disk (AtPath.unreadable errno) t = refl

  read_file-saved :
      (disk : Disk) (o : Option Handle) (t : Tailer)
      → (read_file decodes limits false disk o t).1.saved ≡ t.saved
  read_file-saved disk (some h) t = read_open-saved h disk disk.at_path t
  read_file-saved disk none t = read_closed-saved disk disk.at_path t

  -- The state file is as it was.
  pub read_new_lines-saved :
      (disk : Disk) (t : Tailer) → (read_new_lines decodes limits false disk t).1.saved ≡ t.saved
  unfolding read_new_lines
  read_new_lines-saved disk t = read_file-saved disk t.file t
