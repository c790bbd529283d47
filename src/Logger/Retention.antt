-- ===== src/Logger/Retention.antt =====
-- What the log file of src/core/logger.cpp keeps when it is rotated.
use mathlib.Core.Path.{subst}
use lightapr.Prelude.{
  ℕ, ◌<◌, ◌≤◌, ◌≡◌, ◌⊎◌, inl, inr, refl, true, false, none, some, List, [], ◌∷◌, ◌++◌, append_assoc,
  append-nil, arith, leb, length, Bool-cases, All,
}
use lightapr.Prelude.Text.{Text}
use lightapr.Logger.{
  LogMessage, Disk, Files, Sink, formatted, append_line, rename_to_backup, truncate,
  rotate_log_files, write_to_file, write_entry, write_all,
}

-- The bytes of the backup, none if there is no such file.
unfoldable pub backup_text : Files → Text
backup_text f = elim f.backup [ none ↦ [] | some t ↦ t ]

-- The lines of messages, as they stand in a file.
unfoldable pub lines : List (Disk × LogMessage) → Text
lines [] = []
lines ((d, m) ∷ ms) = (formatted m ++ (b'\n' ∷ [])) ++ lines ms

abbrev pub Succeeds : Disk × LogMessage → Type 0
Succeeds (d, m) = (d.renames ≡ true) × (d.opens ≡ true)

-- The end of `history` that the two files keep: `lost` is what is gone before it.
pub record Keeps (limit : ℕ) (history lost : Text) (s : Sink) : Type 0 where
  pub whole : history ≡ lost ++ (backup_text s.files ++ s.files.current)
  pub enough : (lost ≡ []) ⊎ (limit ≤ length (backup_text s.files))
  pub writes : (s.is_standalone ≡ false) × (s.is_open ≡ true) × (s.max_file_size ≡ limit)

-- The line of a message, with the end of line.
abbrev pub line_of : LogMessage → Text
line_of m = formatted m ++ (b'\n' ∷ [])

plain_write :
    (limit : ℕ) (s : Sink) (d : Disk) (m : LogMessage)
    → (s.is_standalone ≡ false) × (s.is_open ≡ true) × (s.max_file_size ≡ limit)
    → leb limit (length (s.files.current ++ line_of m)) ≡ false
    → write_entry d s m ≡ record s { files = append_line (formatted m) s.files }
unfolding write_entry write_to_file append_line
plain_write limit s d m w e = ground (arith, w, e)

rotated_write :
    (limit : ℕ) (s : Sink) (d : Disk) (m : LogMessage)
    → Succeeds (d, m)
    → (s.is_standalone ≡ false) × (s.is_open ≡ true) × (s.max_file_size ≡ limit)
    → leb limit (length (s.files.current ++ line_of m)) ≡ true
    → write_entry d s m ≡ record s {
      is_open = true;
      files = record { current = []; backup = some (s.files.current ++ line_of m) };
    }
unfolding write_entry write_to_file append_line rotate_log_files truncate rename_to_backup
rotated_write limit s d m ok w e = ground (arith, w, e, ok)

-- One line, without and with a rotation.
write_entry-Keeps :
    (limit : ℕ) (history lost : Text) (s : Sink) (d : Disk) (m : LogMessage)
    → 0 < limit
    → Succeeds (d, m)
    → Keeps limit history lost s
    → (lost' : Text) × Keeps limit (history ++ line_of m) lost' (write_entry d s m)
      × (length (write_entry d s m).files.current < limit)
unfolding backup_text append_line
write_entry-Keeps limit history lost s d m big ok k =
    let line = line_of m in
    let kept = backup_text s.files in
    elim (Bool-cases (leb limit (length (s.files.current ++ line)))) [
      | inl e ↦ (
        lost ++ kept,
        rw (rotated_write limit s d m ok k.writes e) (record {
          whole = rw k.whole (simp append_assoc);
          enough = inr (ground (arith, e));
          writes = (k.writes.0, refl, k.writes.2);
        }),
        rw (rotated_write limit s d m ok k.writes e) big,
      )
      | inr e ↦ (
        lost,
        rw (plain_write limit s d m k.writes e) (record {
          whole = rw k.whole (simp append_assoc);
          enough = k.enough;
          writes = k.writes;
        }),
        rw (plain_write limit s d m k.writes e) (ground (arith, e)),
      )
    ]

-- Where the file is at the start, and how small it is after a message at least.
abbrev pub IsSmallAfter : ℕ → List (Disk × LogMessage) → Sink → Type 0
IsSmallAfter limit [] s = Unit {0}
IsSmallAfter limit (m ∷ ms) s = length s.files.current < limit

last_small :
    (limit : ℕ) (s : Sink) (ms : List (Disk × LogMessage))
    → length s.files.current < limit
    → IsSmallAfter limit ms (write_all s ms)
    → length (write_all s ms).files.current < limit
unfolding write_all
last_small limit s [] h t = h
last_small limit s (m ∷ ms) h t = t

Keeps-All :
    (limit : ℕ) (history lost : Text) (s : Sink) (ms : List (Disk × LogMessage))
    → 0 < limit
    → All Succeeds ms
    → Keeps limit history lost s
    → (lost' : Text) × Keeps limit (history ++ lines ms) lost' (write_all s ms)
      × IsSmallAfter limit ms (write_all s ms)
unfolding lines write_all
Keeps-All limit history lost s [] big ok k = (lost, rw (append-nil history) k, tt)
Keeps-All limit history lost s ((d, m) ∷ ms) big ok k =
    let s' = write_entry d s m in
    let (mid, kept, small) = write_entry-Keeps limit history lost s d m big ok.0 k in
    let (lost', k', t) = Keeps-All limit (history ++ line_of m) mid s' ms big ok.1 kept in
    (
      lost',
      subst (λ (h : Text). Keeps limit h lost' (write_all s' ms))
          (append_assoc history (line_of m) (lines ms)) k',
      last_small limit s' ms small t,
    )

-- A log to a file that is open, where renames and opens succeed. Whatever is written, what the file
-- and the backup held at the start and the lines that were added are, in this order, what is lost
-- and what the backup and the file hold: nothing is lost, or the backup has at least the limit of
-- bytes, so that the last of them are always there. After a message the file is below the limit.
pub write_all-Keeps :
    (s : Sink) (ms : List (Disk × LogMessage))
    → 0 < s.max_file_size
    → s.is_standalone ≡ false
    → s.is_open ≡ true
    → All Succeeds ms
    → let t = write_all s ms in
      (lost : Text) × Keeps s.max_file_size
        ((backup_text s.files ++ s.files.current) ++ lines ms)
        lost
        t
      × IsSmallAfter s.max_file_size ms t
write_all-Keeps s ms big file open_now ok =
    Keeps-All s.max_file_size (backup_text s.files ++ s.files.current) [] s ms big ok
      (record { whole = refl; enough = inl refl; writes = (file, open_now, refl) })

-- Where the rename fails and the open succeeds, a rotation loses all that the file holds: after a
-- message that reaches the limit the file is empty and the backup is what it was.
pub write_entry-loses :
    (s : Sink) (d : Disk) (m : LogMessage)
    → s.is_standalone ≡ false
    → s.is_open ≡ true
    → d.renames ≡ false
    → d.opens ≡ true
    → s.max_file_size ≤ length (s.files.current ++ line_of m)
    → ((write_entry d s m).files.current ≡ []) × ((write_entry d s m).files.backup ≡ s.files.backup)
unfolding write_entry write_to_file append_line rotate_log_files truncate rename_to_backup
write_entry-loses s d m file open_now stays opened full =
    ground (arith, file, open_now, stays, opened)
