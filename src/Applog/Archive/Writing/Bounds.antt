-- ===== src/Applog/Archive/Writing/Bounds.antt =====
-- `Write` and `Close` of internal/applog/store.go: the sizes of the current file and of the archive.
use fbs_interlock_gateway.Prelude.{
  length, length-append, ℤ, pos_part, ok, err, ℕ, ◌+◌, ◌≤◌, ◌<◌, ◌≡◌, refl, sym, ◌∙◌, ◌⊎◌, inl, inr,
  false, Option, none, some, ◌++◌, arith, Bool-cases, take, pos, ltb_ℤ, Result-cases, subst, ◌≢◌,
  true,
}
use fbs_interlock_gateway.Text.{Text}
use fbs_interlock_gateway.Text.Laws.{text_eq_refl}
use fbs_interlock_gateway.Dict.{int_key, text_key, lookup, lookup-insert}
use fbs_interlock_gateway.Applog.Records.{Options}
use fbs_interlock_gateway.Applog.Archive.Files.{Entry, Directory}
use fbs_interlock_gateway.Applog.Archive.Files.Sizes.{Unique, log_size}
use fbs_interlock_gateway.Applog.Archive.Files.Growing.{Unique-insert, log_size-insert}
use fbs_interlock_gateway.Applog.Archive.Cleaning.{cleanup, ArchiveError, Cleaned, CleanupFaults}
use fbs_interlock_gateway.Applog.Archive.Cleaning.Limits.{Fits, cleanup-Fits}
use fbs_interlock_gateway.Applog.Archive.Cleaning.Keeping.{cleanup_keeps}
use fbs_interlock_gateway.Applog.Archive.Cleaning.Unique.{cleanup-Unique}
use fbs_interlock_gateway.Applog.Archive.Writing.{
  Store, Archive, WriteFaults, disable_writes_locked, disable_writes, append_to, append_file,
  cleaned, after_write, write_file,
}
use fbs_interlock_gateway.Applog.Archive.Writing.Invariant.{HasCurrent, IsLimited, IsSound, Checked}

pub Fits-le : (limit : ℤ) (d : Directory) → Fits limit d → log_size d ≤ pos_part limit
Fits-le limit d h = ground (arith, h)

-- The current file and the whole archive grow by what is added.
Unique-append_to :
    (o : Option Entry) (name p : Text) (now : ℕ) (d : Directory)
    → Unique d
    → Unique (append_to o name p now d)
unfolding append_to
Unique-append_to none name p now d u = u
Unique-append_to (some e) name p now d u = Unique-insert name _ d u

append_to-log_size :
    (o : Option Entry) (name p : Text) (now : ℕ) (d : Directory)
    → lookup name d ≡ o
    → log_size (append_to o name p now d) ≤ log_size d + length p
unfolding append_to
append_to-log_size none name p now d h = omega arith
append_to-log_size (some e) name p now d h =
    log_size-insert name (record e { content = e.content ++ p; mod_time = now }) (length p) d
      (rw h (refl, length-append e.content p))

true_not_false : true ≢ false
true_not_false = λ h. cc

cleanup-current :
    (faults : CleanupFaults) (o : Options) (current : Text) (now : ℕ) (d : Directory)
    → Unique d
    → lookup current (cleanup faults o current now d).1 ≡ lookup current d
cleanup-current faults o current now d u = elim (cleanup_keeps faults o current now d current u) [
  | inl same ↦ same
  | inr (_, other, _) ↦ absurd (true_not_false (sym (text_eq_refl current) ∙ other))
]

cleaned-IsSound :
    (o : Options) (s : Store) (c : Cleaned)
    → s.write_disabled ≡ false
    → s.closed ≡ false
    → s.opts ≡ o
    → Unique c.1
    → HasCurrent (s, c.1)
    → s.current_size ≤ pos_part o.max_file_bytes
    → s.bytes_since_gc < pos_part o.cleanup_every_bytes
    → ((e : ArchiveError) × (c.0 ≡ err e)) ⊎ Fits o.max_total_bytes c.1
    → IsSound o (cleaned s c)
unfolding cleaned disable_writes
cleaned-IsSound o s (ok _, d) on live same u cur size gc (inl (e, h)) = cc
cleaned-IsSound o s (ok _, d) on live same u cur size gc (inr fits) = record {
  same_opts = same;
  unique = u;
  has_current = cur;
  current_bounded = size;
  limited = inr (rw same (omega (arith, Fits-le o.max_total_bytes d fits)));
  collected = gc;
}
cleaned-IsSound o s (err e, d) on live same u cur size gc h =
    simp (on, live)
      (record {
        same_opts = same;
        unique = u;
        has_current = inl refl;
        current_bounded = size;
        limited = inl refl;
        collected = gc;
      })

HasCurrent-cleanup :
    (faults : CleanupFaults) (s : Store) (now : ℕ) (d : Directory)
    → Unique d
    → HasCurrent (s, d)
    → HasCurrent (s, (cleanup faults s.opts s.current now d).1)
HasCurrent-cleanup faults s now d u (inl shut) = inl shut
HasCurrent-cleanup faults s now d u (inr (e, found, size)) =
    inr (e, cleanup-current faults s.opts s.current now d u ∙ found, size)

after_write-IsSound :
    (faults : WriteFaults) (now : ℕ) (o : Options) (s : Store) (d : Directory)
    → Checked o
    → s.write_disabled ≡ false
    → s.closed ≡ false
    → s.opts ≡ o
    → Unique d
    → HasCurrent (s, d)
    → s.current_size ≤ pos_part o.max_file_bytes
    → log_size d ≤ pos_part o.max_total_bytes + s.bytes_since_gc
    → IsSound o (after_write faults now s d)
unfolding after_write
after_write-IsSound faults now o s d k on live same u cur size total =
    elim (Bool-cases (ltb_ℤ (pos s.bytes_since_gc) s.opts.cleanup_every_bytes)) [
      | inl few ↦ rw few (record {
        same_opts = same;
        unique = u;
        has_current = cur;
        current_bounded = size;
        limited = inr (rw same total);
        collected = ground (arith, rw same at few);
      })
      | inr many ↦ rw many (
          cleaned-IsSound o (record s { bytes_since_gc = 0 })
            (cleanup faults.cleanup s.opts s.current now d) on live same
            (cleanup-Unique faults.cleanup s.opts s.current now d u)
            (HasCurrent-cleanup faults.cleanup s now d u cur) size k.often
            (elim (Result-cases (cleanup faults.cleanup s.opts s.current now d).0) [
              | inl failed ↦ inl failed
              | inr (_, done) ↦ inr (
                  subst
                    (λ (x : Options).
                      Fits x.max_total_bytes (cleanup faults.cleanup s.opts s.current now d).1)
                    same (cleanup-Fits faults.cleanup s.opts s.current now d u done))
            ]))
    ]

HasCurrent-append_file :
    (s : Store) (p : Text) (now : ℕ) (d : Directory)
    → HasCurrent (s, d)
    → HasCurrent (
      record s {
        current_size = s.current_size + length p;
        bytes_since_gc = s.bytes_since_gc + length p;
      },
      append_file s.current p now d,
    )
unfolding append_file append_to
HasCurrent-append_file s p now d (inl shut) = inl shut
HasCurrent-append_file s p now d (inr (e, found, size)) = rw found (
    inr (
      record e { content = e.content ++ p; mod_time = now },
      lookup-insert s.current s.current _ d ∙ rw (text_eq_refl s.current) refl,
      length-append e.content p ∙ rw size refl,
    ))

IsLimited-le :
    (a : Archive)
    → a.0.write_disabled ≡ false
    → IsLimited a
    → log_size a.1 ≤ pos_part a.0.opts.max_total_bytes + a.0.bytes_since_gc
IsLimited-le a on (inl off) = cc
IsLimited-le a on (inr small) = small

pub write_file-IsSound :
    (faults : WriteFaults) (p : Text) (now : ℕ) (r : Option ℕ) (o : Options) (s : Store)
    (d : Directory)
    → Checked o
    → s.write_disabled ≡ false
    → s.closed ≡ false
    → s.current_size + length p ≤ pos_part o.max_file_bytes
    → IsSound o (s, d)
    → IsSound o (write_file faults p now r (s, d))
unfolding write_file append_file after_write disable_writes_locked
write_file-IsSound faults p now (some part) o s d k on live room i = record {
  same_opts = i.same_opts;
  unique = Unique-append_to (lookup s.current d) s.current (take part p) now d i.unique;
  has_current = inl refl;
  current_bounded = i.current_bounded;
  limited = inl refl;
  collected = i.collected;
}
write_file-IsSound faults p now none o s d k on live room i =
    after_write-IsSound faults now o
      (record s {
        current_size = s.current_size + length p;
        bytes_since_gc = s.bytes_since_gc + length p;
      })
      (append_file s.current p now d) k on live i.same_opts
      (Unique-append_to (lookup s.current d) s.current p now d i.unique)
      (HasCurrent-append_file s p now d i.has_current) room
      (omega (
        arith,
        append_to-log_size (lookup s.current d) s.current p now d refl,
        rw i.same_opts at (IsLimited-le (s, d) on i.limited),
      ))
