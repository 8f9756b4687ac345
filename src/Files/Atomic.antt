-- ===== src/Files/Atomic.antt =====
-- Steps on files that leave a path alone, or switch it from its old content to the new one at once.
use mathlib.Core.List.{append_assoc}
use fbs_interlock_gateway.Prelude.{
  take, All, ℕ, zero, suc, ◌≡◌, refl, ◌∙◌, ◌≢◌, ◌⊎◌, inl, inr, Option, none, some, List, [], ◌∷◌,
  ◌++◌, Bool-cases, All-append, Result, ok, err, sym, ap,
}
use fbs_interlock_gateway.Text.{Text}
use fbs_interlock_gateway.Text.Laws.{text_eq_refl, ne→text_eq}
use fbs_interlock_gateway.Dict.{int_key, text_key, lookup, lookup-insert, erase, lookup-erase}
use fbs_interlock_gateway.Files.{
  FileSystem, FileStep, fills, renames, removes, put_content, file_step, file_steps, FileError,
  temp_failed, chmod_failed, write_failed, sync_failed, close_failed, rename_failed, Written,
  TempFaults, finish_temp, fill_temp, with_removal, through_temp,
}

-- A step that does not touch the path.
abbrev pub Spares : Text → FileStep → Type 0
Spares path (fills q content) = q ≢ path
Spares path (renames q r) = (q ≢ path) × (r ≢ path)
Spares path (removes q) = q ≢ path

lookup-put_content :
    (path : Text) (o : Option Text) (q r : Text) (fs : FileSystem)
    → q ≢ path
    → r ≢ path
    → lookup path (put_content o q r fs) ≡ lookup path fs
unfolding put_content
lookup-put_content path none q r fs nq nr = refl
lookup-put_content path (some content) q r fs nq nr =
    rw (lookup-insert, ne→text_eq r path nr, lookup-erase, ne→text_eq q path nq) refl

lookup-file_step :
    (path : Text) (o : FileStep) (fs : FileSystem)
    → Spares path o
    → lookup path (file_step o fs) ≡ lookup path fs
unfolding file_step
lookup-file_step path (fills q content) fs n = rw (lookup-insert, ne→text_eq q path n) refl
lookup-file_step path (removes q) fs n = rw (lookup-erase, ne→text_eq q path n) refl
lookup-file_step path (renames q r) fs (nq, nr) = lookup-put_content path (lookup q fs) q r fs nq nr

pub lookup-file_steps :
    (path : Text) (os : List FileStep) (fs : FileSystem)
    → All (Spares path) os
    → lookup path (file_steps os fs) ≡ lookup path fs
unfolding file_steps
lookup-file_steps path [] fs h = refl
lookup-file_steps path (o ∷ os) fs h =
    lookup-file_steps path os (file_step o fs) h.1 ∙ lookup-file_step path o fs h.0

pub file_steps-append :
    (xs ys : List FileStep) (fs : FileSystem)
    → file_steps (xs ++ ys) fs ≡ file_steps ys (file_steps xs fs)
unfolding file_steps
file_steps-append [] ys fs = refl
file_steps-append (x ∷ xs) ys fs = file_steps-append xs ys (file_step x fs)

pub All-take {ℓ κ} :
    {A : Type ℓ} (P : A → Type κ) (n : ℕ) (xs : List A) → All P xs → All P (take n xs)
All-take P zero xs h = tt
All-take P (suc n) [] h = tt
All-take P (suc n) (x ∷ xs) h = (h.0, All-take P n xs h.1)

-- How a call that replaces the content of a path goes: it gives up and has not touched the path, or
-- succeeds and has renamed to it a file that then held the new content.
pub data Course (path content : Text) (fs : FileSystem) (w : Written) : Type 0 where
  gave_up : (e : FileError) → w.0 ≡ err e → All (Spares path) w.1 → Course path content fs w
  replaced :
      (from : Text) (before after : List FileStep)
      → w.0 ≡ ok tt
      → All (Spares path) before
      → All (Spares path) after
      → lookup from (file_steps before fs) ≡ some content
      → w.1 ≡ before ++ renames from path ∷ after
      → Course path content fs w

-- What is at the path is the old content or the new one.
abbrev pub OldOrNew : Text → Text → FileSystem → FileSystem → Type 0
OldOrNew path content fs fs' = (lookup path fs' ≡ lookup path fs) ⊎ (lookup path fs' ≡ some content)

pub lookup-fills :
    (path content : Text) (fs : FileSystem)
    → lookup path (file_steps (fills path content ∷ []) fs) ≡ some content
unfolding file_steps file_step
lookup-fills path content fs = lookup-insert path path content fs ∙ rw (text_eq_refl path) refl

lookup-renames :
    (from path content : Text) (fs : FileSystem)
    → lookup from fs ≡ some content
    → lookup path (file_step (renames from path) fs) ≡ some content
unfolding file_step put_content
lookup-renames from path content fs h =
    rw h (lookup-insert path path content (erase from fs) ∙ rw (text_eq_refl path) refl)

module _ (path content from : Text) (after : List FileStep) (post : All (Spares path) after) where
  switched :
      (k : ℕ) (fs : FileSystem)
      → lookup from fs ≡ some content
      → lookup path (file_steps (take k after) (file_step (renames from path) fs)) ≡ some content
  switched k fs h =
      lookup-file_steps path (take k after) _ (All-take (Spares path) k after post)
      ∙ lookup-renames from path content fs h

  prefix_switch :
      (k : ℕ) (before : List FileStep) (fs : FileSystem)
      → All (Spares path) before
      → lookup from (file_steps before fs) ≡ some content
      → OldOrNew path content fs (file_steps (take k (before ++ renames from path ∷ after)) fs)
  unfolding file_steps
  prefix_switch zero before fs pre h = inl refl
  prefix_switch (suc k) [] fs pre h = inr (switched k fs h)
  prefix_switch (suc k) (o ∷ before) fs pre h =
      elim (prefix_switch k before (file_step o fs) pre.1 h) [
        | inl same ↦ inl (same ∙ lookup-file_step path o fs pre.0)
        | inr new ↦ inr new
      ]

  whole_switch :
      (before : List FileStep) (fs : FileSystem)
      → lookup from (file_steps before fs) ≡ some content
      → lookup path (file_steps (before ++ renames from path ∷ after) fs) ≡ some content
  unfolding file_steps
  whole_switch [] fs h = lookup-file_steps path after _ post ∙ lookup-renames from path content fs h
  whole_switch (o ∷ before) fs h = whole_switch before (file_step o fs) h

-- At every moment of the call the path has its old content or the new one, in the end the new one
-- after a success and the old one after an error.
pub record IsAtomic (path content : Text) (fs : FileSystem) (w : Written) : Type 0 where
  pub always : (k : ℕ) → OldOrNew path content fs (file_steps (take k w.1) fs)
  pub at_end :
      ((w.0 ≡ ok tt) × (lookup path (file_steps w.1 fs) ≡ some content))
      ⊎ ((e : FileError) × (w.0 ≡ err e) × (lookup path (file_steps w.1 fs) ≡ lookup path fs))

pub IsAtomic-of_Course :
    {path content : Text} {fs : FileSystem} {w : Written}
    → Course path content fs w
    → IsAtomic path content fs w
IsAtomic-of_Course {path} {fs} {w} (gave_up e failed h) = record {
  always = λ k. inl (lookup-file_steps path (take k w.1) fs (All-take (Spares path) k w.1 h));
  at_end = inr (e, failed, lookup-file_steps path w.1 fs h);
}
IsAtomic-of_Course {path} {content} {fs} {w} (replaced from before after done pre post h e) =
    record {
      always = λ k. rw e (prefix_switch path content from after post k before fs pre h);
      at_end = inl (done, rw e (whole_switch path content from after post before fs h));
    }

-- More steps in front that spare the path.
pub Course-after :
    {path content : Text} {fs : FileSystem} {result : Result FileError (Unit {0})}
    {steps : List FileStep} (first : List FileStep)
    → All (Spares path) first
    → Course path content (file_steps first fs) (result, steps)
    → Course path content fs (result, first ++ steps)
Course-after {path} first h (gave_up e failed k) =
    gave_up e failed (All-append (Spares path) first _ h k)
Course-after {path} {fs} {steps} first h (replaced from before after done pre post held e) =
    replaced from (first ++ before) after done (All-append (Spares path) first before h pre) post
      (ap (lookup from) (file_steps-append first before fs) ∙ held)
      (ap (λ l. first ++ l) e ∙ sym (append_assoc first before (renames from path ∷ after)))

module _ (temp path content : Text) (other : temp ≢ path) where
  finish_temp-Course :
      (f : TempFaults) (fs : FileSystem)
      → Course path content fs (with_removal temp (finish_temp f temp path content))
  unfolding finish_temp with_removal file_steps
  finish_temp-Course f fs = elim (Bool-cases f.sync) [
    | inl e ↦ simp e (gave_up sync_failed refl (other, (other, (other, tt))))
    | inr e ↦ elim (Bool-cases f.close) [
      | inl c ↦ simp (e, c) (gave_up close_failed refl (other, (other, (other, tt))))
      | inr c ↦ elim (Bool-cases f.rename) [
        | inl r ↦ simp (e, c, r) (gave_up rename_failed refl (other, (other, (other, tt))))
        | inr r ↦
            simp (e, c, r)
              (replaced temp (fills temp [] ∷ fills temp content ∷ []) (removes temp ∷ []) refl
                (other, (other, tt)) (other, tt)
                (lookup-fills temp content (file_step (fills temp []) fs)) refl)
      ]
    ]
  ]

  fill_temp-Course :
      (o : Option Text) (f : TempFaults) (fs : FileSystem)
      → Course path content fs (with_removal temp (fill_temp o f temp path content))
  unfolding fill_temp with_removal
  fill_temp-Course (some part) f fs = gave_up write_failed refl (other, (other, (other, tt)))
  fill_temp-Course none f fs = finish_temp-Course f fs

  pub through_temp-Course :
      (f : TempFaults) (fs : FileSystem) → Course path content fs (through_temp f temp path content)
  unfolding through_temp
  through_temp-Course f fs = elim (Bool-cases f.create) [
    | inl e ↦ simp e (gave_up temp_failed refl tt)
    | inr e ↦ elim (Bool-cases f.chmod) [
      | inl c ↦ simp (e, c) (gave_up chmod_failed refl (other, (other, tt)))
      | inr c ↦ simp (e, c) (fill_temp-Course f.write f fs)
    ]
  ]
