-- ===== src/Shelly/Recovery/Cooldown.antt =====
-- The restarts of one device in the course of events, in internal/shelly/client.go.
use fbs_interlock_gateway.Prelude.{
  if◌then◌else◌, ltb→ge, Bool-cases, ℕ, ◌+◌, ◌≤◌, ◌≡◌, refl, ap, subst, ◌∙◌, inl, inr, false,
  Option, none, some, List, [], ◌∷◌, ◌++◌, arith,
}
use fbs_interlock_gateway.Text.{Text, trim_space, text_eq}
use fbs_interlock_gateway.Text.Laws.{text_eq→eq}
use fbs_interlock_gateway.Dict.{int_key, text_key, lookup, lookup-insert}
use fbs_interlock_gateway.Shelly.HttpError.{ClientError, requires_reboot}
use fbs_interlock_gateway.Shelly.Recovery.{
  RecoveryState, Recoveries, Decision, scheduled, ignored, state_or_zero, within_cooldown,
  decide_reboot, enter_reboot, schedule_reboot, handle_http_error, finish_reboot,
}

-- An HTTP error of the device at an address, at a time, or the end of a restart.
pub data Event : Type 0 where
  failed : Text → ClientError → ℕ → Event
  finished : Text → Event

-- The state after an event, and whether it began a restart of the device with the key `key`.
pub react : ℕ → Event → Recoveries → Decision × Recoveries
react cooldown (failed ip e now) d = handle_http_error cooldown ip e now d
react cooldown (finished key) d = (ignored, finish_reboot key d)

abbrev starts_at : Text → Decision → Event → List ℕ
starts_at key scheduled (failed ip e now) = if text_eq (trim_space ip) key then now ∷ [] else []
starts_at key _ _ = []

-- The times at which restarts of a device begin.
pub reboots : ℕ → Text → List Event → Recoveries → List ℕ
reboots cooldown key [] d = []
reboots cooldown key (e ∷ es) d =
    let (decision, d') = react cooldown e d in
    starts_at key decision e ++ reboots cooldown key es d'

-- Each time is a cooldown or more behind the one before it, and behind `last`, if there is one.
abbrev pub Spaced : ℕ → Option ℕ → List ℕ → Type 0
Spaced cooldown last [] = Unit
Spaced cooldown none (t ∷ ts) = Spaced cooldown (some t) ts
Spaced cooldown (some last) (t ∷ ts) = (last + cooldown ≤ t) × Spaced cooldown (some t) ts

abbrev pub last_attempt_of : Text → Recoveries → Option ℕ
last_attempt_of key d = (state_or_zero (lookup key d)).last_attempt

last_attempt-finish_reboot :
    (key k : Text) (d : Recoveries)
    → last_attempt_of key (finish_reboot k d) ≡ last_attempt_of key d
unfolding finish_reboot
last_attempt-finish_reboot key k d =
    ap (λ o. (state_or_zero o).last_attempt) (lookup-insert k key _ d)
    ∙ (elim (Bool-cases (text_eq k key)) [
      | inl e ↦ rw e (ap (λ a. (state_or_zero (lookup a d)).last_attempt) (text_eq→eq k key e))
      | inr e ↦ rw e
    ])

last_attempt-enter_reboot :
    (key k : Text) (now : ℕ) (d : Recoveries)
    → last_attempt_of key (enter_reboot scheduled k now d)
      ≡ (if text_eq k key then some now else last_attempt_of key d)
unfolding enter_reboot
last_attempt-enter_reboot key k now d =
    ap (λ o. (state_or_zero o).last_attempt) (lookup-insert k key _ d)
    ∙ (elim (Bool-cases (text_eq k key)) [ inl e ↦ rw e | inr e ↦ rw e ])

module _ (cooldown : ℕ) (key : Text) (ip : Text) (e : ClientError) (now : ℕ) (d : Recoveries) where
  abbrev decision : Decision
  decision = decide_reboot cooldown now (trim_space ip) (state_or_zero (lookup (trim_space ip) d))

  not_within :
      (o : Option RecoveryState)
      → decide_reboot cooldown now (trim_space ip) (state_or_zero o) ≡ scheduled
      → within_cooldown cooldown now (state_or_zero o).last_attempt ≡ false
  unfolding decide_reboot
  not_within none h = refl
  not_within (some s) h = ground arith

  behind :
      (last : Option ℕ) (ts : List ℕ)
      → within_cooldown cooldown now last ≡ false
      → Spaced cooldown (some now) ts
      → Spaced cooldown last (now ∷ ts)
  behind none ts w h = h
  behind (some last) ts w h = (ltb→ge now (last + cooldown) w, h)

  Spaced-entered :
      (c : Decision) (ts : List ℕ)
      → decision ≡ c
      → Spaced cooldown (last_attempt_of key (enter_reboot c (trim_space ip) now d)) ts
      → Spaced cooldown (last_attempt_of key d) (starts_at key c (failed ip e now) ++ ts)
  Spaced-entered scheduled ts h rest = elim (Bool-cases (text_eq (trim_space ip) key)) [
    | inl same ↦ simp same (
        behind (last_attempt_of key d) ts
          (subst (λ k. within_cooldown cooldown now (last_attempt_of k d) ≡ false)
            (text_eq→eq (trim_space ip) key same) (not_within (lookup (trim_space ip) d) h))
          (subst (λ last. Spaced cooldown last ts)
            (last_attempt-enter_reboot key (trim_space ip) now d ∙ rw same) rest))
    | inr other ↦ simp other (
        subst (λ last. Spaced cooldown last ts)
          (last_attempt-enter_reboot key (trim_space ip) now d ∙ rw other) rest)
  ]
  Spaced-entered _ ts h rest = unfold enter_reboot in rest

  Spaced-failed :
      (ts : List ℕ)
      → Spaced cooldown (last_attempt_of key (react cooldown (failed ip e now) d).1) ts
      → Spaced cooldown
          (last_attempt_of key d)
          (starts_at key (react cooldown (failed ip e now) d).0 (failed ip e now) ++ ts)
  unfolding react handle_http_error schedule_reboot
  Spaced-failed ts h = elim (Bool-cases (requires_reboot e)) [
    | inl r ↦ simp r (Spaced-entered decision ts refl (simp r at h))
    | inr r ↦ simp r (simp r at h)
  ]

-- The restarts of one device that begin in the course of any events are spaced by the cooldown, also
-- from the last attempt before them.
pub reboots-Spaced :
    (cooldown : ℕ) (key : Text) (es : List Event) (d : Recoveries)
    → Spaced cooldown (last_attempt_of key d) (reboots cooldown key es d)
unfolding reboots react
reboots-Spaced cooldown key [] d = tt
reboots-Spaced cooldown key (failed ip e now ∷ es) d =
    Spaced-failed cooldown key ip e now d _
      (reboots-Spaced cooldown key es (react cooldown (failed ip e now) d).1)
reboots-Spaced cooldown key (finished k ∷ es) d =
    subst (λ last. Spaced cooldown last (reboots cooldown key es (finish_reboot k d)))
      (last_attempt-finish_reboot key k d) (reboots-Spaced cooldown key es (finish_reboot k d))
