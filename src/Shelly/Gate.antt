-- ===== src/Shelly/Gate.antt =====
-- The slot of one device, `deviceAuthState` of internal/shelly/client.go: a gate that holds one
-- token, the number of waiting FBS requests, and the cancel function of the active Admin probe.
-- Goroutines interleave in the steps below, of which each is what a mutex protects, a channel
-- operation or the call of a cancel function. Probes are numbered, so that the cancel function that an
-- FBS request took under the mutex, and calls later, is that of one probe.
pub mod Exclusion
pub mod Progress
use fbs_interlock_gateway.Prelude.{
  Option, none, some, ◌==◌, ltb, if◌then◌else◌, any, ◌>>=◌, ◌>>◌, ℕ, ◌+◌, ◌-◌, ◌≡◌, Bool, true,
  false, not, ◌||◌, List, ◌∷◌, ◌++◌,
}

pub data Phase : Type 0 where
  idle : Phase
  admin_active : Phase  -- holds the token
  admin_releasing : Phase  -- has cleared `activeAdminCancel`, still holds the token
  fbs_arriving : Option ℕ → Phase  -- counted, and has not called the cancel function that it took
  fbs_waiting : Phase
  fbs_taken : Phase  -- has the token, still counted as waiting
  fbs_active : Phase

pub record Slot : Type 0 where
  pub token : Bool
  pub fbs_waiters : ℕ
  pub active_admin : Bool  -- `activeAdminCancel` is not nil
  pub probe : ℕ  -- the number of probes that were started, and the latest of them
  pub admin_canceled : Bool  -- the latest probe was told to give way
  pub threads : List Phase

pub data AdminOutcome : Type 0 where
  started deferred : AdminOutcome

-- `acquireAdmin` under the mutex: what it answers, and the slot apart from the threads.
unfoldable pub acquire_admin : Slot → AdminOutcome × Slot
acquire_admin s =
    if ltb 0 s.fbs_waiters
    then (deferred, s)
    else if s.token
    then (
      started,
      record s { token = false; active_admin = true; probe = s.probe + 1; admin_canceled = false },
    )
    else (deferred, s)

-- `acquireFBS` under the mutex: the slot, and the cancel function that it takes.
unfoldable pub arrive_fbs : Slot → Slot
arrive_fbs s = record s { fbs_waiters = s.fbs_waiters + 1 }

unfoldable pub active_cancel : Slot → Option ℕ
active_cancel s = if s.active_admin then some s.probe else none

-- `cancelAdmin(ErrAdminStatusDeferred)`, which changes nothing for a probe that is over.
unfoldable pub cancel_admin : Option ℕ → Slot → Slot
cancel_admin none s = s
cancel_admin (some n) s = record s { admin_canceled = (n == s.probe) || s.admin_canceled }

-- `s.fbsWaiters--`, after the wait or when the context is done
pub leave_queue : Slot → Slot
leave_queue s = record s { fbs_waiters = s.fbs_waiters - 1 }

-- What a goroutine in phase `p` may do to the slot, and its next phase.
pub data Move (s : Slot) : Phase → Slot → Phase → Type 0 where
  probe_starts : (acquire_admin s).0 ≡ started → Move s idle (acquire_admin s).1 admin_active
  probe_deferred : (acquire_admin s).0 ≡ deferred → Move s idle (acquire_admin s).1 idle
  probe_clears : Move s admin_active (record s { active_admin = false }) admin_releasing
  probe_releases : Move s admin_releasing (record s { token = true }) idle
  arrives : Move s idle (arrive_fbs s) (fbs_arriving (active_cancel s))
  cancels : (c : Option ℕ) → Move s (fbs_arriving c) (cancel_admin c s) fbs_waiting
  takes : s.token ≡ true → Move s fbs_waiting (record s { token = false }) fbs_taken
  gives_up : Move s fbs_waiting (leave_queue s) idle
  enters : Move s fbs_taken (leave_queue s) fbs_active
  releases : Move s fbs_active (record s { token = true }) idle

-- One goroutine moves.
pub data Step (s t : Slot) : Type 0 where
  step :
      (before after : List Phase) (p q : Phase) (u : Slot)
      → s.threads ≡ before ++ p ∷ after
      → Move s p u q
      → t ≡ record u { threads = before ++ q ∷ after }
      → Step s t

pub data Reach (s : Slot) : Slot → Type 0 where
  here : Reach s s
  next : {t u : Slot} → Reach s t → Step t u → Reach s u

-- `newDeviceAuthState`, and any number of goroutines.
unfoldable pub new_slot : List Phase → Slot
new_slot threads = record {
  token = true;
  fbs_waiters = 0;
  active_admin = false;
  probe = 0;
  admin_canceled = false;
  threads = threads;
}
