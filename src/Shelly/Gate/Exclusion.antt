-- ===== src/Shelly/Gate/Exclusion.antt =====
-- The invariant of the slot of a device, in internal/shelly/client.go.
use fbs_interlock_gateway.Prelude.{
  sym, subst, ltb, ◌⊎◌, Option, none, some, Bool-cases, inl, inr, All, ℕ, ◌+◌, ◌≤◌, ◌<◌, ◌≡◌, refl,
  ap, Bool, true, false, List, [], ◌∷◌, ◌++◌, arith,
}
use fbs_interlock_gateway.Shelly.Gate.{
  started, deferred, Phase, idle, admin_active, admin_releasing, fbs_waiting, fbs_taken, fbs_active,
  Slot, acquire_admin, arrive_fbs, leave_queue, Move, probe_starts, probe_deferred, probe_clears,
  probe_releases, arrives, takes, gives_up, enters, releases, cancels, fbs_arriving, active_cancel,
  cancel_admin, Step, step, Reach, here, next, new_slot,
}

abbrev pub holds : Phase → ℕ
holds admin_active = 1
holds admin_releasing = 1
holds fbs_taken = 1
holds fbs_active = 1
holds _ = 0

abbrev waits : Phase → ℕ
waits (fbs_arriving c) = 1
waits fbs_waiting = 1
waits fbs_taken = 1
waits _ = 0

-- Waits, and has called the cancel function that it took.
abbrev has_called : Phase → ℕ
has_called fbs_waiting = 1
has_called fbs_taken = 1
has_called _ = 0

abbrev probes : Phase → ℕ
probes admin_active = 1
probes _ = 0

-- How many goroutines are in phases that `f` counts.
abbrev pub total : (Phase → ℕ) → List Phase → ℕ
total f [] = 0
total f (p ∷ ps) = f p + total f ps

-- The goroutines that have the device, those that wait for it, and the probes that are active.
abbrev pub holders : List Phase → ℕ
holders = total holds

abbrev pub waiters : List Phase → ℕ
waiters = total waits

abbrev pub callers : List Phase → ℕ
callers = total has_called

abbrev pub active_probes : List Phase → ℕ
active_probes = total probes

abbrev pub one_if : Bool → ℕ
one_if true = 1
one_if false = 0

-- While it arrives, no probe is started: it holds the cancel function of the active probe, if any.
abbrev pub Knows : Bool → ℕ → Phase → Type 0
Knows active n (fbs_arriving none) = active ≡ false
Knows active n (fbs_arriving (some k)) = k ≡ n
Knows active n _ = Unit

pub record IsSound (s : Slot) : Type 0 where
  pub one_token : one_if s.token + holders s.threads ≡ 1
  pub queue_counted : s.fbs_waiters ≡ waiters s.threads
  pub probe_known : one_if s.active_admin ≡ active_probes s.threads
  pub cancel_known : All (Knows s.active_admin s.probe) s.threads
  pub gives_way : 0 < callers s.threads → s.active_admin ≡ true → s.admin_canceled ≡ true

pub total-append :
    (f : Phase → ℕ) (xs ys : List Phase) → total f (xs ++ ys) ≡ total f xs + total f ys
total-append f [] ys = omega arith
total-append f (x ∷ xs) ys = omega (arith, total-append f xs ys)

probes-le-holds : (ps : List Phase) → total probes ps ≤ total holds ps
probes-le-holds [] = omega arith
probes-le-holds (p ∷ ps) = omega (arith, one p, probes-le-holds ps)
  where
    one : (q : Phase) → probes q ≤ holds q
    one admin_active = omega arith
    one _ = omega arith

has_called-le-waits : (ps : List Phase) → total has_called ps ≤ total waits ps
has_called-le-waits [] = omega arith
has_called-le-waits (p ∷ ps) = omega (arith, one p, has_called-le-waits ps)
  where
    one : (q : Phase) → has_called q ≤ waits q
    one fbs_waiting = omega arith
    one fbs_taken = omega arith
    one _ = omega arith

-- The invariant with the rest of the goroutines summed up.
record Sums (s : Slot) (p : Phase) (h w c a : ℕ) : Type 0 where
  one_token : one_if s.token + holds p + h ≡ 1
  queue_counted : s.fbs_waiters ≡ waits p + w
  probe_known : one_if s.active_admin ≡ probes p + a
  own_cancel : Knows s.active_admin s.probe p
  gives_way : 0 < has_called p + c → s.active_admin ≡ true → s.admin_canceled ≡ true

Knows-arrive_fbs : (s : Slot) → Knows s.active_admin s.probe (fbs_arriving (active_cancel s))
unfolding active_cancel
Knows-arrive_fbs s = elim (Bool-cases s.active_admin) [ inl e ↦ rw e refl | inr e ↦ rw e refl ]

-- After its call of the cancel function an active probe is canceled.
cancel_admin-cancels :
    (c : Option ℕ) (s : Slot)
    → Knows s.active_admin s.probe (fbs_arriving c)
    → s.active_admin ≡ true
    → (cancel_admin c s).admin_canceled ≡ true
unfolding cancel_admin
cancel_admin-cancels none s k e = cc
cancel_admin-cancels (some n) s k e = ground (arith, k)

Move-Sums :
    {s u : Slot} {p q : Phase} (h w c a : ℕ)
    → a ≤ h
    → c ≤ w
    → Move s p u q
    → Sums s p h w c a
    → Sums u q h w c a
unfolding acquire_admin arrive_fbs leave_queue cancel_admin
Move-Sums h w c a le le' (probe_starts e) i = ground arith
Move-Sums h w c a le le' (probe_deferred e) i = ground arith
Move-Sums h w c a le le' probe_clears i = ground arith
Move-Sums h w c a le le' probe_releases i = ground arith
Move-Sums {s} h w c a le le' arrives i = record {
  one_token = i.one_token;
  queue_counted = omega (arith, i.queue_counted);
  probe_known = i.probe_known;
  own_cancel = Knows-arrive_fbs s;
  gives_way = i.gives_way;
}
Move-Sums {s} h w c a le le' (cancels none) i = record {
  one_token = i.one_token;
  queue_counted = i.queue_counted;
  probe_known = i.probe_known;
  own_cancel = tt;
  gives_way = λ _ active. cancel_admin-cancels none s i.own_cancel active;
}
Move-Sums {s} h w c a le le' (cancels (some n)) i = record {
  one_token = i.one_token;
  queue_counted = i.queue_counted;
  probe_known = i.probe_known;
  own_cancel = tt;
  gives_way = λ _ active. cancel_admin-cancels (some n) s i.own_cancel active;
}
Move-Sums h w c a le le' (takes e) i = ground arith
Move-Sums h w c a le le' gives_up i = ground arith
Move-Sums h w c a le le' enters i = ground arith
Move-Sums h w c a le le' releases i = ground arith

Knows-clears : (a : Bool) (n : ℕ) (r : Phase) → Knows a n r → Knows false n r
Knows-clears a n (fbs_arriving none) k = refl
Knows-clears a n (fbs_arriving (some m)) k = k
Knows-clears a n idle k = tt
Knows-clears a n admin_active k = tt
Knows-clears a n admin_releasing k = tt
Knows-clears a n fbs_waiting k = tt
Knows-clears a n fbs_taken k = tt
Knows-clears a n fbs_active k = tt

Knows-unwaited : (a : Bool) (n : ℕ) (ps : List Phase) → total waits ps ≡ 0 → All (Knows a n) ps
Knows-unwaited a n [] h = tt
Knows-unwaited a n (fbs_arriving c ∷ ps) h = absurd (omega (arith, h))
Knows-unwaited a n (fbs_waiting ∷ ps) h = absurd (omega (arith, h))
Knows-unwaited a n (fbs_taken ∷ ps) h = absurd (omega (arith, h))
Knows-unwaited a n (idle ∷ ps) h = (tt, Knows-unwaited a n ps (omega (arith, h)))
Knows-unwaited a n (admin_active ∷ ps) h = (tt, Knows-unwaited a n ps (omega (arith, h)))
Knows-unwaited a n (admin_releasing ∷ ps) h = (tt, Knows-unwaited a n ps (omega (arith, h)))
Knows-unwaited a n (fbs_active ∷ ps) h = (tt, Knows-unwaited a n ps (omega (arith, h)))

deferred_same : (s : Slot) → (acquire_admin s).0 ≡ deferred → (acquire_admin s).1 ≡ s
unfolding acquire_admin
deferred_same s e = elim (Bool-cases (ltb 0 s.fbs_waiters)) [
  | inl waits ↦ rw waits refl
  | inr alone ↦ elim (Bool-cases s.token) [
    | inr busy ↦ rw (alone, busy) refl
    | inl free ↦ absurd (started_not_deferred (simp (alone, free) at e))
  ]
]
  where
    started_not_deferred : started ≡ deferred → ⊥
    started_not_deferred h = cc

-- A probe only starts when no FBS request is counted, and no other move makes what one knows untrue.
Move-Knows :
    {s u : Slot} {p q : Phase}
    → Move s p u q
    → (s.fbs_waiters ≡ 0)
      ⊎ ((r : Phase) → Knows s.active_admin s.probe r → Knows u.active_admin u.probe r)
unfolding acquire_admin arrive_fbs leave_queue cancel_admin
Move-Knows (probe_starts e) = inl (ground arith)
Move-Knows {s} (probe_deferred e) =
    inr (λ r k. subst (λ t. Knows t.active_admin t.probe r) (sym (deferred_same s e)) k)
Move-Knows {s} probe_clears = inr (λ r k. Knows-clears s.active_admin s.probe r k)
Move-Knows probe_releases = inr (λ r k. k)
Move-Knows arrives = inr (λ r k. k)
Move-Knows (cancels none) = inr (λ r k. k)
Move-Knows (cancels (some n)) = inr (λ r k. k)
Move-Knows (takes e) = inr (λ r k. k)
Move-Knows gives_up = inr (λ r k. k)
Move-Knows enters = inr (λ r k. k)
Move-Knows releases = inr (λ r k. k)

All-map :
    {P Q : Phase → Type 0} → ((r : Phase) → P r → Q r) → (ps : List Phase) → All P ps → All Q ps
All-map f [] h = tt
All-map f (p ∷ ps) h = (f p h.0, All-map f ps h.1)

All-split : (P : Phase → Type 0) (xs ys : List Phase) → All P (xs ++ ys) → All P xs × All P ys
All-split P [] ys h = (tt, h)
All-split P (x ∷ xs) ys h = let (l, r) = All-split P xs ys h.1 in ((h.0, l), r)

All-join : (P : Phase → Type 0) (xs ys : List Phase) → All P xs → All P ys → All P (xs ++ ys)
All-join P [] ys h k = k
All-join P (x ∷ xs) ys h k = (h.0, All-join P xs ys h.1 k)

module _ (before after : List Phase) where
  abbrev others : (Phase → ℕ) → ℕ
  others f = total f before + total f after

  Sums-of_IsSound :
      (s : Slot) (p : Phase)
      → s.threads ≡ before ++ p ∷ after
      → IsSound s
      → Sums s p (others holds) (others waits) (others has_called) (others probes)
  Sums-of_IsSound s p e i =
      let parts = λ (f : Phase → ℕ). total-append f before (p ∷ after) in
      let known : All (Knows s.active_admin s.probe) (before ++ p ∷ after) =
        subst (All (Knows s.active_admin s.probe)) e i.cancel_known in
      record {
        one_token = omega (arith, i.one_token, ap holders e, parts holds);
        queue_counted = omega (arith, i.queue_counted, ap waiters e, parts waits);
        probe_known = omega (arith, i.probe_known, ap active_probes e, parts probes);
        own_cancel = (All-split _ before (p ∷ after) known).1.0;
        gives_way = λ called. i.gives_way (omega (arith, called, ap callers e, parts has_called));
      }

  IsSound-of_Sums :
      (u : Slot) (q : Phase)
      → All (Knows u.active_admin u.probe) before
      → All (Knows u.active_admin u.probe) after
      → Sums u q (others holds) (others waits) (others has_called) (others probes)
      → IsSound (record u { threads = before ++ q ∷ after })
  IsSound-of_Sums u q l r i =
      let parts = λ (f : Phase → ℕ). total-append f before (q ∷ after) in
      record {
        one_token = omega (arith, i.one_token, parts holds);
        queue_counted = omega (arith, i.queue_counted, parts waits);
        probe_known = omega (arith, i.probe_known, parts probes);
        cancel_known = All-join _ before (q ∷ after) l (i.own_cancel, r);
        gives_way = λ called. i.gives_way (omega (arith, called, parts has_called));
      }

  others_know :
      {s u : Slot} {p q : Phase}
      → Move s p u q
      → s.threads ≡ before ++ p ∷ after
      → IsSound s
      → All (Knows u.active_admin u.probe) before × All (Knows u.active_admin u.probe) after
  others_know {s} {u} {p} m e i = elim (Move-Knows m) [
    | inl alone ↦
        let counted = i.queue_counted in
        let parts = total-append waits before (p ∷ after) in
        (
          Knows-unwaited _ _ before (omega (arith, alone, counted, parts, ap waiters e)),
          Knows-unwaited _ _ after (omega (arith, alone, counted, parts, ap waiters e)),
        )
    | inr keeps ↦
        let known : All (Knows s.active_admin s.probe) (before ++ p ∷ after) =
          subst (All (Knows s.active_admin s.probe)) e i.cancel_known in
        let (l, r) = All-split _ before (p ∷ after) known in
        (All-map keeps before l, All-map keeps after r.1)
  ]

Step-IsSound : {s t : Slot} → Step s t → IsSound s → IsSound t
Step-IsSound {s} (step before after p q u e m f) i =
    let (l, r) = others_know before after m e i in
    rw f (
      IsSound-of_Sums before after u q l r (
        Move-Sums _ _ _ _ (omega (arith, probes-le-holds before, probes-le-holds after))
          (omega (arith, has_called-le-waits before, has_called-le-waits after)) m
          (Sums-of_IsSound before after s p e i)))

Reach-IsSound : {s t : Slot} → IsSound s → Reach s t → IsSound t
Reach-IsSound i here = i
Reach-IsSound i (next r st) = Step-IsSound st (Reach-IsSound i r)

idle_total :
    (f : Phase → ℕ) (ps : List Phase) → f idle ≡ 0 → All (λ p. p ≡ idle) ps → total f ps ≡ 0
idle_total f [] z h = refl
idle_total f (p ∷ ps) z h = rw h.0 (omega (arith, z, idle_total f ps z h.1))

pub new_slot-IsSound : (ps : List Phase) → All (λ p. p ≡ idle) ps → IsSound (new_slot ps)
unfolding new_slot
new_slot-IsSound ps h = record {
  one_token = omega (arith, idle_total holds ps refl h);
  queue_counted = omega (arith, idle_total waits ps refl h);
  probe_known = omega (arith, idle_total probes ps refl h);
  cancel_known = Knows-unwaited false 0 ps (idle_total waits ps refl h);
  gives_way = λ w a. absurd (omega (arith, w, idle_total has_called ps refl h));
}

-- In every interleaving from a new slot: the token and the goroutines that have the device are one
-- together, so that at most one request uses the device and the token is free when none does; the
-- counter of waiting FBS requests is exact; the slot knows of an active probe exactly when there is
-- one; a request that arrives holds the cancel function of the active probe, if there is one; and once
-- an FBS request that waits has called the function that it took, an active probe is canceled.
pub Reach-new_slot-IsSound :
    {t : Slot} (ps : List Phase) → All (λ p. p ≡ idle) ps → Reach (new_slot ps) t → IsSound t
Reach-new_slot-IsSound ps h r = Reach-IsSound (new_slot-IsSound ps h) r
