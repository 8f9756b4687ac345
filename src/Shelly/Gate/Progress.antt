-- ===== src/Shelly/Gate/Progress.antt =====
-- How a waiting FBS request comes to the device, in internal/shelly/client.go.
use mathlib.Core.List.{append_assoc}
use fbs_interlock_gateway.Prelude.{
  ◌≤◌, ◌≡◌, refl, true, List, [], ◌∷◌, ◌++◌, arith, Bool-cases, length, length-append, All, sym, ap,
  ◌∙◌, ◌⊎◌, inl, inr, leb, leb→le, leb→gt,
}
use fbs_interlock_gateway.Shelly.Gate.{
  fbs_arriving, Phase, idle, admin_active, admin_releasing, fbs_waiting, fbs_taken, fbs_active,
  Slot, Move, probe_clears, probe_releases, enters, releases, Step, step, Reach, here, next, takes,
  new_slot,
}
use fbs_interlock_gateway.Shelly.Gate.Exclusion.{
  holders, holds, IsSound, Reach-new_slot-IsSound, one_if, total-append,
}

Reach-trans : {s t u : Slot} → Reach s t → Reach t u → Reach s u
Reach-trans r here = r
Reach-trans r (next q m) = next (Reach-trans r q) m

-- The slots that a goroutine of phase `p` leads to by its own steps, once it gave the token back.
record Freed (s : Slot) (before after : List Phase) : Type 0 where
  slot : Slot
  reached : Reach s slot
  free : slot.token ≡ true
  rest : slot.threads ≡ before ++ idle ∷ after

module _ (before after : List Phase) where
  move :
      (s : Slot) (p q : Phase) (u : Slot)
      → s.threads ≡ before ++ p ∷ after
      → Move s p u q
      → Step s (record u { threads = before ++ q ∷ after })
  move s p q u e m = step before after p q u e m refl

  freed :
      (s : Slot) (p : Phase) → s.threads ≡ before ++ p ∷ after → holds p ≡ 1 → Freed s before after
  freed s idle e h = absurd (omega (arith, h))
  freed s fbs_waiting e h = absurd (omega (arith, h))
  freed s (fbs_arriving c) e h = absurd (omega (arith, h))
  freed s admin_releasing e h = record {
    slot = _;
    reached = next here (move s _ _ _ e probe_releases);
    free = refl;
    rest = refl;
  }
  freed s fbs_active e h = record {
    slot = _;
    reached = next here (move s _ _ _ e releases);
    free = refl;
    rest = refl;
  }
  freed s admin_active e h =
      let m = move s _ _ _ e probe_clears in
      record {
        slot = _;
        reached = next (next here m) (move _ _ _ _ refl probe_releases);
        free = refl;
        rest = refl;
      }
  freed s fbs_taken e h =
      let m = move s _ _ _ e enters in
      record {
        slot = _;
        reached = next (next here m) (move _ _ _ _ refl releases);
        free = refl;
        rest = refl;
      }

-- The place of a holder.
record Holder (ps : List Phase) : Type 0 where
  before : List Phase
  after : List Phase
  phase : Phase
  place : ps ≡ before ++ phase ∷ after
  holding : holds phase ≡ 1

holds_cases : (p : Phase) → (holds p ≡ 0) ⊎ (holds p ≡ 1)
holds_cases idle = inl refl
holds_cases fbs_waiting = inl refl
holds_cases (fbs_arriving c) = inl refl
holds_cases admin_active = inr refl
holds_cases admin_releasing = inr refl
holds_cases fbs_taken = inr refl
holds_cases fbs_active = inr refl

holding_thread : (ps : List Phase) → 1 ≤ holders ps → Holder ps
holding_thread [] h = absurd (omega (arith, h))
holding_thread (p ∷ ps) h = elim (holds_cases p) [
  | inr e ↦ record { before = []; after = ps; phase = p; place = refl; holding = e }
  | inl e ↦
      let later = holding_thread ps (omega (arith, h, e)) in
      record {
        before = p ∷ later.before;
        after = later.after;
        phase = later.phase;
        place = ap (λ l. p ∷ l) later.place;
        holding = later.holding;
      }
]

same_length : (b a : List Phase) (p : Phase) → length (b ++ idle ∷ a) ≡ length (b ++ p ∷ a)
same_length b a p = omega (arith, length-append b (idle ∷ a), length-append b (p ∷ a))

-- The goroutine that was at this place has the device's token.
pub record Served (s : Slot) (before : List Phase) : Type 0 where
  pub slot : Slot
  pub reached : Reach s slot
  pub earlier : List Phase
  pub later : List Phase
  pub same_place : length earlier ≡ length before
  pub served : slot.threads ≡ earlier ++ fbs_taken ∷ later

module _ (s : Slot) (before after : List Phase) where
  take_free :
      {t : Slot} (b a : List Phase)
      → Reach s t
      → t.threads ≡ b ++ fbs_waiting ∷ a
      → t.token ≡ true
      → length b ≡ length before
      → Served s before
  take_free {t} b a r e free same = record {
    slot = _;
    reached = next r (move b a t fbs_waiting fbs_taken _ e (takes free));
    earlier = b;
    later = a;
    same_place = same;
    served = refl;
  }

  given_after :
      s.threads ≡ before ++ fbs_waiting ∷ after
      → (1 ≤ holders before) ⊎ (1 ≤ holders after)
      → Served s before
  given_after e (inl h) =
      let held = holding_thread before h in
      let b = held.before in
      let a = held.after in
      let f =
        freed b (a ++ fbs_waiting ∷ after) s held.phase
          (e
            ∙ (ap (λ l. l ++ fbs_waiting ∷ after) held.place
                ∙ append_assoc b (held.phase ∷ a) (fbs_waiting ∷ after)))
          held.holding in
      take_free (b ++ idle ∷ a) after f.reached
        (f.rest ∙ sym (append_assoc b (idle ∷ a) (fbs_waiting ∷ after))) f.free
        (same_length b a held.phase ∙ sym (ap length held.place))
  given_after e (inr h) =
      let held = holding_thread after h in
      let b = held.before in
      let a = held.after in
      let f =
        freed (before ++ fbs_waiting ∷ b) a s held.phase
          (e
            ∙ (ap (λ l. before ++ fbs_waiting ∷ l) held.place
                ∙ sym (append_assoc before (fbs_waiting ∷ b) (held.phase ∷ a))))
          held.holding in
      take_free before (b ++ idle ∷ a) f.reached
        (f.rest ∙ append_assoc before (fbs_waiting ∷ b) (idle ∷ a)) f.free refl

  given_if_sound : IsSound s → s.threads ≡ before ++ fbs_waiting ∷ after → Served s before
  given_if_sound i e = elim (Bool-cases s.token) [
    | inl free ↦ take_free before after here e free refl
    | inr busy ↦
        let one = i.one_token in
        let sum = total-append holds before (fbs_waiting ∷ after) in
        let whole : holders s.threads ≡ holders (before ++ fbs_waiting ∷ after) = ap holders e in
        let taken : one_if s.token ≡ 0 = ap one_if busy in
        given_after e (elim (Bool-cases (leb 1 (holders before))) [
          | inl y ↦ inl (leb→le _ _ y)
          | inr n ↦ inr (omega (arith, one, sum, whole, taken, leb→gt _ _ n))
        ])
  ]

-- From every slot that can come about, and for every FBS request that waits there, some course of
-- steps leads to a slot in which the goroutine at the request's place has the token: the slot is never
-- stuck.
pub waiting-Served :
    {s : Slot} (ps : List Phase)
    → All (λ p. p ≡ idle) ps
    → Reach (new_slot ps) s
    → (before after : List Phase) → s.threads ≡ before ++ fbs_waiting ∷ after
    → Served s before
waiting-Served {s} ps h r before after e =
    given_if_sound s before after (Reach-new_slot-IsSound ps h r) e
