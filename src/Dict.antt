-- ===== src/Dict.antt =====
-- Go's maps as association lists, over keys with a decidable equality. The program reads a map only
-- by key, so the order of its entries is not modelled.
use fbs_interlock_gateway.Prelude.{
  if◌then◌else◌, ℤ, eqb_ℤ, eqb_ℤ_iff, ◌≡◌, refl, ◌↔◌, Bool, true, Option, none, some, List, [], ◌∷◌,
  arith,
}
use fbs_interlock_gateway.Text.{Text, text_eq}
use fbs_interlock_gateway.Text.Laws.{text_eq_iff}

pub record Key (K : Type 0) : Type 0 where
  pub same : K → K → Bool
  pub same_iff : (a b : K) → (same a b ≡ true) ↔ (a ≡ b)

instance abbrev pub int_key : Key ℤ
int_key = record { same = eqb_ℤ; same_iff = eqb_ℤ_iff }

instance abbrev pub text_key : Key Text
text_key = record { same = text_eq; same_iff = text_eq_iff }

abbrev pub Dict : Type 0 → Type 0 → Type 0
Dict K V = List (K × V)

pub same_refl : {K : Type 0} ⦃k : Key K⦄ (a : K) → k.same a a ≡ true
same_refl ⦃k⦄ a = (k.same_iff a a).1 refl

module _ {K V : Type 0} ⦃k : Key K⦄ where
  -- `v, ok := m[key]`
  unfoldable pub lookup : K → Dict K V → Option V
  lookup a [] = none
  lookup a ((b, v) ∷ d) = if k.same b a then some v else lookup a d

  -- `m[key] = v`
  unfoldable pub insert : K → V → Dict K V → Dict K V
  insert a v [] = (a, v) ∷ []
  insert a v ((b, w) ∷ d) = if k.same b a then (a, v) ∷ d else (b, w) ∷ insert a v d

  pub lookup-insert :
      (a b : K) (v : V) (d : Dict K V)
      → lookup b (insert a v d) ≡ (if k.same a b then some v else lookup b d)
  unfolding lookup insert
  lookup-insert a b v [] = refl
  lookup-insert a b v ((c, w) ∷ d) =
      ground (arith, k.same_iff a b, k.same_iff c a, k.same_iff c b, lookup-insert a b v d)

  -- `delete(m, key)`
  unfoldable pub erase : K → Dict K V → Dict K V
  erase a [] = []
  erase a ((b, v) ∷ d) = let rest = erase a d in if k.same b a then rest else (b, v) ∷ rest

  pub lookup-erase :
      (a b : K) (d : Dict K V) → lookup b (erase a d) ≡ (if k.same a b then none else lookup b d)
  unfolding lookup erase
  lookup-erase a b [] = ground arith
  lookup-erase a b ((c, w) ∷ d) =
      ground (arith, k.same_iff a b, k.same_iff c a, k.same_iff c b, lookup-erase a b d)
