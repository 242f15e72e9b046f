-- ===== src/Closure/Steps.antt =====
-- One round of the loop of `collectGraph`, and a rule for what holds at its end.
use bottle.Common.{
  ℕ, zero, suc, List, [], ◌∷◌, ◌≡◌, inl, inr, refl, sym, subst, ◌∙◌, true, false, arith,
}
use bottle.Common.Dict.{mem_bytes}
use bottle.Common.Result.{Result, ok, err, Result-cases}
use bottle.Common.Tests.{Bool-cases}
use bottle.Common.Text.{Bytes}
use bottle.Closure.{
  Deps, Walk, Recipes, WalkError, fetch_failed, sorted_entries, visit_deps, visited, walk,
}

walk_done : (fetch : Recipes) (fuel : ℕ) (w : Walk) → walk fetch fuel [] w ≡ ok w
unfolding walk
walk_done fetch fuel w = refl

walk_stopped :
    (fetch : Recipes) (p : Bytes) (queue : List Bytes) (w final : Walk)
    → ¬ (walk fetch zero (p ∷ queue) w ≡ ok final)
unfolding walk
walk_stopped fetch p queue w final e = cc

ok-injective : {v w : Walk} → ◌≡◌ {A = Result WalkError Walk} (ok v) (ok w) → v ≡ w
ok-injective e = cc

module _ (fetch : Recipes) (fuel : ℕ) (p : Bytes) (queue : List Bytes) (w : Walk) where
  pub walk_old :
      mem_bytes p w.order ≡ true → walk fetch (suc fuel) (p ∷ queue) w ≡ walk fetch fuel queue w
  unfolding walk
  walk_old h = ground arith

  pub walk_failed :
      {e : Bytes}
      → mem_bytes p w.order ≡ false
      → fetch p ≡ err e
      → walk fetch (suc fuel) (p ∷ queue) w ≡ err (fetch_failed e)
  unfolding walk
  walk_failed h k = ground arith

  -- The queue and the walk behind a round that visits `p`.
  abbrev pub after : Deps → List Bytes × Walk
  after deps = visit_deps p (sorted_entries deps) queue (visited p w)

  pub walk_new :
      (deps : Deps)
      → mem_bytes p w.order ≡ false
      → fetch p ≡ ok deps
      → walk fetch (suc fuel) (p ∷ queue) w ≡ walk fetch fuel (after deps).0 (after deps).1
  unfolding walk
  walk_new deps h k = ground arith

-- What an invariant `P queue w` has to satisfy, and what then holds of a walk that ends well.
pub record Rule (fetch : Recipes) (P : List Bytes → Walk → Type 0) : Type 0 where
  pub old :
      (p : Bytes) (queue : List Bytes) (w : Walk)
      → mem_bytes p w.order ≡ true
      → P (p ∷ queue) w
      → P queue w
  pub new :
      (p : Bytes) (queue : List Bytes) (w : Walk) (deps : Deps)
      → mem_bytes p w.order ≡ false
      → fetch p ≡ ok deps
      → P (p ∷ queue) w
      → P
          (visit_deps p (sorted_entries deps) queue (visited p w)).0
          (visit_deps p (sorted_entries deps) queue (visited p w)).1

module _ {fetch : Recipes} {P : List Bytes → Walk → Type 0} (rule : Rule fetch P) where
  open rule use {old, new}

  pub walk_ind :
      (fuel : ℕ) (queue : List Bytes) (w final : Walk)
      → P queue w
      → walk fetch fuel queue w ≡ ok final
      → P [] final
  walk_ind fuel [] w final h e = subst (P []) (ok-injective (sym (walk_done fetch fuel w) ∙ e)) h
  walk_ind zero (p ∷ queue) w final h e = absurd (walk_stopped fetch p queue w final e)
  walk_ind (suc fuel) (p ∷ queue) w final h e = elim (Bool-cases (mem_bytes p w.order)) [
    | inl seen ↦
        walk_ind fuel queue w final (old p queue w seen h)
          (sym (walk_old fetch fuel p queue w seen) ∙ e)
    | inr unseen ↦ elim (Result-cases (fetch p)) [
      | inr (failure, failed) ↦ cc (walk_failed fetch fuel p queue w unseen failed)
      | inl (deps, fetched) ↦
          walk_ind fuel (after fetch fuel p queue w deps).0 (after fetch fuel p queue w deps).1
            final (new p queue w deps unseen fetched h)
            (sym (walk_new fetch fuel p queue w deps unseen fetched) ∙ e)
    ]
  ]
