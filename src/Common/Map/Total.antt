-- ===== src/Common/Map/Total.antt =====
-- Sums over the entries of a `std::map`, and that each of its keys has one entry.
use mathlib.Core.Path.{◌≡◌, refl, ap, sym, subst, ◌∙◌}
use mathlib.Core.List.{[], ◌∷◌}
use mathlib.Core.Logic.{inl, inr}
use mathlib.Core.Option.{none, some}
use Prim.Native.Nat.{ℕ, ◌+◌}
use native.Mathlib.Omega.{arith}
use logsvc.Common.Tests.{Bool-cases}
use logsvc.Common.Map.{
  Order, Map, find, insert, assign, erase, place, replace, find-place, find-replace, find-erase,
  find-same, same, same_symm,
}

module _ {K V : Type 0} where
  unfoldable pub total : (V → ℕ) → Map K V → ℕ
  total f [] = 0
  total f ((k, v) ∷ m) = f v + total f m

  module _ (o : Order K) where
    unfoldable pub IsUnique : Map K V → Type 0
    IsUnique [] = Unit
    IsUnique ((k, v) ∷ m) = (find o k m ≡ none) × IsUnique m

    insert_absent :
        (k : K) (v : V) (m : Map K V) → find o k m ≡ none → insert o k v m ≡ place o k v m
    unfolding insert
    insert_absent k v m h = ground (arith, h)

    assign_present :
        (k : K) (v w : V) (m : Map K V) → find o k m ≡ some w → assign o k v m ≡ replace o k v m
    unfolding assign
    assign_present k v w m h = ground (arith, h)

    module _ (f : V → ℕ) where
      total-place : (k : K) (v : V) (m : Map K V) → total f (place o k v m) ≡ f v + total f m
      unfolding place total
      total-place k v [] = refl
      total-place k v ((j, w) ∷ m) = elim (Bool-cases (o.lt k j)) [
        | inl below ↦ rw below refl
        | inr above ↦ rw above (omega (arith, total-place k v m))
      ]

      pub total-insert :
          (k : K) (v : V) (m : Map K V)
          → find o k m ≡ none
          → total f (insert o k v m) ≡ f v + total f m
      total-insert k v m h = ap (total f) (insert_absent k v m h) ∙ total-place k v m

      total-replace :
          (k : K) (v w : V) (m : Map K V)
          → find o k m ≡ some w
          → total f (replace o k v m) + f w ≡ total f m + f v
      unfolding find replace total
      total-replace k v w [] h = cc
      total-replace k v w ((j, u) ∷ m) h = elim (Bool-cases (same o j k)) [
        | inl hit ↦ rw hit (let e : u ≡ w = ground (arith, h) in rw e (omega arith))
        | inr miss ↦ rw miss (omega (arith, total-replace k v w m (rw miss at h)))
      ]

      pub total-assign :
          (k : K) (v w : V) (m : Map K V)
          → find o k m ≡ some w
          → total f (assign o k v m) + f w ≡ total f m + f v
      total-assign k v w m h =
          ap (λ t. total f t + f w) (assign_present k v w m h) ∙ total-replace k v w m h

      erase_absent : (k : K) (m : Map K V) → find o k m ≡ none → erase o k m ≡ m
      unfolding find erase
      erase_absent k [] h = refl
      erase_absent k ((j, u) ∷ m) h = elim (Bool-cases (same o j k)) [
        | inl hit ↦ absurd (ground (arith, h))
        | inr miss ↦ rw miss (ap (◌∷◌ (j, u)) (erase_absent k m (rw miss at h)))
      ]

      pub total-erase :
          (k : K) (w : V) (m : Map K V)
          → IsUnique m
          → find o k m ≡ some w
          → total f (erase o k m) + f w ≡ total f m
      unfolding IsUnique find erase total
      total-erase k w [] q h = cc
      total-erase k w ((j, u) ∷ m) (new, q) h = elim (Bool-cases (same o j k)) [
        | inl hit ↦
            let e : u ≡ w = ground (arith, h) in
            let gone : find o k m ≡ none = ground (arith, find-same o j k m hit, new) in
            rw hit (rw e (rw (erase_absent k m gone) (omega arith)))
        | inr miss ↦ rw miss (omega (arith, total-erase k w m q (rw miss at h)))
      ]

    IsUnique-place :
        (k : K) (v : V) (m : Map K V) → find o k m ≡ none → IsUnique m → IsUnique (place o k v m)
    unfolding IsUnique find place
    IsUnique-place k v [] h q = (refl, tt)
    IsUnique-place k v ((j, w) ∷ m) h (new, q) = elim (Bool-cases (o.lt k j)) [
      | inl below ↦ rw below (h, (new, q))
      | inr above ↦ rw above (
        ground (arith, find-place o k j v m, same_symm o k j, h, new),
        IsUnique-place k v m (ground (arith, h)) q,
      )
    ]

    pub IsUnique-insert :
        (k : K) (v : V) (m : Map K V) → find o k m ≡ none → IsUnique m → IsUnique (insert o k v m)
    IsUnique-insert k v m h q =
        subst IsUnique (sym (insert_absent k v m h)) (IsUnique-place k v m h q)

    IsUnique-replace :
        (k : K) (v w : V) (m : Map K V)
        → find o k m ≡ some w
        → IsUnique m
        → IsUnique (replace o k v m)
    unfolding IsUnique find replace
    IsUnique-replace k v w [] h q = q
    IsUnique-replace k v w ((j, u) ∷ m) h (new, q) = elim (Bool-cases (same o j k)) [
      | inl hit ↦ rw hit (new, q)
      | inr miss ↦ rw miss (
        ground (arith, find-replace o k j v w m, same_symm o k j, h, new),
        IsUnique-replace k v w m (rw miss at h) q,
      )
    ]

    pub IsUnique-assign :
        (k : K) (v w : V) (m : Map K V)
        → find o k m ≡ some w
        → IsUnique m
        → IsUnique (assign o k v m)
    IsUnique-assign k v w m h q =
        subst IsUnique (sym (assign_present k v w m h)) (IsUnique-replace k v w m h q)

    pub IsUnique-erase : (k : K) (m : Map K V) → IsUnique m → IsUnique (erase o k m)
    unfolding IsUnique erase
    IsUnique-erase k [] q = q
    IsUnique-erase k ((j, u) ∷ m) (new, q) = elim (Bool-cases (same o j k)) [
      | inl hit ↦ rw hit (IsUnique-erase k m q)
      | inr miss ↦ rw miss (ground (arith, find-erase o k j m, new), IsUnique-erase k m q)
    ]
