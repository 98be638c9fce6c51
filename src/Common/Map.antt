-- ===== src/Common/Map.antt =====
-- `std::map`: entries in the order of their keys, where two keys are the same if neither is below
-- the other. A map never holds two entries of the same key, so `erase` may drop all of them.
pub mod Total
use mathlib.Core.Path.{◌≡◌, refl}
use mathlib.Core.Bool.{Bool, true, not, ◌&&◌}
use mathlib.Core.List.{List, [], ◌∷◌}
use mathlib.Core.Option.{Option, none, some}
use mathlib.Core.Logic.{◌↔◌}
use Prim.Native.Nat.{ℕ}
use native.Mathlib.Omega.{arith}
use logsvc.Common.Tests.{ltb, if◌then◌else◌}
use logsvc.Common.Text.{Bytes, bytes_lt, bytes_eq, bytes_eq_refl, eq_of_bytes_eq, bytes_lt-bytes_eq}

abbrev pub is_same : {K : Type 0} → (K → K → Bool) → K → K → Bool
is_same lt a b = not (lt a b) && not (lt b a)

-- The comparison of a map, with what `std::map` asks of it: sameness is an equivalence.
pub record Order (K : Type 0) : Type 0 where
  pub lt : K → K → Bool
  pub is_same_refl : (a : K) → is_same lt a a ≡ true
  pub is_same_trans :
      (a b c : K) → is_same lt a b ≡ true → is_same lt b c ≡ true → is_same lt a c ≡ true

unfoldable pub same : {K : Type 0} → Order K → K → K → Bool
same o a b = is_same o.lt a b

module _ {K : Type 0} (o : Order K) where
  pub same_refl : (a : K) → same o a a ≡ true
  unfolding same
  same_refl a = o.is_same_refl a

  pub same_symm : (a b : K) → same o a b ≡ same o b a
  unfolding same
  same_symm a b = ground arith

  pub same_trans : (a b c : K) → same o a b ≡ true → same o b c ≡ true → same o a c ≡ true
  unfolding same
  same_trans a b c = o.is_same_trans a b c

  -- Where two keys are the same, a third is the same as both or as neither.
  pub same-congr : (a b c : K) → same o a b ≡ true → same o a c ≡ same o b c
  same-congr a b c h =
      ground (arith, same_trans a b c, same_trans b a c, same_symm a b, same_symm b a)

abbrev pub Map : Type 0 → Type 0 → Type 0
Map K V = List (K × V)

module _ {K V : Type 0} (o : Order K) where
  -- m.find(k)
  unfoldable pub find : K → Map K V → Option V
  find k [] = none
  find k ((j, v) ∷ m) = if same o j k then some v else find k m

  place : K → V → Map K V → Map K V
  place k v [] = (k, v) ∷ []
  place k v ((j, w) ∷ m) = if o.lt k j then (k, v) ∷ (j, w) ∷ m else (j, w) ∷ place k v m

  replace : K → V → Map K V → Map K V
  replace k v [] = []
  replace k v ((j, w) ∷ m) = if same o j k then (j, v) ∷ m else (j, w) ∷ replace k v m

  -- m.insert(std::make_pair(k, v)): an entry that is there stays.
  unfoldable pub insert : K → V → Map K V → Map K V
  unfolding place
  insert k v m = elim (find k m) [ none ↦ place k v m | some w ↦ m ]

  -- m[k] = v
  unfoldable pub assign : K → V → Map K V → Map K V
  unfolding place replace
  assign k v m = elim (find k m) [ none ↦ place k v m | some w ↦ replace k v m ]

  -- m.erase(m.find(k))
  unfoldable pub erase : K → Map K V → Map K V
  erase k [] = []
  erase k ((j, w) ∷ m) = let rest = erase k m in if same o j k then rest else (j, w) ∷ rest

  find-place :
      (k j : K) (v : V) (m : Map K V)
      → find k m ≡ none
      → find j (place k v m) ≡ (if same o k j then some v else find j m)
  unfolding find place
  find-place k j v [] h = refl
  find-place k j v ((i, w) ∷ m) h =
      ground (arith, find-place k j v m, same-congr o i j k, same_symm o k j)

  find-replace :
      (k j : K) (v w : V) (m : Map K V)
      → find k m ≡ some w
      → find j (replace k v m) ≡ (if same o k j then some v else find j m)
  unfolding find replace
  find-replace k j v w [] h = cc
  find-replace k j v w ((i, u) ∷ m) h =
      ground
        (arith, find-replace k j v w m, same-congr o i k j, same-congr o i j k, same_symm o k j)

  pub find-insert :
      (k j : K) (v : V) (m : Map K V)
      → find k m ≡ none
      → find j (insert k v m) ≡ (if same o k j then some v else find j m)
  unfolding insert
  find-insert k j v m h = ground (arith, find-place k j v m h)

  pub insert_present : (k : K) (v w : V) (m : Map K V) → find k m ≡ some w → insert k v m ≡ m
  unfolding insert
  insert_present k v w m h = ground arith

  pub find-assign :
      (k j : K) (v : V) (m : Map K V)
      → find j (assign k v m) ≡ (if same o k j then some v else find j m)
  unfolding assign
  find-assign k j v m = go (find k m) refl
    where
      go :
          (r : Option V)
          → find k m ≡ r
          → find j (assign k v m) ≡ (if same o k j then some v else find j m)
      go none e = ground (arith, find-place k j v m e)
      go (some w) e = ground (arith, find-replace k j v w m e)

  pub find-erase :
      (k j : K) (m : Map K V) → find j (erase k m) ≡ (if same o k j then none else find j m)
  unfolding find erase
  find-erase k j [] = ground arith
  find-erase k j ((i, w) ∷ m) =
      ground (arith, find-erase k j m, same-congr o i k j, same-congr o i j k, same_symm o k j)

  -- A lookup depends on the key up to sameness.
  pub find-same : (k j : K) (m : Map K V) → same o k j ≡ true → find k m ≡ find j m
  unfolding find
  find-same k j [] h = refl
  find-same k j ((i, w) ∷ m) h =
      ground (arith, find-same k j m h, same-congr o k j i, same_symm o i j, same_symm o i k)

pub nat_same_refl : (a : ℕ) → is_same ltb a a ≡ true
nat_same_refl a = ground arith

pub nat_same_trans :
    (a b c : ℕ) → is_same ltb a b ≡ true → is_same ltb b c ≡ true → is_same ltb a c ≡ true
nat_same_trans a b c h k = ground arith

-- Handles and other numbers, by `<`.
abbrev pub nat_order : Order ℕ
nat_order = record {
  lt = ltb;
  is_same_refl = λ a. nat_same_refl a;
  is_same_trans = λ a b c. nat_same_trans a b c;
}

pub same_iff : (a b : ℕ) → (same nat_order a b ≡ true) ↔ (a ≡ b)
unfolding same
same_iff a b = ground arith

pub bytes_same_refl : (a : Bytes) → is_same bytes_lt a a ≡ true
bytes_same_refl a = rw bytes_lt-bytes_eq (bytes_eq_refl a)

pub bytes_same_trans :
    (a b c : Bytes)
    → is_same bytes_lt a b ≡ true
    → is_same bytes_lt b c ≡ true
    → is_same bytes_lt a c ≡ true
bytes_same_trans a b c h k =
    let p : a ≡ b = eq_of_bytes_eq a b (rw bytes_lt-bytes_eq at h) in rw p k

-- Strings, by `operator<` of `std::string`.
abbrev pub bytes_order : Order Bytes
bytes_order = record {
  lt = bytes_lt;
  is_same_refl = λ a. bytes_same_refl a;
  is_same_trans = λ a b c. bytes_same_trans a b c;
}

-- For strings sameness is equality.
pub same_bytes : (a b : Bytes) → same bytes_order a b ≡ bytes_eq a b
unfolding same
same_bytes a b = bytes_lt-bytes_eq a b
