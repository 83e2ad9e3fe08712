-- ===== src/Common/Map.antt =====
-- `HashMap` as an association list: each key is looked up, replaced where it stands, or removed.
-- The order of the entries is that of insertion; no theorem of the program's maps depends on it.
use mathlib.Core.Path.{◌≡◌, refl, sym, ap, ◌∙◌, subst}
use mathlib.Core.Logic.{inl, inr}
use mathlib.Core.Option.{Option, none, some}
use mathlib.Core.List.{List, [], ◌∷◌}
use native.Mathlib.Omega.{arith}
use place_net_hamlet.Common.Tests.{if◌then◌else◌, Eq, same, same_iff, Bool-cases}
use place_net_hamlet.Common.Lists.{contains}
use mathlib.Core.Bool.{Bool, false}

module _ {ℓ κ} {K : Type ℓ} {V : Type κ} ⦃e : Eq K⦄ where
  -- `HashMap::get`.
  unfoldable pub get : K → List (K × V) → Option V
  get k [] = none
  get k ((j, v) ∷ m) = if same j k then some v else get k m

  -- `HashMap::insert`.
  unfoldable pub insert : K → V → List (K × V) → List (K × V)
  insert k v [] = (k, v) ∷ []
  insert k v ((j, w) ∷ m) =
      let rest = insert k v m in if same j k then (j, v) ∷ m else (j, w) ∷ rest

  -- `HashMap::remove`, without the value that it returns.
  unfoldable pub remove : K → List (K × V) → List (K × V)
  remove k [] = []
  remove k ((j, w) ∷ m) = let rest = remove k m in if same j k then rest else (j, w) ∷ rest

  -- A change through `HashMap::get_mut`.
  unfoldable pub modify : K → (V → V) → List (K × V) → List (K × V)
  modify k f [] = []
  modify k f ((j, w) ∷ m) =
      let rest = modify k f m in if same j k then (j, f w) ∷ m else (j, w) ∷ rest

  pub get-insert :
      (k j : K) (v : V) (m : List (K × V))
      → get j (insert k v m) ≡ (if same k j then some v else get j m)
  unfolding get insert
  get-insert k j v [] = refl
  get-insert k j v ((i, w) ∷ m) =
      ground (arith, same_iff k j, same_iff i k, same_iff i j, get-insert k j v m)

  pub get-remove :
      (k j : K) (m : List (K × V)) → get j (remove k m) ≡ (if same k j then none else get j m)
  unfolding get remove
  get-remove k j [] = ground arith
  get-remove k j ((i, w) ∷ m) =
      ground (arith, same_iff k j, same_iff i k, same_iff i j, get-remove k j m)

  pub get-modify :
      (k j : K) (f : V → V) (m : List (K × V))
      → get j (modify k f m)
        ≡ (if same k j then elim (get k m) [ none ↦ none | some v ↦ some (f v) ] else get j m)
  unfolding get modify
  get-modify k j f [] = ground arith
  get-modify k j f ((i, w) ∷ m) =
      ground (arith, same_iff k j, same_iff i k, same_iff i j, get-modify k j f m)

abbrev pub passes {κ} : {V : Type κ} → (V → Bool) → Option V → Bool
passes test none = false
passes test (some v) = test v

-- What `HashMap` guarantees of its keys.
abbrev pub UniqueKeys {ℓ κ} : {K : Type ℓ} {V : Type κ} ⦃e : Eq K⦄ → List (K × V) → Type κ
UniqueKeys [] = Unit
UniqueKeys ((k, v) ∷ m) = (get k m ≡ none) × UniqueKeys m

module _ {ℓ κ} {K : Type ℓ} {V : Type κ} ⦃e : Eq K⦄ where
  pub insert-UniqueKeys :
      (k : K) (v : V) (m : List (K × V)) → UniqueKeys m → UniqueKeys (insert k v m)
  unfolding insert get
  insert-UniqueKeys k v [] u = (refl, tt)
  insert-UniqueKeys k v ((j, w) ∷ m) u =
      ground (arith, insert-UniqueKeys k v m u.1, get-insert k j v m, same_iff j k, same_iff k j)

  pub remove-UniqueKeys : (k : K) (m : List (K × V)) → UniqueKeys m → UniqueKeys (remove k m)
  unfolding remove get
  remove-UniqueKeys k [] u = tt
  remove-UniqueKeys k ((j, w) ∷ m) u = ground (arith, remove-UniqueKeys k m u.1, get-remove k j m)

  pub modify-UniqueKeys :
      (k : K) (f : V → V) (m : List (K × V)) → UniqueKeys m → UniqueKeys (modify k f m)
  unfolding modify get
  modify-UniqueKeys k f [] u = tt
  modify-UniqueKeys k f ((j, w) ∷ m) u =
      ground (arith, modify-UniqueKeys k f m u.1, get-modify k j f m, same_iff j k, same_iff k j)

  -- The keys of the entries that pass a test, as an iterator collects them.
  unfoldable pub keys_where : (V → Bool) → List (K × V) → List K
  keys_where test [] = []
  keys_where test ((k, v) ∷ m) = let rest = keys_where test m in if test v then k ∷ rest else rest

  -- A key is among those keys exactly if it is found and its value passes the test.
  pub contains-keys_where :
      (test : V → Bool) (k : K) (m : List (K × V))
      → UniqueKeys m
      → contains k (keys_where test m) ≡ passes test (get k m)
  unfolding keys_where contains get
  contains-keys_where test k [] u = refl
  contains-keys_where test k ((j, w) ∷ m) u = elim (Bool-cases (same j k)) [
    | inl hit ↦
        let gone : get k m ≡ none = subst (λ x. get x m ≡ none) ((same_iff j k).0 hit) u.0 in
        let ih : contains k (keys_where test m) ≡ false =
          contains-keys_where test k m u.1 ∙ ap (passes test) gone in
        elim (Bool-cases (test w)) [ inl p ↦ rw (p, hit) (sym p) | inr p ↦ rw (p, hit) (rw p ih) ]
    | inr miss ↦ elim (Bool-cases (test w)) [
      | inl p ↦ rw (p, miss) (contains-keys_where test k m u.1)
      | inr p ↦ rw (p, miss) (contains-keys_where test k m u.1)
    ]
  ]
