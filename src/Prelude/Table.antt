-- ===== src/Prelude/Table.antt =====
-- A hash map, or a hash set with values of `Unit`, as a list of entries. The order of the entries
-- stands for the unspecified order of an iteration.
use Prim.Native.Nat.{◌+◌, ◌≤◌}
use mathlib.Core.Path.{◌≡◌, refl, ◌∙◌}
use mathlib.Core.Bool.{Bool, true, false}
use mathlib.Core.Logic.{inl, inr}
use mathlib.Core.List.{List, [], ◌∷◌}
use mathlib.Core.Option.{Option, none, some}
use native.Mathlib.Omega.{arith}
use bitmancer.Prelude.Tests.{if◌then◌else◌, is_some, Bool-cases, Option-cases, ◌>>=◌}
use bitmancer.Prelude.Lists.{length}
use bitmancer.Prelude.Keys.{Eq, ◌=?◌, beq_refl}

abbrev pub Table {ℓ κ} : Type ℓ → Type κ → Type (ℓ ⊔ κ)
Table K V = List (K × V)

module _ {ℓ κ} {K : Type ℓ} {V : Type κ} ⦃e : Eq K⦄ where
  -- `get`
  unfoldable pub find : K → Table K V → Option V
  find k [] = none
  find k ((j, v) ∷ m) = if j =? k then some v else find k m

  -- `insert`: the value of an old key is replaced, a new key is added.
  unfoldable pub put : K → V → Table K V → Table K V
  put k v [] = (k, v) ∷ []
  put k v ((j, w) ∷ m) = let rest = put k v m in if j =? k then (k, v) ∷ m else (j, w) ∷ rest

  -- `remove`
  unfoldable pub remove : K → Table K V → Table K V
  remove k [] = []
  remove k ((j, v) ∷ m) = let rest = remove k m in if j =? k then rest else (j, v) ∷ rest

  pub find-put :
      (k j : K) (v : V) (m : Table K V) → find j (put k v m) ≡ (if k =? j then some v else find j m)
  unfolding find put
  find-put k j v [] = refl
  find-put k j v ((i, w) ∷ m) =
      ground (arith, e.beq_iff k j, e.beq_iff i k, e.beq_iff i j, find-put k j v m)

  pub find-remove :
      (k j : K) (m : Table K V) → find j (remove k m) ≡ (if k =? j then none else find j m)
  unfolding find remove
  find-remove k j [] = ground arith
  find-remove k j ((i, w) ∷ m) =
      ground (arith, e.beq_iff k j, e.beq_iff i k, e.beq_iff i j, find-remove k j m)

  pub find-put_self : (k : K) (v : V) (m : Table K V) → find k (put k v m) ≡ some v
  find-put_self k v m = ground (arith, find-put k k v m, beq_refl k)

  pub find-remove_self : (k : K) (m : Table K V) → find k (remove k m) ≡ none
  find-remove_self k m = ground (arith, find-remove k k m, beq_refl k)

  -- A new key adds one entry, an old one none.
  pub length-put :
      (k : K) (v : V) (m : Table K V)
      → length (put k v m) ≡ (if is_some (find k m) then length m else length m + 1)
  unfolding find put
  length-put k v [] = omega arith
  length-put k v ((j, w) ∷ m) = ground (arith, length-put k v m)

  pub length-remove : (k : K) (m : Table K V) → length (remove k m) ≤ length m
  unfolding remove
  length-remove k [] = omega arith
  length-remove k ((j, w) ∷ m) = ground (arith, length-remove k m)

  -- Removing an entry that is there makes the table shorter.
  pub length-remove_lt :
      (k : K) (m : Table K V) {v : V} → find k m ≡ some v → length (remove k m) + 1 ≤ length m
  unfolding find remove
  length-remove_lt k [] h = cc
  length-remove_lt k ((j, w) ∷ m) {v} h =
      ground (arith, length-remove k m, length-remove_lt k m {v = v})

  -- `retain` by a test on the values.
  unfoldable pub retain : (V → Bool) → Table K V → Table K V
  retain p [] = []
  retain p ((j, v) ∷ m) = let rest = retain p m in if p v then (j, v) ∷ rest else rest

  pub length-retain : (p : V → Bool) (m : Table K V) → length (retain p m) ≤ length m
  unfolding retain
  length-retain p [] = omega arith
  length-retain p ((j, v) ∷ m) = ground (arith, length-retain p m)

  -- An entry that passes the test stays the one that is found.
  pub find-retain :
      (p : V → Bool) (k : K) (m : Table K V) (v : V)
      → find k m ≡ some v
      → p v ≡ true
      → find k (retain p m) ≡ some v
  unfolding find retain
  find-retain p k [] v h t = cc
  find-retain p k ((j, w) ∷ m) v h t = ground (arith, find-retain p k m v)

module _ {ℓ κ μ} {K : Type ℓ} {V : Type κ} ⦃e : Eq K⦄ (P : K → V → Type μ) where
  -- Every entry has the property.
  abbrev pub AllEntries : Table K V → Type μ
  AllEntries [] = Unit
  AllEntries ((j, v) ∷ m) = P j v × AllEntries m

  pub AllEntries-find : (k : K) (m : Table K V) (v : V) → AllEntries m → find k m ≡ some v → P k v
  unfolding find
  AllEntries-find k [] v h f = cc
  AllEntries-find k ((j, w) ∷ m) v h f = elim (Bool-cases (j =? k)) [
    | inl same ↦
        let same_key : j ≡ k = (e.beq_iff j k).0 same in
        let same_value : w ≡ v = ground (arith, same, f) in rw (← same_key, ← same_value) h.0
    | inr other ↦ AllEntries-find k m v h.1 (ground (arith, other, f))
  ]

  pub AllEntries-put :
      (k : K) (v : V) (m : Table K V) → AllEntries m → P k v → AllEntries (put k v m)
  unfolding put
  AllEntries-put k v [] h p = (p, tt)
  AllEntries-put k v ((j, w) ∷ m) h p = elim (Bool-cases (j =? k)) [
    | inl same ↦ rw same (p, h.1)
    | inr other ↦ rw other (h.0, AllEntries-put k v m h.1 p)
  ]

  pub AllEntries-remove : (k : K) (m : Table K V) → AllEntries m → AllEntries (remove k m)
  unfolding remove
  AllEntries-remove k [] h = tt
  AllEntries-remove k ((j, w) ∷ m) h = elim (Bool-cases (j =? k)) [
    | inl same ↦ rw same (AllEntries-remove k m h.1)
    | inr other ↦ rw other (h.0, AllEntries-remove k m h.1)
  ]

  pub AllEntries-retain : (p : V → Bool) (m : Table K V) → AllEntries m → AllEntries (retain p m)
  unfolding retain
  AllEntries-retain p [] h = tt
  AllEntries-retain p ((j, w) ∷ m) h = elim (Bool-cases (p w)) [
    | inl keep ↦ rw keep (h.0, AllEntries-retain p m h.1)
    | inr drop ↦ rw drop (AllEntries-retain p m h.1)
  ]

module _ {ℓ κ} {K : Type ℓ} {V : Type κ} ⦃e : Eq K⦄ where
  -- No key stands twice.
  abbrev pub IsUnique : Table K V → Type κ
  IsUnique [] = Unit
  IsUnique ((j, v) ∷ m) = (find j m ≡ none) × IsUnique m

  pub put-IsUnique : (k : K) (v : V) (m : Table K V) → IsUnique m → IsUnique (put k v m)
  unfolding put find
  put-IsUnique k v [] h = (refl, tt)
  put-IsUnique k v ((j, w) ∷ m) h = elim (Bool-cases (j =? k)) [
    | inl same ↦ rw same (rw (← (e.beq_iff j k).0 same) h.0, h.1)
    | inr apart ↦
        let differ : (k =? j) ≡ false = ground (arith, e.beq_iff j k, e.beq_iff k j, apart) in
        rw apart (find-put k j v m ∙ rw differ h.0, put-IsUnique k v m h.1)
  ]

  unfoldable pub keep_entry : K → Option V → Table K V → Table K V
  keep_entry j none rest = rest
  keep_entry j (some v) rest = (j, v) ∷ rest

  find-keep_entry :
      (k j : K) (o : Option V) (m : Table K V)
      → find j m ≡ none
      → find k (keep_entry j o m) ≡ (if j =? k then o else find k m)
  unfolding find keep_entry
  find-keep_entry k j none m h = elim (Bool-cases (j =? k)) [
    | inl same ↦ rw same (rw (← (e.beq_iff j k).0 same) h)
    | inr apart ↦ rw apart refl
  ]
  find-keep_entry k j (some v) m h = refl

  -- `retain` with a test that may change the values it keeps.
  unfoldable pub retain_mut : (V → Option V) → Table K V → Table K V
  unfolding keep_entry
  retain_mut f [] = []
  retain_mut f ((j, v) ∷ m) = let rest = retain_mut f m in keep_entry j (f v) rest

  pub find-retain_mut-none :
      (f : V → Option V) (k : K) (m : Table K V) → find k m ≡ none → find k (retain_mut f m) ≡ none
  unfolding find retain_mut keep_entry
  find-retain_mut-none f k [] h = refl
  find-retain_mut-none f k ((j, v) ∷ m) h =
      ground (arith, find-retain_mut-none f k m, Option-cases (f v))

  pub find-retain_mut :
      (f : V → Option V) (k : K) (m : Table K V)
      → IsUnique m
      → find k (retain_mut f m) ≡ (find k m >>= f)
  unfolding find retain_mut keep_entry
  find-retain_mut f k [] h = refl
  find-retain_mut f k ((j, v) ∷ m) h =
      find-keep_entry k j (f v) (retain_mut f m) (find-retain_mut-none f j m h.0)
      ∙ elim (Bool-cases (j =? k)) [
        | inl same ↦ rw same refl
        | inr apart ↦ rw apart (find-retain_mut f k m h.1)
      ]

  keep_entry-IsUnique :
      (j : K) (o : Option V) (m : Table K V)
      → find j m ≡ none
      → IsUnique m
      → IsUnique (keep_entry j o m)
  unfolding keep_entry
  keep_entry-IsUnique j none m h k = k
  keep_entry-IsUnique j (some v) m h k = (h, k)

  pub retain_mut-IsUnique :
      (f : V → Option V) (m : Table K V) → IsUnique m → IsUnique (retain_mut f m)
  unfolding retain_mut keep_entry
  retain_mut-IsUnique f [] h = tt
  retain_mut-IsUnique f ((j, v) ∷ m) h =
      keep_entry-IsUnique j (f v) _ (find-retain_mut-none f j m h.0) (retain_mut-IsUnique f m h.1)

  pub remove-IsUnique : (k : K) (m : Table K V) → IsUnique m → IsUnique (remove k m)
  unfolding remove
  remove-IsUnique k [] h = tt
  remove-IsUnique k ((j, v) ∷ m) h = elim (Bool-cases (j =? k)) [
    | inl same ↦ rw same (remove-IsUnique k m h.1)
    | inr apart ↦ rw apart (ground (arith, find-remove k j m, h.0), remove-IsUnique k m h.1)
  ]

  find-retain-none :
      (p : V → Bool) (k : K) (m : Table K V) → find k m ≡ none → find k (retain p m) ≡ none
  unfolding find retain
  find-retain-none p k [] h = refl
  find-retain-none p k ((j, v) ∷ m) h = ground (arith, find-retain-none p k m)

  pub retain-IsUnique : (p : V → Bool) (m : Table K V) → IsUnique m → IsUnique (retain p m)
  unfolding retain
  retain-IsUnique p [] h = tt
  retain-IsUnique p ((j, v) ∷ m) h = elim (Bool-cases (p v)) [
    | inl kept ↦ rw kept (find-retain-none p j m h.0, retain-IsUnique p m h.1)
    | inr gone ↦ rw gone (retain-IsUnique p m h.1)
  ]
