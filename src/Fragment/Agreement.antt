-- ===== src/Fragment/Agreement.antt =====
-- Whatever order the fragments of a body come in, the assembler of src/fragment.rs never hands out
-- anything but that body.
use bitmancer.Prelude.{
  ℕ, zero, suc, ◌+◌, ◌≡◌, refl, inl, inr, Bool, true, false, not, ◌&&◌, Option, none, some, List,
  [], ◌∷◌, ltb, leb, ◌==◌, if◌then◌else◌, length, get_elem?, set, replicate, is_some, ◌>>=◌, arith,
  Bool-cases, Option-cases, All, >>=-eq-some,
}
use bitmancer.Prelude.Table.{
  find, put, AllEntries, AllEntries-find, AllEntries-put, AllEntries-remove, AllEntries-retain,
}
use bitmancer.Fragment.{
  FragmentKey, key_eq, FragmentHeader, Assembly, Assembler, Append, complete, rejected, expire,
  or_fresh, join, with_piece, finish, fill, store_piece, append, max_assembled_bytes, max_in_flight,
}
use mathlib.Core.List.{flatten}

-- Every piece that is there is the slice of its place.
abbrev pub Agrees : List (Option (List ℕ)) → List (List ℕ) → Type 0
Agrees [] [] = Unit
Agrees [] (s ∷ ss) = ⊥
Agrees (p ∷ ps) [] = ⊥
Agrees (none ∷ ps) (s ∷ ss) = Agrees ps ss
Agrees (some p ∷ ps) (s ∷ ss) = (p ≡ s) × Agrees ps ss

pub Agrees-replicate : (ss : List (List ℕ)) → Agrees (replicate (length ss) none) ss
Agrees-replicate [] = tt
Agrees-replicate (s ∷ ss) = Agrees-replicate ss

pub Agrees-set :
    (ps : List (Option (List ℕ))) (ss : List (List ℕ)) (i : ℕ) (s : List ℕ)
    → Agrees ps ss
    → get_elem? ss i ≡ some s
    → Agrees (set ps i (some s)) ss
Agrees-set [] [] i s h e = tt
Agrees-set [] (t ∷ ss) i s h e = h
Agrees-set (p ∷ ps) [] i s h e = absurd h
Agrees-set (none ∷ ps) (t ∷ ss) zero s h e = (cc, h)
Agrees-set (some p ∷ ps) (t ∷ ss) zero s h e = (cc, h.1)
Agrees-set (none ∷ ps) (t ∷ ss) (suc i) s h e = Agrees-set ps ss i s h e
Agrees-set (some p ∷ ps) (t ∷ ss) (suc i) s h e = (h.0, Agrees-set ps ss i s h.1 e)

pub Agrees-join :
    (ps : List (Option (List ℕ))) (ss : List (List ℕ)) (b : List ℕ)
    → Agrees ps ss
    → join ps ≡ some b
    → b ≡ flatten ss
unfolding join flatten
Agrees-join [] [] b h e = cc
Agrees-join [] (t ∷ ss) b h e = absurd h
Agrees-join (p ∷ ps) [] b h e = absurd h
Agrees-join (none ∷ ps) (t ∷ ss) b h e = cc
Agrees-join (some p ∷ ps) (t ∷ ss) b h e = elim (Option-cases (join ps)) [
  | inl n ↦ ground (arith, n)
  | inr (rest, r) ↦ cc (rw r at e, h.0, Agrees-join ps ss rest h.1 r)
]

module _ (k : FragmentKey) (ss : List (List ℕ)) where
  -- The assemblies under the key `k` agree with the slices.
  abbrev pub Entry : FragmentKey → Assembly → Type 0
  Entry j a = j ≡ k → Agrees a.pieces ss

  -- A fragment under the key `k` is one of the slices.
  abbrev pub IsPiece : FragmentHeader → Type 0
  IsPiece h = h.key ≡ k → (h.total ≡ length ss) × (get_elem? ss h.index ≡ some h.content)

  -- What comes out under the key `k` is the slices put together.
  abbrev pub Answers : FragmentHeader → Append → Type 0
  Answers h r = (b : List ℕ) → r ≡ complete b → h.key ≡ k → b ≡ flatten ss

  abbrev Good : FragmentHeader → Option (Assembler × Append) → Type 0
  Good h none = Unit
  Good h (some (m, r)) = AllEntries Entry m × Answers h r

  finish-Good :
      (h : FragmentHeader) (a : Assembly) (m : Assembler)
      → AllEntries Entry m
      → Entry h.key a
      → Good h (finish h a m)
  unfolding finish
  finish-Good h a m v w = elim (Bool-cases (ltb a.received (length a.pieces))) [
    | inl more ↦ rw more (AllEntries-put Entry h.key a m v w, λ b e. cc)
    | inr whole ↦ rw whole (elim (Option-cases (join a.pieces)) [
      | inl n ↦ rw n tt
      | inr (b, e) ↦
          rw e
            (AllEntries-remove Entry h.key m v, λ c f g. cc (f, Agrees-join a.pieces ss b (w g) e))
    ])
  ]

  fill-Good :
      (slot : Option (Option (List ℕ))) (h : FragmentHeader) (a : Assembly) (m : Assembler)
      → IsPiece h
      → AllEntries Entry m
      → Entry h.key a
      → Good h (fill slot h a m)
  unfolding fill
  fill-Good none h a m i v w = tt
  fill-Good (some (some p)) h a m i v w = (v, λ b e. cc)
  fill-Good (some none) h a m i v w =
      elim (Bool-cases (ltb max_assembled_bytes (a.bytes + length h.content))) [
        | inl over ↦ rw over (AllEntries-remove Entry h.key m v, λ b e. cc)
        | inr within ↦ rw within (
            finish-Good h (with_piece h a) m v
              (λ e. Agrees-set a.pieces ss h.index h.content (w e) (i e).1))
      ]

  store_piece-Good :
      (h : FragmentHeader) (a : Assembly) (m : Assembler)
      → IsPiece h
      → AllEntries Entry m
      → Entry h.key a
      → Good h (store_piece h a m)
  unfolding store_piece
  store_piece-Good h a m i v w = elim (Bool-cases (length a.pieces == h.total)) [
    | inl agree ↦ rw agree (fill-Good (get_elem? a.pieces h.index) h a m i v w)
    | inr changed ↦ rw changed (AllEntries-remove Entry h.key m v, λ b e. cc)
  ]

  or_fresh-Entry :
      (h : FragmentHeader) (now : ℕ) (o : Option Assembly)
      → IsPiece h
      → ((a : Assembly) → o ≡ some a → Entry h.key a)
      → Entry h.key (or_fresh h now o)
  unfolding or_fresh
  or_fresh-Entry h now (some a) i v = v a refl
  or_fresh-Entry h now none i v = λ e. rw ((i e).0) (Agrees-replicate ss)

  append-Good :
      (h : FragmentHeader) (now : ℕ) (m : Assembler)
      → IsPiece h
      → AllEntries Entry m
      → Good h (append h now m)
  unfolding append
  append-Good h now m i v =
      by_room (not (is_some (find h.key live)) && leb max_in_flight (length live))
    where
      live : Assembler
      live = expire now m

      kept : AllEntries Entry live
      kept = unfold expire in AllEntries-retain Entry _ m v

      entered : Entry h.key (or_fresh h now (find h.key live))
      entered =
          or_fresh-Entry h now (find h.key live) i
            (λ a e. AllEntries-find Entry h.key live a kept e)

      by_room :
          (full : Bool)
          → Good h (
              if full
              then some (live, rejected "too many assemblies in flight")
              else store_piece h
                  (or_fresh h now (find h.key live))
                  (put h.key (or_fresh h now (find h.key live)) live))
      by_room true = (kept, λ b e. cc)
      by_room false =
          store_piece-Good h _ _ i (AllEntries-put Entry h.key _ live kept entered) entered

-- Fragments that arrive one after the other, each at a time of its own, with what `append` answers.
unfoldable pub deliver :
    List (FragmentHeader × ℕ) → Assembler → Option (Assembler × List (FragmentHeader × Append))
deliver [] m = some (m, [])
deliver ((h, now) ∷ events) m = do
  (m', r) ← append h now m
  (m'', rs) ← deliver events m'
  some (m'', (h, r) ∷ rs)

module _ (k : FragmentKey) (ss : List (List ℕ)) where
  deliver-Good :
      (events : List (FragmentHeader × ℕ)) (m m' : Assembler) (rs : List (FragmentHeader × Append))
      → All (λ e. IsPiece k ss e.0) events
      → AllEntries (Entry k ss) m
      → deliver events m ≡ some (m', rs)
      → All (λ e. Answers k ss e.0 e.1) rs
  unfolding deliver
  deliver-Good [] m m' rs p v e = let r : rs ≡ [] = cc in rw r tt
  deliver-Good ((h, now) ∷ events) m m' rs p v e =
      let ((m1, r), e1, f1) = >>=-eq-some (append h now m) _ e in
      let ((m2, rs2), e2, f2) = >>=-eq-some (deliver events m1) _ f1 in
      let good = rw e1 at (append-Good k ss h now m p.0 v) in
      let shape : rs ≡ (h, r) ∷ rs2 = cc f2 in
      rw shape (good.1, deliver-Good events m1 m2 rs2 p.1 good.0 e2)

  -- From an empty assembler, whatever comes in what order and at what times, repeated or not and
  -- with fragments under other keys in between: if every fragment under a key is a slice of one
  -- body at its place, then any packet that comes out under that key is that body.
  pub deliver_only_body :
      (events : List (FragmentHeader × ℕ)) (m' : Assembler) (rs : List (FragmentHeader × Append))
      → All (λ e. IsPiece k ss e.0) events
      → deliver events [] ≡ some (m', rs)
      → All (λ e. Answers k ss e.0 e.1) rs
  deliver_only_body events m' rs p e = deliver-Good events [] m' rs p tt e
