-- ===== src/Fragment/Bounds.antt =====
-- The assembler of src/fragment.rs stays within its bounds and does not panic.
use bitmancer.Prelude.{
  ℕ, zero, suc, ◌+◌, ◌-◌, ◌≤◌, ◌<◌, ◌≡◌, refl, inl, inr, Option, none, some, List, [], ◌∷◌, ◌++◌,
  ltb, leb, ◌==◌, length, get_elem?, set, replicate, arith, Bool-cases, Option-cases, length-append,
  length-set, length-replicate,
}
use bitmancer.Prelude.Table.{
  find, put, remove, AllEntries, AllEntries-find, AllEntries-put, AllEntries-remove,
  AllEntries-retain, length-put, length-remove, length-retain, find-put_self,
}
use bitmancer.Fragment.{
  key_eq, FragmentHeader, Assembly, Assembler, Append, pending, complete, expire, or_fresh, join,
  with_piece, finish, fill, store_piece, append, max_assembled_bytes, max_in_flight, max_fragments,
}

-- The number of pieces that are there, and of their bytes.
unfoldable pub count_some : List (Option (List ℕ)) → ℕ
count_some [] = 0
count_some (none ∷ ps) = count_some ps
count_some (some p ∷ ps) = count_some ps + 1

unfoldable pub total_bytes : List (Option (List ℕ)) → ℕ
total_bytes [] = 0
total_bytes (none ∷ ps) = total_bytes ps
total_bytes (some p ∷ ps) = length p + total_bytes ps

pub record IsAssembly (a : Assembly) : Type 0 where
  pub counted : count_some a.pieces ≡ a.received
  pub incomplete : a.received < length a.pieces
  pub measured : total_bytes a.pieces ≡ a.bytes
  pub bounded : a.bytes ≤ max_assembled_bytes
  pub short : length a.pieces ≤ max_fragments

pub record IsAssembler (m : Assembler) : Type 0 where
  pub entries : AllEntries (λ k a. IsAssembly a) m
  pub few : length m ≤ max_in_flight

-- What `parse` guarantees.
pub record IsHeader (h : FragmentHeader) : Type 0 where
  pub in_range : h.index < h.total
  pub bounded : h.total ≤ max_fragments

pub count_some-set :
    (ps : List (Option (List ℕ))) (i : ℕ) (p : List ℕ)
    → get_elem? ps i ≡ some none
    → (count_some (set ps i (some p)) ≡ count_some ps + 1)
      × (total_bytes (set ps i (some p)) ≡ total_bytes ps + length p)
unfolding count_some total_bytes
count_some-set [] i p h = cc
count_some-set (none ∷ ps) zero p h = omega arith
count_some-set (some q ∷ ps) zero p h = cc
count_some-set (none ∷ ps) (suc i) p h = omega (arith, count_some-set ps i p h)
count_some-set (some q ∷ ps) (suc i) p h = omega (arith, count_some-set ps i p h)

count_some-le : (ps : List (Option (List ℕ))) → count_some ps ≤ length ps
unfolding count_some
count_some-le [] = omega arith
count_some-le (none ∷ ps) = omega (arith, count_some-le ps)
count_some-le (some p ∷ ps) = omega (arith, count_some-le ps)

-- Where no piece is missing, they are joined.
pub join_total :
    (ps : List (Option (List ℕ)))
    → length ps ≤ count_some ps
    → (bytes : List ℕ) × (join ps ≡ some bytes) × (length bytes ≡ total_bytes ps)
unfolding count_some total_bytes join
join_total [] h = ([], refl, refl)
join_total (none ∷ ps) h = absurd (omega (arith, count_some-le ps))
join_total (some p ∷ ps) h =
    let (rest, e, l) = join_total ps (omega arith) in
    (p ++ rest, rw e, omega (arith, length-append p rest, l))

count_some-replicate :
    (n : ℕ) → (count_some (replicate n none) ≡ 0) × (total_bytes (replicate n none) ≡ 0)
unfolding count_some total_bytes
count_some-replicate zero = (refl, refl)
count_some-replicate (suc n) = count_some-replicate n

pub or_fresh-IsAssembly :
    (h : FragmentHeader) (now : ℕ) (o : Option Assembly)
    → IsHeader h
    → ((a : Assembly) → o ≡ some a → IsAssembly a)
    → IsAssembly (or_fresh h now o)
unfolding or_fresh
or_fresh-IsAssembly h now (some a) ok v = v a refl
or_fresh-IsAssembly h now none ok v = record {
  counted = (count_some-replicate h.total).0;
  incomplete = omega (arith, ok.in_range, length-replicate {0} {A = Option (List ℕ)} h.total none);
  measured = (count_some-replicate h.total).1;
  bounded = omega arith;
  short = omega (arith, ok.bounded, length-replicate {0} {A = Option (List ℕ)} h.total none);
}

-- The result of a call that does not panic and keeps the invariant.
abbrev pub Keeps : Option (Assembler × Append) → Type 0
Keeps o = (m : Assembler) × (r : Append) × (o ≡ some (m, r)) × IsAssembler m

finish-Keeps :
    (h : FragmentHeader) (a : Assembly) (m : Assembler)
    → IsAssembler m
    → count_some a.pieces ≡ a.received
    → total_bytes a.pieces ≡ a.bytes
    → a.bytes ≤ max_assembled_bytes
    → length a.pieces ≤ max_fragments
    → (b : Assembly) → find h.key m ≡ some b
    → Keeps (finish h a m)
unfolding finish
finish-Keeps h a m v counted measured bounded short b there =
    elim (Bool-cases (ltb a.received (length a.pieces))) [
      | inl more ↦ (
        put h.key a m,
        pending a.received (length a.pieces),
        rw more,
        record {
          entries = AllEntries-put _ h.key a m v.entries (record {
            counted = counted;
            incomplete = ground (arith, more);
            measured = measured;
            bounded = bounded;
            short = short;
          });
          few = ground (arith, length-put h.key a m, there, v.few);
        },
      )
      | inr whole ↦
          let (bytes, e, l) = join_total a.pieces (ground (arith, whole, counted)) in
          (
            remove h.key m,
            complete bytes,
            rw (whole, e),
            record {
              entries = AllEntries-remove _ h.key m v.entries;
              few = omega (arith, length-remove h.key m, v.few);
            },
          )
    ]

get_elem?_in_range {ℓ} :
    {A : Type ℓ} (xs : List A) (i : ℕ) → i < length xs → (x : A) × (get_elem? xs i ≡ some x)
get_elem?_in_range [] i h = absurd (omega arith)
get_elem?_in_range (x ∷ xs) zero h = (x, refl)
get_elem?_in_range (x ∷ xs) (suc i) h = get_elem?_in_range xs i (omega arith)

removed-IsAssembler :
    (h : FragmentHeader) (m : Assembler) → IsAssembler m → IsAssembler (remove h.key m)
removed-IsAssembler h m v = record {
  entries = AllEntries-remove _ h.key m v.entries;
  few = omega (arith, length-remove h.key m, v.few);
}

fill-Keeps :
    (slot : Option (List ℕ)) (h : FragmentHeader) (a : Assembly) (m : Assembler)
    → IsAssembler m
    → IsAssembly a
    → find h.key m ≡ some a
    → get_elem? a.pieces h.index ≡ some slot
    → Keeps (fill (some slot) h a m)
unfolding fill
fill-Keeps (some piece) h a m v w there at = (m, _, refl, v)
fill-Keeps none h a m v w there at =
    elim (Bool-cases (ltb max_assembled_bytes (a.bytes + length h.content))) [
      | inl over ↦ rw over (remove h.key m, _, refl, removed-IsAssembler h m v)
      | inr within ↦
          let set_lem = count_some-set a.pieces h.index h.content at in
          rw within (
            finish-Keeps h (with_piece h a) m v (omega (arith, set_lem.0, w.counted))
              (omega (arith, set_lem.1, w.measured)) (ground (arith, within))
              (omega (arith, length-set a.pieces h.index (some h.content), w.short)) a there)
    ]

store_piece-Keeps :
    (h : FragmentHeader) (a : Assembly) (m : Assembler)
    → IsHeader h
    → IsAssembler m
    → IsAssembly a
    → find h.key m ≡ some a
    → Keeps (store_piece h a m)
unfolding store_piece
store_piece-Keeps h a m ok v w there = elim (Bool-cases (length a.pieces == h.total)) [
  | inl agree ↦
      let (slot, at) = get_elem?_in_range a.pieces h.index (ground (arith, agree, ok.in_range)) in
      rw (agree, at) (fill-Keeps slot h a m v w there at)
  | inr changed ↦ rw changed (remove h.key m, _, refl, removed-IsAssembler h m v)
]

expire-IsAssembler : (now : ℕ) (m : Assembler) → IsAssembler m → IsAssembler (expire now m)
unfolding expire
expire-IsAssembler now m v = record {
  entries = AllEntries-retain _ _ m v.entries;
  few = omega (arith, length-retain (λ a. ltb (now - a.started) 30000000000) m, v.few);
}

-- From a well-formed state, a fragment as `parse` yields it is taken in without a panic, and the
-- state is well formed again: at most 128 assemblies, each short of at least one piece, with its
-- pieces and bytes counted right, and with no more bytes than the limit.
pub append-IsAssembler :
    (h : FragmentHeader) (now : ℕ) (state : Assembler)
    → IsHeader h
    → IsAssembler state
    → (state' : Assembler) × (r : Append) × (append h now state ≡ some (state', r))
      × IsAssembler state'
unfolding append or_fresh
append-IsAssembler h now state ok v = elim (Option-cases (find h.key live)) [
  | inl e ↦ elim (Bool-cases (leb max_in_flight (length live))) [
    | inl full ↦ rw (e, full) (live, _, refl, w)
    | inr room ↦
        rw (e, room)
          (store_piece-Keeps h (or_fresh h now none) (put h.key (or_fresh h now none) live) ok
            (entered none (or_fresh-IsAssembly h now none ok (λ a f. cc))
              (ground (arith, room, length-put h.key (or_fresh h now none) live, e)))
            (or_fresh-IsAssembly h now none ok (λ a f. cc)) (find-put_self h.key _ live))
  ]
  | inr (a, e) ↦
      let held = AllEntries-find (λ k a. IsAssembly a) h.key live a w.entries e in
      rw e (
        store_piece-Keeps h a (put h.key a live) ok
          (entered (some a) (unfold or_fresh in held)
            (unfold or_fresh in ground (arith, w.few, length-put h.key a live, e)))
          held (find-put_self h.key a live))
]
  where
    live : Assembler
    live = expire now state

    w : IsAssembler live
    w = expire-IsAssembler now state v

    entered :
        (o : Option Assembly)
        → IsAssembly (or_fresh h now o)
        → length (put h.key (or_fresh h now o) live) ≤ 128
        → IsAssembler (put h.key (or_fresh h now o) live)
    entered o ia few = record { entries = AllEntries-put _ h.key _ live w.entries ia; few = few }
