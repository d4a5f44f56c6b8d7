-- ===== src/Mailbox/Shelf.antt =====
-- What the shelf of src/mailbox.rs keeps to, whatever is deposited, collected and dropped.
use bitmancer.Prelude.{
  ℕ, ◌+◌, ◌-◌, ◌≤◌, ◌<◌, max, ◌≡◌, refl, sym, ap, subst, false, none, some, List, [], ◌∷◌, ◌++◌,
  inl, inr, String, ltb, length, filter, map, length-append, arith, Bool-cases, Option-cases,
}
use bitmancer.Prelude.Keys.{string_eq}
use bitmancer.Prelude.Sets.{contains, IsDistinct, IsDistinct-snoc}
use bitmancer.Prelude.Sublist.{
  Sublist, keep, skip, Sublist_refl, Sublist-length, Sublist-length-filter, Sublist-IsDistinct,
  length-filter-append,
}
use bitmancer.Courier.{Envelope, fingerprint}
use text.Mathlib.TextEquality.{eq_iff}
use bitmancer.Mailbox.{
  Mailbox, Held, Tier, favourite, verified, is_verified, from, in_date, save, prune,
  remove_verified, shed_oldest, make_room, same_mail, refresh,
}

pub save-held : (m : Mailbox) → (save m).held ≡ m.held
unfolding save
save-held m = ground (arith, Bool-cases m.has_path)

pub prune-held : (now : ℕ) (m : Mailbox) → (prune now m).0.held ≡ filter (in_date now) m.held
unfolding prune
prune-held now m =
    elim (Bool-cases (ltb 0 (length m.held - length (filter (in_date now) m.held)))) [
      | inl some_gone ↦ rw some_gone (save-held (record m { held = filter (in_date now) m.held }))
      | inr all_stay ↦ rw all_stay refl
    ]

-- What one slot costs: one item goes, a stranger's if there is one.
pub remove_verified-Sublist :
    (items rest : List Held)
    → remove_verified items ≡ some rest
    → Sublist rest items
      × (length rest + 1 ≡ length items)
      × (length (filter is_verified rest) + 1 ≡ length (filter is_verified items))
unfolding remove_verified
remove_verified-Sublist [] rest h = cc
remove_verified-Sublist (item ∷ items) rest h = elim (Bool-cases (is_verified item)) [
  | inl stranger ↦
      let same : items ≡ rest = ground (arith, stranger, h) in
      rw (← same) (skip (Sublist_refl items), omega arith, rw stranger (omega arith))
  | inr friend ↦ elim (Option-cases (remove_verified items)) [
    | inl nobody ↦ absurd (ground (arith, friend, nobody, h))
    | inr (kept, found) ↦
        let (part, size, strangers) = remove_verified-Sublist items kept found in
        let same : item ∷ kept ≡ rest = ground (arith, friend, found, h) in
        rw (← same) (keep part, omega (arith, size), rw friend strangers)
  ]
]

pub make_room-Sublist :
    (incoming : Tier) (items rest : List Held)
    → make_room incoming items ≡ some rest
    → Sublist rest items × (length rest + 1 ≡ length items)
unfolding make_room
make_room-Sublist incoming items rest h = elim (Option-cases (remove_verified items)) [
  | inl nobody ↦ oldest incoming items (rw (make_room, nobody) at h)
  | inr (kept, found) ↦
      let same : kept ≡ rest = ground (arith, found, h) in
      let (part, size, strangers) = remove_verified-Sublist items kept found in
      rw (← same) (part, size)
]
  where
    oldest :
        (tier : Tier) (xs : List Held)
        → shed_oldest tier xs ≡ some rest
        → Sublist rest xs × (length rest + 1 ≡ length xs)
    oldest favourite [] k = cc
    oldest verified xs k = cc
    oldest favourite (x ∷ xs) k =
        let same : xs ≡ rest = ground (arith, k) in
        rw (← same) (skip (Sublist_refl xs), omega arith)

module _ (sha256 : List ℕ → List ℕ) (hex : List ℕ → String) where
  abbrev pub print_of : Held → String
  print_of item = fingerprint sha256 hex item.envelope

  -- At most 40 items, 20 of them strangers', 5 of one depositor, and no mail twice.
  pub record IsShelf (items : List Held) : Type 0 where
    pub few : length items ≤ 40
    pub few_strangers : length (filter is_verified items) ≤ 20
    pub shares : (depositor : String) → length (filter (from depositor) items) ≤ 5
    pub once : IsDistinct (map print_of items)

  pub Sublist-IsShelf : (xs ys : List Held) → Sublist xs ys → IsShelf ys → IsShelf xs
  Sublist-IsShelf xs ys p h = record {
    few = omega (arith, h.few, Sublist-length xs ys p);
    few_strangers = omega (arith, h.few_strangers, Sublist-length-filter is_verified xs ys p);
    shares = λ d. omega (arith, h.shares d, Sublist-length-filter (from d) xs ys p);
    once = Sublist-IsDistinct print_of xs ys p h.once;
  }

  -- A repeat changes nothing but a copy budget.
  record Refreshed (items items' : List Held) : Type 0 where
    size : length items' ≡ length items
    strangers : length (filter is_verified items') ≡ length (filter is_verified items)
    theirs :
        (depositor : String)
        → length (filter (from depositor) items') ≡ length (filter (from depositor) items)
    prints : map print_of items' ≡ map print_of items

  refresh-Refreshed :
      (envelope : Envelope) (items items' : List Held)
      → refresh sha256 hex envelope items ≡ some items'
      → Refreshed items items'
  unfolding refresh
  refresh-Refreshed envelope [] items' h = cc
  refresh-Refreshed envelope (item ∷ items) items' h =
      elim (Bool-cases (same_mail sha256 hex envelope item)) [
        | inl same ↦
            let result : record item {
              envelope = record item.envelope { copies = max item.envelope.copies envelope.copies };
            }
                  ∷ items
                ≡ items' =
              ground (arith, same, h) in
            rw (← result) (record {
              size = refl;
              strangers = ground arith;
              theirs = λ d. ground arith;
              prints = unfold fingerprint in refl;
            })
        | inr other ↦ elim (Option-cases (refresh sha256 hex envelope items)) [
          | inl nothing ↦ absurd (ground (arith, other, nothing, h))
          | inr (kept, found) ↦
              let r = refresh-Refreshed envelope items kept found in
              let result : item ∷ kept ≡ items' = ground (arith, other, found, h) in
              rw (← result) (record {
                size = omega (arith, r.size);
                strangers = ground (arith, r.strangers);
                theirs = λ d. ground (arith, r.theirs d);
                prints = ap (λ ps. print_of item ∷ ps) r.prints;
              })
        ]
      ]

  pub refresh-none :
      (envelope : Envelope) (items : List Held)
      → refresh sha256 hex envelope items ≡ none
      → contains (map print_of items) (fingerprint sha256 hex envelope) ≡ false
  unfolding refresh contains
  refresh-none envelope [] h = refl
  refresh-none envelope (item ∷ items) h = elim (Bool-cases (same_mail sha256 hex envelope item)) [
    | inl same ↦ absurd (ground (arith, same, h))
    | inr other ↦ elim (Option-cases (refresh sha256 hex envelope items)) [
      | inl nothing ↦ rw other (refresh-none envelope items nothing)
      | inr (kept, found) ↦ absurd (ground (arith, other, found, h))
    ]
  ]

  pub refresh-IsShelf :
      (envelope : Envelope) (items items' : List Held)
      → refresh sha256 hex envelope items ≡ some items'
      → IsShelf items
      → IsShelf items'
  refresh-IsShelf envelope items items' h k =
      let r = refresh-Refreshed envelope items items' h in
      record {
        few = omega (arith, r.size, k.few);
        few_strangers = omega (arith, r.strangers, k.few_strangers);
        shares = λ d. omega (arith, r.theirs d, k.shares d);
        once = subst IsDistinct (sym r.prints) k.once;
      }

  map-append :
      (xs : List Held) (item : Held)
      → map print_of (xs ++ (item ∷ [])) ≡ map print_of xs ++ (print_of item ∷ [])
  map-append [] item = refl
  map-append (y ∷ ys) item = ap (λ ps. print_of y ∷ ps) (map-append ys item)

  -- A new item joins the shelf.
  pub snoc-IsShelf :
      (items : List Held) (item : Held)
      → IsShelf items
      → length items < 40
      → length (filter is_verified (items ++ (item ∷ []))) ≤ 20
      → length (filter (from item.depositor) items) < 5
      → contains (map print_of items) (print_of item) ≡ false
      → IsShelf (items ++ (item ∷ []))
  snoc-IsShelf items item h room strangers share new = record {
    few = omega (arith, length-append items (item ∷ []));
    few_strangers = strangers;
    shares = λ d. shares d;
    once =
        rw (map-append items item)
          (IsDistinct-snoc (map print_of items) (print_of item) h.once new);
  }
    where
      shares : (d : String) → length (filter (from d) (items ++ (item ∷ []))) ≤ 5
      shares d = elim (Bool-cases (from d item)) [
        | inl theirs ↦
            let who : item.depositor ≡ d = (eq_iff item.depositor d).0 theirs in
            rw (length-filter-append (from d) items (item ∷ []))
              (rw theirs (rw (← who) (omega (arith, share))))
        | inr other ↦
            rw (length-filter-append (from d) items (item ∷ []))
              (rw other (omega (arith, h.shares d)))
      ]
