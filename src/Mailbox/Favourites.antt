-- ===== src/Mailbox/Favourites.antt =====
-- A stranger's deposit never costs a favourite's mail (src/mailbox.rs).
use bitmancer.Prelude.{
  ℕ, ◌≡◌, refl, ◌∙◌, ap, true, not, some, List, [], ◌∷◌, ◌++◌, inl, inr, String, leb, length,
  filter, arith, Bool-cases, Option-cases,
}
use bitmancer.Courier.{Envelope, is_expired}
use bitmancer.Mailbox.{
  Mailbox, Held, verified, accepted, quota, is_verified, from, in_date, prune, remove_verified,
  make_room, refresh, shelve, accept_new, accept_pruned, accept, max_held, max_verified_held,
}
use bitmancer.Mailbox.Shelf.{save-held, prune-held}
use bitmancer.Mailbox.Deposits.{wants_too_long, item_of}

-- The mail of favourites, in its order.
unfoldable pub favourites : List Held → List Held
favourites items = filter (λ item. not (is_verified item)) items

remove_verified-favourites :
    (items rest : List Held)
    → remove_verified items ≡ some rest
    → favourites rest ≡ favourites items
unfolding remove_verified favourites
remove_verified-favourites [] rest h = cc
remove_verified-favourites (item ∷ items) rest h = elim (Bool-cases (is_verified item)) [
  | inl stranger ↦
      let same : items ≡ rest = ground (arith, stranger, h) in rw (← same) (rw stranger refl)
  | inr friend ↦ elim (Option-cases (remove_verified items)) [
    | inl nobody ↦ absurd (ground (arith, friend, nobody, h))
    | inr (kept, found) ↦
        let same : item ∷ kept ≡ rest = ground (arith, friend, found, h) in
        rw (← same) (rw friend (ap (λ l. item ∷ l) (remove_verified-favourites items kept found)))
  ]
]

favourites-snoc :
    (items : List Held) (item : Held)
    → is_verified item ≡ true
    → favourites (items ++ (item ∷ [])) ≡ favourites items
unfolding favourites
favourites-snoc [] item h = rw h refl
favourites-snoc (first ∷ items) item h = ground (arith, favourites-snoc items item h)

module _ (sha256 : List ℕ → List ℕ) (hex : List ℕ → String) where
  shelve-favourites :
      (envelope : Envelope) (depositor : String) (now : ℕ) (m : Mailbox) (rest : List Held)
      → favourites rest ≡ favourites m.held
      → favourites (shelve sha256 hex envelope depositor verified now m rest).0.held
        ≡ favourites m.held
  shelve-favourites envelope depositor now m rest h =
      ap favourites (
        save-held
          (record m { held = rest ++ (item_of sha256 hex envelope depositor verified now ∷ []) }))
      ∙ favourites-snoc rest (item_of sha256 hex envelope depositor verified now) refl
      ∙ h

  accept_new-favourites :
      (envelope : Envelope) (depositor : String) (now : ℕ) (m : Mailbox)
      → favourites (accept_new sha256 hex envelope depositor verified now m).0.held
        ≡ favourites m.held
  unfolding accept_new make_room
  accept_new-favourites envelope depositor now m =
      elim (Bool-cases (leb (quota verified) (length (filter (from depositor) m.held)))) [
        | inl full ↦ rw full refl
        | inr share ↦
            rw share
              (elim (Bool-cases (leb max_verified_held (length (filter is_verified m.held)))) [
                | inl crowded ↦ rw crowded refl
                | inr open_shelf ↦ rw open_shelf (elim (Bool-cases (leb max_held (length m.held))) [
                  | inl packed ↦ rw packed (elim (Option-cases (remove_verified m.held)) [
                    | inl stuck ↦ rw stuck refl
                    | inr (rest, freed) ↦ rw freed (
                        shelve-favourites envelope depositor now m rest
                          (remove_verified-favourites m.held rest freed))
                  ])
                  | inr room ↦ rw room (shelve-favourites envelope depositor now m m.held refl)
                ])
              ])
      ]

  accept_pruned-favourites :
      (envelope : Envelope) (depositor : String) (now : ℕ) (m : Mailbox)
      → (accept_pruned sha256 hex envelope depositor verified now m).1 ≡ accepted
      → favourites (accept_pruned sha256 hex envelope depositor verified now m).0.held
        ≡ favourites m.held
  unfolding accept_pruned
  accept_pruned-favourites envelope depositor now m h =
      elim (Option-cases (refresh sha256 hex envelope m.held)) [
        | inr (items, found) ↦ absurd (ground (arith, found, h))
        | inl new ↦ rw (accept_pruned, new) (accept_new-favourites envelope depositor now m)
      ]

  -- When a deposit from a peer who is no favourite is put on the shelf, the favourites' mail that is
  -- still in date stays there, all of it and in its order.
  pub stranger_spares_favourites :
      (envelope : Envelope) (depositor : String) (now : ℕ) (m : Mailbox)
      → (accept sha256 hex envelope depositor verified now m).1 ≡ accepted
      → favourites (accept sha256 hex envelope depositor verified now m).0.held
        ≡ favourites (filter (in_date now) m.held)
  unfolding accept
  stranger_spares_favourites envelope depositor now m h = elim (Bool-cases (not m.enabled)) [
    | inl off ↦ absurd (ground (arith, off, h))
    | inr on ↦ elim (Bool-cases (is_expired envelope now)) [
      | inl late ↦ absurd (ground (arith, on, late, h))
      | inr timely ↦ elim (Bool-cases (wants_too_long envelope now)) [
        | inl long ↦ absurd (ground (arith, on, timely, long, h))
        | inr short ↦
            rw (on, timely, short)
              (accept_pruned-favourites envelope depositor now (prune now m).0
                  (ground (arith, on, timely, short, h))
                ∙ ap favourites (prune-held now m))
      ]
    ]
  ]
