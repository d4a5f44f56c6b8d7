-- ===== src/Mailbox/Deposits.antt =====
-- Deposits on the shelf of src/mailbox.rs.
use bitmancer.Prelude.{
  ℕ, ◌+◌, ◌*◌, ◌%◌, ◌^◌, ◌≤◌, ◌<◌, ◌≡◌, refl, Bool, true, false, not, none, List, [], ◌∷◌, ◌++◌,
  inl, inr, String, ltb, leb, length, filter, map, arith, Bool-cases, Option-cases,
}
use bitmancer.Prelude.Keys.{string_eq}
use bitmancer.Prelude.Sublist.{
  Sublist, Sublist_refl, filter-Sublist, Sublist-length-filter, length-filter-append,
  contains-Sublist,
}
use bitmancer.Courier.{Envelope, is_expired, max_lifetime_seconds}
use bitmancer.Mailbox.{
  Mailbox, Held, Tier, favourite, verified, quota, is_verified, from, in_date, prune, set_enabled,
  wipe, collect, for_tags, make_room, refresh, shelve, accept_new, accept_pruned, accept,
  max_verified_held, max_held, expiry_slack_seconds,
}
use bitmancer.Mailbox.Shelf.{
  save-held, prune-held, make_room-Sublist, print_of, IsShelf, Sublist-IsShelf, refresh-IsShelf,
  refresh-none, snoc-IsShelf,
}

abbrev pub wants_too_long : Envelope → ℕ → Bool
wants_too_long envelope now =
    ltb ((now + (max_lifetime_seconds + expiry_slack_seconds) * 1000) % 2 ^ 64) envelope.expiry_ms

collect-held :
    (tags : List (List ℕ)) (m : Mailbox)
    → (collect tags m).0.held ≡ filter (λ item. not (for_tags tags item)) m.held
unfolding collect
collect-held tags m = go (map (λ item. item.envelope) (filter (for_tags tags) m.held)) refl
  where
    go :
        (theirs : List Envelope)
        → map (λ item. item.envelope) (filter (for_tags tags) m.held) ≡ theirs
        → (collect tags m).0.held ≡ filter (λ item. not (for_tags tags item)) m.held
    go [] h = rw (collect, h) refl
    go (first ∷ others) h =
        rw (collect, h)
          (save-held (record m {
            held = filter (λ item. not (for_tags tags item)) m.held;
            delivered =
                m.delivered
                + length (map (λ (item : Held). item.envelope) (filter (for_tags tags) m.held));
          }))

module _ (sha256 : List ℕ → List ℕ) (hex : List ℕ → String) where
  abbrev pub item_of : Envelope → String → Tier → ℕ → Held
  item_of envelope depositor tier now = record {
    envelope = envelope;
    depositor = depositor;
    tier = tier;
    stored_at_ms = now;
  }

  fits_strangers :
      (tier : Tier) (rest items : List Held) (item : Held)
      → item.tier ≡ tier
      → Sublist rest items
      → length (filter is_verified items) ≤ 20
      → (elim tier [
        | favourite ↦ false
        | verified ↦ leb max_verified_held (length (filter is_verified items))
      ])
        ≡ false
      → length (filter is_verified (rest ++ (item ∷ []))) ≤ 20
  fits_strangers favourite rest items item k p h room =
      let friend : is_verified item ≡ false = rw k refl in
      rw (length-filter-append is_verified rest (item ∷ []))
        (rw friend (omega (arith, Sublist-length-filter is_verified rest items p)))
  fits_strangers verified rest items item k p h room =
      let stranger : is_verified item ≡ true = rw k refl in
      rw (length-filter-append is_verified rest (item ∷ []))
        (rw stranger (ground (arith, Sublist-length-filter is_verified rest items p, room)))

  shelve-IsShelf :
      (envelope : Envelope) (depositor : String) (tier : Tier) (now : ℕ) (m : Mailbox)
      (rest : List Held)
      → Sublist rest m.held
      → length rest < 40
      → IsShelf sha256 hex m.held
      → refresh sha256 hex envelope m.held ≡ none
      → length (filter (from depositor) m.held) < 5
      → (elim tier [
        | favourite ↦ false
        | verified ↦ leb max_verified_held (length (filter is_verified m.held))
      ])
        ≡ false
      → IsShelf sha256 hex (shelve sha256 hex envelope depositor tier now m rest).0.held
  shelve-IsShelf envelope depositor tier now m rest p room h new share strangers =
      let item = item_of envelope depositor tier now in
      rw (save-held (record m { held = rest ++ (item ∷ []) })) (
        snoc-IsShelf sha256 hex rest item (Sublist-IsShelf sha256 hex rest m.held p h) room
          (fits_strangers tier rest m.held item refl p h.few_strangers strangers)
          (omega (arith, share, Sublist-length-filter (from depositor) rest m.held p))
          (contains-Sublist (print_of sha256 hex) (print_of sha256 hex item) rest m.held p
            (refresh-none sha256 hex envelope m.held new)))

  quota_most : (tier : Tier) → quota tier ≤ 5
  quota_most favourite = omega arith
  quota_most verified = omega arith

  accept_new-IsShelf :
      (envelope : Envelope) (depositor : String) (tier : Tier) (now : ℕ) (m : Mailbox)
      → IsShelf sha256 hex m.held
      → refresh sha256 hex envelope m.held ≡ none
      → IsShelf sha256 hex (accept_new sha256 hex envelope depositor tier now m).0.held
  unfolding accept_new
  accept_new-IsShelf envelope depositor tier now m h new =
      elim (Bool-cases (leb (quota tier) (length (filter (from depositor) m.held)))) [
        | inl full ↦ rw full h
        | inr share ↦
            rw share
              (elim (Bool-cases (elim tier [
                | favourite ↦ false
                | verified ↦ leb max_verified_held (length (filter is_verified m.held))
              ])) [
                | inl crowded ↦ rw crowded h
                | inr open_shelf ↦ rw open_shelf (elim (Bool-cases (leb max_held (length m.held))) [
                  | inl packed ↦ rw packed (elim (Option-cases (make_room tier m.held)) [
                    | inl stuck ↦ rw stuck h
                    | inr (rest, freed) ↦
                        let (p, size) = make_room-Sublist tier m.held rest freed in
                        rw freed (
                          shelve-IsShelf envelope depositor tier now m rest p
                            (omega (arith, size, h.few)) h new
                            (ground (arith, share, quota_most tier)) open_shelf)
                  ])
                  | inr room ↦ rw room (
                      shelve-IsShelf envelope depositor tier now m m.held (Sublist_refl m.held)
                        (ground (arith, room)) h new (ground (arith, share, quota_most tier))
                        open_shelf)
                ])
              ])
      ]

  pub accept_pruned-IsShelf :
      (envelope : Envelope) (depositor : String) (tier : Tier) (now : ℕ) (m : Mailbox)
      → IsShelf sha256 hex m.held
      → IsShelf sha256 hex (accept_pruned sha256 hex envelope depositor tier now m).0.held
  unfolding accept_pruned
  accept_pruned-IsShelf envelope depositor tier now m h =
      elim (Option-cases (refresh sha256 hex envelope m.held)) [
        | inl new ↦ rw (accept_pruned, new) (accept_new-IsShelf envelope depositor tier now m h new)
        | inr (items, found) ↦
            rw (accept_pruned, found)
              (rw (save-held (record m { held = items }))
                (refresh-IsShelf sha256 hex envelope m.held items found h))
      ]

  prune-IsShelf :
      (now : ℕ) (m : Mailbox) → IsShelf sha256 hex m.held → IsShelf sha256 hex (prune now m).0.held
  prune-IsShelf now m h = rw (prune-held now m) (
      Sublist-IsShelf sha256 hex (filter (in_date now) m.held) m.held
        (filter-Sublist (in_date now) m.held) h)

  accept-IsShelf :
      (envelope : Envelope) (depositor : String) (tier : Tier) (now : ℕ) (m : Mailbox)
      → IsShelf sha256 hex m.held
      → IsShelf sha256 hex (accept sha256 hex envelope depositor tier now m).0.held
  unfolding accept
  accept-IsShelf envelope depositor tier now m h = elim (Bool-cases (not m.enabled)) [
    | inl off ↦ rw (accept, off) h
    | inr on ↦ elim (Bool-cases (is_expired envelope now)) [
      | inl late ↦ rw (accept, on, late) h
      | inr timely ↦ elim (Bool-cases (wants_too_long envelope now)) [
        | inl long ↦ rw (accept, on, timely, long) h
        | inr short ↦
            rw (accept, on, timely, short)
              (accept_pruned-IsShelf envelope depositor tier now (prune now m).0
                (prune-IsShelf now m h))
      ]
    ]
  ]

  collect-IsShelf :
      (tags : List (List ℕ)) (m : Mailbox)
      → IsShelf sha256 hex m.held
      → IsShelf sha256 hex (collect tags m).0.held
  collect-IsShelf tags m h = rw (collect-held tags m) (
      Sublist-IsShelf sha256 hex _ m.held (filter-Sublist (λ item. not (for_tags tags item)) m.held)
        h)

  -- The calls of a mailbox.
  pub data Call : Type 0 where
    depositing : Envelope → String → Tier → ℕ → Call
    collecting : List (List ℕ) → Call
    pruning : ℕ → Call
    switching : Bool → Call
    wiping : Call

  unfoldable pub serve : Call → Mailbox → Mailbox
  serve (depositing envelope depositor tier now) m =
      (accept sha256 hex envelope depositor tier now m).0
  serve (collecting tags) m = (collect tags m).0
  serve (pruning now) m = (prune now m).0
  serve (switching on) m = (set_enabled on m).0
  serve wiping m = wipe m

  unfoldable pub run : List Call → Mailbox → Mailbox
  run [] m = m
  run (c ∷ cs) m = run cs (serve c m)

  empty-IsShelf : IsShelf sha256 hex []
  empty-IsShelf = record {
    few = omega arith;
    few_strangers = omega arith;
    shares = λ d. omega arith;
    once = tt;
  }

  serve-IsShelf :
      (c : Call) (m : Mailbox) → IsShelf sha256 hex m.held → IsShelf sha256 hex (serve c m).held
  unfolding serve
  serve-IsShelf (depositing envelope depositor tier now) m h =
      accept-IsShelf envelope depositor tier now m h
  serve-IsShelf (collecting tags) m h = collect-IsShelf tags m h
  serve-IsShelf (pruning now) m h = prune-IsShelf now m h
  serve-IsShelf (switching true) m h = unfold set_enabled in h
  serve-IsShelf (switching false) m h =
      unfold set_enabled in rw (save-held (record m { enabled = false; held = [] })) empty-IsShelf
  serve-IsShelf wiping m h = unfold wipe in empty-IsShelf

  -- Whatever is deposited, collected, pruned, switched and wiped, in whatever order: from a shelf within
  -- its limits on, the shelf holds at most 40 envelopes, at most 20 of them from peers who are no
  -- favourites and at most 5 from one depositor, and no mail twice.
  pub run-IsShelf :
      (cs : List Call) (m : Mailbox)
      → IsShelf sha256 hex m.held
      → IsShelf sha256 hex (run cs m).held
  unfolding run
  run-IsShelf [] m h = h
  run-IsShelf (c ∷ cs) m h = run-IsShelf cs (serve c m) (serve-IsShelf c m h)
