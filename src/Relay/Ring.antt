-- ===== src/Relay/Ring.antt =====
-- The set of forwarded packets of src/relay.rs: what `accept` remembers, and for how long.
use bitmancer.Prelude.{
  ℕ, ◌+◌, ◌≤◌, ◌<◌, ◌≡◌, ◌∙◌, inl, inr, true, false, Option, List, [], ◌∷◌, ◌++◌, ltb, ◌==◌,
  if◌then◌else◌, length, arith, Bool-cases, length-append,
}
use bitmancer.Prelude.Keys.{nat_eq}
use bitmancer.Prelude.Sets.{
  IsDistinct, IsDistinct-snoc, contains, contains-insert, contains-erase, contains-append,
}
use bitmancer.Protocol.Message.{Packet}
use bitmancer.Relay.{
  Forwarded, push, drop_oldest, accept_digest, Hasher, digest, accept, forwarded_limit,
}

-- The set and the queue hold the same digests, each once, and no more than the limit.
pub record IsRing (f : Forwarded) : Type 0 where
  pub same : (d : ℕ) → contains f.seen d ≡ contains f.order d
  pub distinct : IsDistinct f.order
  pub bounded : length f.order ≤ 1024

drop_oldest-IsRing :
    (xs : List ℕ) (f : Forwarded)
    → ((d : ℕ) → contains f.seen d ≡ contains xs d)
    → IsDistinct xs
    → length xs ≤ 1025
    → 0 < length xs
    → IsRing (drop_oldest xs f)
unfolding drop_oldest
drop_oldest-IsRing [] f same distinct fits h = absurd (omega arith)
drop_oldest-IsRing (x ∷ xs) f same distinct fits h = record {
  same = λ d. rw contains-erase (unfold contains in ground (arith, same d, distinct.0));
  distinct = distinct.1;
  bounded = omega arith;
}

push-same :
    (e : ℕ) (f : Forwarded)
    → IsRing f
    → (d : ℕ) → contains (push e f).seen d ≡ contains (push e f).order d
unfolding push
push-same e f h d =
    rw (contains-insert, contains-append) (unfold contains in ground (arith, h.same d))

push-IsDistinct :
    (e : ℕ) (f : Forwarded) → IsRing f → contains f.seen e ≡ false → IsDistinct (push e f).order
unfolding push
push-IsDistinct e f h new = IsDistinct-snoc f.order e h.distinct (cc (h.same e, new))

length-push : (e : ℕ) (f : Forwarded) → length (push e f).order ≡ length f.order + 1
unfolding push
length-push e f = omega (arith, length-append f.order (e ∷ []))

-- `accept` keeps the set and the queue together and within 1,024 entries.
pub accept_digest-IsRing : (e : ℕ) (f : Forwarded) → IsRing f → IsRing (accept_digest e f).0
unfolding accept_digest
accept_digest-IsRing e f h = elim (Bool-cases (contains f.seen e)) [
  | inl old ↦ rw old h
  | inr new ↦ rw new (elim (Bool-cases (ltb forwarded_limit (length (push e f).order))) [
    | inl over ↦ rw over (
        drop_oldest-IsRing (push e f).order (push e f) (push-same e f h) (push-IsDistinct e f h new)
          (omega (arith, length-push e f, h.bounded)) (omega (arith, length-push e f)))
    | inr within ↦ rw within (record {
      same = push-same e f h;
      distinct = push-IsDistinct e f h new;
      bounded = ground (arith, within);
    })
  ])
]

-- How many elements stand behind the first occurrence.
behind : ℕ → List ℕ → ℕ
behind d [] = 0
behind d (x ∷ xs) = if x == d then length xs else behind d xs

behind-append :
    (d e : ℕ) (xs : List ℕ) → contains xs d ≡ true → behind d (xs ++ (e ∷ [])) ≡ behind d xs + 1
unfolding contains behind
behind-append d e [] h = cc
behind-append d e (x ∷ xs) h = ground (arith, behind-append d e xs, length-append xs (e ∷ []))

-- A digest that is remembered, with at most `k` younger ones.
record IsHeld (d k : ℕ) (f : Forwarded) : Type 0 where
  queued : contains f.order d ≡ true
  young : behind d f.order ≤ k

drop_oldest-IsHeld :
    (d k : ℕ) (xs : List ℕ) (f : Forwarded)
    → contains xs d ≡ true
    → behind d xs ≤ k
    → k + 1 < length xs
    → IsHeld d k (drop_oldest xs f)
unfolding drop_oldest contains behind
drop_oldest-IsHeld d k [] f h b l = absurd (omega arith)
drop_oldest-IsHeld d k (x ∷ xs) f h b l = record { queued = ground arith; young = ground arith }

accept_digest-IsHeld :
    (d k e : ℕ) (f : Forwarded)
    → IsRing f
    → IsHeld d k f
    → k + 1 < 1024
    → IsHeld d (k + 1) (accept_digest e f).0
unfolding accept_digest
accept_digest-IsHeld d k e f r h room = elim (Bool-cases (contains f.seen e)) [
  | inl old ↦ rw old (record { queued = h.queued; young = omega (arith, h.young) })
  | inr new ↦ rw new (elim (Bool-cases (ltb forwarded_limit (length (push e f).order))) [
    | inl over ↦
        rw over (
          drop_oldest-IsHeld d (k + 1) (push e f).order (push e f) here fresh
            (ground (arith, over)))
    | inr within ↦ rw within (record { queued = here; young = fresh })
  ])
]
  where
    here : contains (push e f).order d ≡ true
    here = unfold push in rw contains-append (ground (arith, h.queued))

    fresh : behind d (push e f).order ≤ k + 1
    fresh = unfold push in omega (arith, behind-append d e f.order h.queued, h.young)

behind-append_new : (d : ℕ) (xs : List ℕ) → contains xs d ≡ false → behind d (xs ++ (d ∷ [])) ≡ 0
unfolding contains behind
behind-append_new d [] h = ground arith
behind-append_new d (x ∷ xs) h = ground (arith, behind-append_new d xs)

accept-IsHeld :
    (d : ℕ) (f : Forwarded)
    → IsRing f
    → contains f.seen d ≡ false
    → IsHeld d 0 (accept_digest d f).0
unfolding accept_digest
accept-IsHeld d f r new =
    rw new (elim (Bool-cases (ltb forwarded_limit (length (push d f).order))) [
      | inl over ↦ rw over (
          drop_oldest-IsHeld d 0 (push d f).order (push d f) here (omega (arith, fresh))
            (ground (arith, over)))
      | inr within ↦ rw within (record { queued = here; young = omega (arith, fresh) })
    ])
  where
    here : contains (push d f).order d ≡ true
    here = unfold push contains in rw contains-append (ground arith)

    fresh : behind d (push d f).order ≡ 0
    fresh = unfold push in behind-append_new d f.order (cc (r.same d, new))

first_is_new : (d : ℕ) (f : Forwarded) → (accept_digest d f).1 ≡ true → contains f.seen d ≡ false
unfolding accept_digest
first_is_new d f h = ground arith

seen_is_refused :
    (d : ℕ) (f : Forwarded) → contains f.seen d ≡ true → accept_digest d f ≡ (f, false)
unfolding accept_digest
seen_is_refused d f h = rw h

module _ (hash : Hasher) where
  -- The packets that follow, in order.
  unfoldable pub accept_all : List Packet → Forwarded → Forwarded
  accept_all [] f = f
  accept_all (p ∷ ps) f = accept_all ps (accept hash p f).0

  accept_all-IsHeld :
      (d k : ℕ) (ps : List Packet) (f : Forwarded)
      → IsRing f
      → IsHeld d k f
      → k + length ps < 1024
      → IsRing (accept_all ps f) × IsHeld d (k + length ps) (accept_all ps f)
  unfolding accept_all accept
  accept_all-IsHeld d k [] f r h room =
      (r, record { queued = h.queued; young = omega (arith, h.young) })
  accept_all-IsHeld d k (p ∷ ps) f r h room =
      let (r', h') =
        accept_all-IsHeld d (k + 1) ps (accept_digest (digest hash p) f).0
          (accept_digest-IsRing (digest hash p) f r)
          (accept_digest-IsHeld d k (digest hash p) f r h (omega arith)) (omega arith) in
      (r', record { queued = h'.queued; young = omega (arith, h'.young) })

  -- From a well-formed state, once a packet is accepted, a copy with any hop count, signature and
  -- route is refused, and changes nothing, as long as at most 1,023 packets came in between.
  pub copy_refused :
      (f : Forwarded) (p : Packet) (ps : List Packet) (ttl : ℕ) (signature : Option (List ℕ))
      (route : Option (List (List ℕ)))
      → IsRing f
      → (accept hash p f).1 ≡ true
      → length ps ≤ 1023
      → let later = accept_all ps (accept hash p f).0 in
        accept hash (record p { ttl = ttl; signature = signature; route = route }) later
        ≡ (later, false)
  unfolding accept digest
  copy_refused f p ps ttl signature route r first few =
      let (r', h') =
        accept_all-IsHeld (digest hash p) 0 ps _ (accept_digest-IsRing _ f r)
          (accept-IsHeld (digest hash p) f r (first_is_new (digest hash p) f first))
          (omega arith) in
      seen_is_refused (digest hash p) _ (r'.same (digest hash p) ∙ h'.queued)
