-- ===== src/Gateway/Seen.antt =====
-- The bounded memory of event identifiers of src/gateway.rs: what it holds, and for how long.
use bitmancer.Prelude.{
  ℕ, ◌+◌, ◌≤◌, ◌<◌, ◌≡◌, inl, inr, true, false, List, [], ◌∷◌, ◌++◌, String, ltb, if◌then◌else◌,
  length, arith, Bool-cases, length-append,
}
use bitmancer.Prelude.Keys.{◌=?◌, string_eq, beq_refl}
use bitmancer.Prelude.Sets.{
  IsDistinct, IsDistinct-snoc, contains, insert, contains-insert, contains-erase, contains-append,
}
use text.Mathlib.TextEquality.{eq_iff}
use bitmancer.Gateway.{SeenIds, drop_oldest_id, note_id, max_tracked_ids}

-- The set and the queue hold the same identifiers, each once, and no more than the limit.
pub record IsSeen (s : SeenIds) : Type 0 where
  pub same : (d : String) → contains s.ids d ≡ contains s.order d
  pub distinct : IsDistinct s.order
  pub bounded : length s.order ≤ 512

drop_oldest_id-IsSeen :
    (ids order : List String)
    → ((d : String) → contains ids d ≡ contains order d)
    → IsDistinct order
    → length order ≤ 513
    → 0 < length order
    → IsSeen (drop_oldest_id ids order)
unfolding drop_oldest_id
drop_oldest_id-IsSeen ids [] same distinct fits h = absurd (omega arith)
drop_oldest_id-IsSeen ids (x ∷ xs) same distinct fits h = record {
  same = λ d. rw contains-erase (unfold contains in ground (arith, same d, distinct.0, eq_iff x d));
  distinct = distinct.1;
  bounded = omega arith;
}

pushed-same :
    (id : String) (s : SeenIds)
    → IsSeen s
    → (d : String) → contains (insert id s.ids) d ≡ contains (s.order ++ (id ∷ [])) d
pushed-same id s h d =
    rw (contains-insert, contains-append) (unfold contains in ground (arith, h.same d))

pub note_id-IsSeen : (id : String) (s : SeenIds) → IsSeen s → IsSeen (note_id id s)
unfolding note_id
note_id-IsSeen id s h = elim (Bool-cases (contains s.ids id)) [
  | inl old ↦ rw old h
  | inr new ↦
      let distinct : IsDistinct (s.order ++ (id ∷ [])) =
        IsDistinct-snoc s.order id h.distinct (cc (h.same id, new)) in
      rw new (elim (Bool-cases (ltb max_tracked_ids (length (s.order ++ (id ∷ []))))) [
        | inl over ↦ rw over (
            drop_oldest_id-IsSeen (insert id s.ids) (s.order ++ (id ∷ [])) (pushed-same id s h)
              distinct (omega (arith, length-append s.order (id ∷ []), h.bounded))
              (omega (arith, length-append s.order (id ∷ []))))
        | inr within ↦ rw within (record {
          same = pushed-same id s h;
          distinct = distinct;
          bounded = ground (arith, within);
        })
      ])
]

-- How many identifiers stand behind the first occurrence.
unfoldable pub behind : String → List String → ℕ
behind d [] = 0
behind d (x ∷ xs) = if x =? d then length xs else behind d xs

behind-append :
    (d id : String) (xs : List String)
    → contains xs d ≡ true
    → behind d (xs ++ (id ∷ [])) ≡ behind d xs + 1
unfolding contains behind
behind-append d id [] h = cc
behind-append d id (x ∷ xs) h = ground (arith, behind-append d id xs, length-append xs (id ∷ []))

-- An identifier that is remembered, with at most `k` younger ones.
pub record IsRecent (d : String) (k : ℕ) (s : SeenIds) : Type 0 where
  pub known : contains s.order d ≡ true
  pub young : behind d s.order ≤ k

drop_oldest_id-IsRecent :
    (d : String) (k : ℕ) (ids order : List String)
    → contains order d ≡ true
    → behind d order ≤ k
    → k + 1 < length order
    → IsRecent d k (drop_oldest_id ids order)
unfolding drop_oldest_id contains behind
drop_oldest_id-IsRecent d k ids [] h b l = absurd (omega arith)
drop_oldest_id-IsRecent d k ids (x ∷ xs) h b l = record {
  known = ground arith;
  young = ground arith;
}

pub note_id-IsRecent :
    (d : String) (k : ℕ) (id : String) (s : SeenIds)
    → IsRecent d k s
    → k + 1 < 512
    → IsRecent d (k + 1) (note_id id s)
unfolding note_id
note_id-IsRecent d k id s h room = elim (Bool-cases (contains s.ids id)) [
  | inl old ↦ rw old (record { known = h.known; young = omega (arith, h.young) })
  | inr new ↦ rw new (elim (Bool-cases (ltb max_tracked_ids (length (s.order ++ (id ∷ []))))) [
    | inl over ↦ rw over (
        drop_oldest_id-IsRecent d (k + 1) (insert id s.ids) (s.order ++ (id ∷ [])) here fresh
          (ground (arith, over)))
    | inr within ↦ rw within (record { known = here; young = fresh })
  ])
]
  where
    here : contains (s.order ++ (id ∷ [])) d ≡ true
    here = rw contains-append (ground (arith, h.known))

    fresh : behind d (s.order ++ (id ∷ [])) ≤ k + 1
    fresh = omega (arith, behind-append d id s.order h.known, h.young)

behind-append_new :
    (d : String) (xs : List String) → contains xs d ≡ false → behind d (xs ++ (d ∷ [])) ≡ 0
unfolding contains behind
behind-append_new d [] h = ground (arith, beq_refl d)
behind-append_new d (x ∷ xs) h = ground (arith, behind-append_new d xs)

pub note_id-IsRecent_new :
    (d : String) (s : SeenIds) → IsSeen s → contains s.ids d ≡ false → IsRecent d 0 (note_id d s)
unfolding note_id
note_id-IsRecent_new d s r new =
    rw new (elim (Bool-cases (ltb max_tracked_ids (length (s.order ++ (d ∷ []))))) [
      | inl over ↦ rw over (
          drop_oldest_id-IsRecent d 0 (insert d s.ids) (s.order ++ (d ∷ [])) here
            (omega (arith, fresh)) (ground (arith, over)))
      | inr within ↦ rw within (record { known = here; young = omega (arith, fresh) })
    ])
  where
    here : contains (s.order ++ (d ∷ [])) d ≡ true
    here = rw contains-append (unfold contains in ground (arith, beq_refl d))

    fresh : behind d (s.order ++ (d ∷ [])) ≡ 0
    fresh = behind-append_new d s.order (cc (r.same d, new))
