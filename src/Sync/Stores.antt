-- ===== src/Sync/Stores.antt =====
-- What holds of each store of the archive (src/sync/archive.rs), whatever is filed or dropped.
use bitmancer.Prelude.{
  ℕ, ◌+◌, ◌≤◌, ◌≡◌, refl, ◌∙◌, ap, true, false, Option, none, some, is_some, List, [], ◌∷◌, ◌++◌,
  ltb, ◌==◌, ◌<◌, drop, if◌then◌else◌, length, arith, inl, inr, Bool-cases, length-append,
}
use bitmancer.Prelude.Keys.{bytes_eq}
use bitmancer.Prelude.Table.{
  Table, find, put, remove, find-put, find-remove, AllEntries, AllEntries-put, AllEntries-remove,
}
use bitmancer.Prelude.Sets.{contains, IsDistinct, IsDistinct-snoc, contains-append}
use bitmancer.Protocol.Message.{Packet}
use bitmancer.Sync.Archive.{
  PacketStore, empty_store, evict, store_new, store_insert, is_fresh_entry, drop_stale_ids,
  store_drop_stale,
}

-- The order lists exactly the keys of the map, each once.
abbrev pub IsIndexed : List (List ℕ) → Table (List ℕ) Packet → Type 0
IsIndexed order packets =
    (IsDistinct order) × ((id : List ℕ) → contains order id ≡ is_some (find id packets))

module _ (Filed : List ℕ → Packet → Type 0) (limit : ℕ) where
  -- The map and its order agree, no more than the capacity is held, and every packet held is filed
  -- under its own key.
  pub record IsStore (s : PacketStore) : Type 0 where
    pub indexed : IsIndexed s.order s.packets
    pub bounded : length s.order ≤ limit
    pub filed : AllEntries Filed s.packets

  pub empty_store-IsStore : IsStore empty_store
  unfolding contains find
  empty_store-IsStore = record { indexed = (tt, λ id. refl); bounded = omega arith; filed = tt }

remove-IsIndexed :
    (id : List ℕ) (order : List (List ℕ)) (packets : Table (List ℕ) Packet)
    → IsIndexed (id ∷ order) packets
    → IsIndexed order (remove id packets)
unfolding contains
remove-IsIndexed id order packets (distinct, same) = (
  distinct.1,
  λ other.
      ground
        (arith, distinct.0, same other, find-remove id other packets, bytes_eq.beq_iff id other),
)

put_new-IsIndexed :
    (id : List ℕ) (packet : Packet) (order : List (List ℕ)) (packets : Table (List ℕ) Packet)
    → find id packets ≡ none
    → IsIndexed order packets
    → IsIndexed (order ++ (id ∷ [])) (put id packet packets)
unfolding contains
put_new-IsIndexed id packet order packets new (distinct, same) = (
  IsDistinct-snoc order id distinct (same id ∙ ap is_some new),
  λ other.
      ground (
        arith,
        contains-append other order (id ∷ []),
        same other,
        find-put id other packet packets,
      ),
)

put_old-IsIndexed :
    (id : List ℕ) (packet : Packet) (order : List (List ℕ)) (packets : Table (List ℕ) Packet)
    → is_some (find id packets) ≡ true
    → IsIndexed order packets
    → IsIndexed order (put id packet packets)
put_old-IsIndexed id packet order packets old (distinct, same) = (
  distinct,
  λ other. ground (
    arith,
    old,
    same other,
    same id,
    find-put id other packet packets,
    bytes_eq.beq_iff id other,
  ),
)

module _ (Filed : List ℕ → Packet → Type 0) (limit : ℕ) where
  evict-IsStore :
      (order : List (List ℕ)) (packets : Table (List ℕ) Packet)
      → IsIndexed order packets
      → AllEntries Filed packets
      → IsStore Filed limit (evict limit order packets)
  unfolding evict
  evict-IsStore [] packets i f = record { indexed = i; bounded = omega arith; filed = f }
  evict-IsStore (victim ∷ order) packets i f =
      elim (Bool-cases (ltb limit (length (victim ∷ order)))) [
        | inl over ↦ rw over (
            evict-IsStore order (remove victim packets) (remove-IsIndexed victim order packets i)
              (AllEntries-remove Filed victim packets f))
        | inr within ↦
            rw within (record { indexed = i; bounded = ground (arith, within); filed = f })
      ]

  store_new-IsStore :
      (o : Option Packet) (id : List ℕ) (packet : Packet) (s : PacketStore)
      → find id s.packets ≡ o
      → Filed id packet
      → IsStore Filed limit s
      → IsStore Filed limit (store_new o id packet limit s)
  unfolding store_new
  store_new-IsStore (some old) id packet s e f h = record {
    indexed = put_old-IsIndexed id packet s.order s.packets (ap is_some e) h.indexed;
    bounded = h.bounded;
    filed = AllEntries-put Filed id packet s.packets h.filed f;
  }
  store_new-IsStore none id packet s e f h =
      evict-IsStore _ _ (put_new-IsIndexed id packet s.order s.packets e h.indexed)
        (AllEntries-put Filed id packet s.packets h.filed f)

  pub store_insert-IsStore :
      (id : List ℕ) (packet : Packet) (s : PacketStore)
      → Filed id packet
      → IsStore Filed limit s
      → IsStore Filed limit (store_insert id packet limit s)
  unfolding store_insert
  store_insert-IsStore id packet s f h = elim (Bool-cases (limit == 0)) [
    | inl e ↦ rw e h
    | inr e ↦ rw e (store_new-IsStore (find id s.packets) id packet s refl f h)
  ]

-- What `drop_stale` does to an order and a map that agree.
record Dropped (now : ℕ) (order : List (List ℕ)) (packets : Table (List ℕ) Packet) (s : PacketStore)
    : Type 0 where
  shorter : length s.order ≤ length order
  distinct : IsDistinct s.order
  listed :
      (id : List ℕ)
      → contains s.order id
        ≡ (if contains order id then is_fresh_entry now (find id packets) else false)
  mapped :
      (id : List ℕ)
      → find id s.packets ≡ (
          if contains order id
          then (if is_fresh_entry now (find id packets) then find id packets else none)
          else find id packets)

drop_stale_ids-Dropped :
    (now : ℕ) (order : List (List ℕ)) (packets : Table (List ℕ) Packet)
    → IsDistinct order
    → Dropped now order packets (drop_stale_ids now order packets)
unfolding drop_stale_ids contains
drop_stale_ids-Dropped now [] packets d = record {
  shorter = omega arith;
  distinct = tt;
  listed = λ id. refl;
  mapped = λ id. refl;
}
drop_stale_ids-Dropped now (key ∷ order) packets d =
    elim (Bool-cases (is_fresh_entry now (find key packets))) [
      | inl young ↦ rw young (
          let h = drop_stale_ids-Dropped now order packets d.1 in
          record {
            shorter = omega (arith, h.shorter);
            distinct = (ground (arith, h.listed key, d.0), h.distinct);
            listed = λ id. ground (arith, h.listed id, bytes_eq.beq_iff key id, young, d.0);
            mapped = λ id. ground (arith, h.mapped id, bytes_eq.beq_iff key id, young, d.0);
          })
      | inr old ↦ rw old (
          let h = drop_stale_ids-Dropped now order (remove key packets) d.1 in
          record {
            shorter = omega (arith, h.shorter);
            distinct = h.distinct;
            listed = λ id.
                ground (
                  arith,
                  h.listed id,
                  bytes_eq.beq_iff key id,
                  old,
                  d.0,
                  find-remove key id packets,
                );
            mapped = λ id.
                ground (
                  arith,
                  h.mapped id,
                  bytes_eq.beq_iff key id,
                  old,
                  d.0,
                  find-remove key id packets,
                );
          })
    ]

drop_stale_ids-filed :
    (Filed : List ℕ → Packet → Type 0) (now : ℕ) (order : List (List ℕ))
    (packets : Table (List ℕ) Packet)
    → AllEntries Filed packets
    → AllEntries Filed ((drop_stale_ids now order packets).packets)
unfolding drop_stale_ids
drop_stale_ids-filed Filed now [] packets f = f
drop_stale_ids-filed Filed now (key ∷ order) packets f =
    elim (Bool-cases (is_fresh_entry now (find key packets))) [
      | inl young ↦ rw young (drop_stale_ids-filed Filed now order packets f)
      | inr old ↦ rw old (
          drop_stale_ids-filed Filed now order (remove key packets)
            (AllEntries-remove Filed key packets f))
    ]

pub store_drop_stale-IsStore :
    (Filed : List ℕ → Packet → Type 0) (limit now : ℕ) (s : PacketStore)
    → IsStore Filed limit s
    → IsStore Filed limit (store_drop_stale now s)
unfolding store_drop_stale
store_drop_stale-IsStore Filed limit now s h =
    let d = drop_stale_ids-Dropped now s.order s.packets h.indexed.0 in
    record {
      indexed = (d.distinct, λ id. ground (arith, d.listed id, d.mapped id, h.indexed.1 id));
      bounded = omega (arith, d.shorter, h.bounded);
      filed = drop_stale_ids-filed Filed now s.order s.packets h.filed;
    }

-- Dropping what is stale from a well-formed store keeps exactly the fresh packets, each under its
-- key.
pub store_drop_stale_outcome :
    (Filed : List ℕ → Packet → Type 0) (limit now : ℕ) (s : PacketStore)
    → IsStore Filed limit s
    → (id : List ℕ)
    → find id (store_drop_stale now s).packets
      ≡ (if is_fresh_entry now (find id s.packets) then find id s.packets else none)
unfolding store_drop_stale
store_drop_stale_outcome Filed limit now s h id =
    ground
      (arith, (drop_stale_ids-Dropped now s.order s.packets h.indexed.0).mapped id, h.indexed.1 id)

evict_one :
    (limit : ℕ) (order : List (List ℕ)) (packets : Table (List ℕ) Packet)
    → length order ≤ limit + 1
    → (evict limit order packets).order ≡ (if ltb limit (length order) then drop 1 order else order)
unfolding evict
evict_one limit [] packets h = ground arith
evict_one limit (victim ∷ []) packets h = ground arith
evict_one limit (victim ∷ next ∷ order) packets h = ground (arith, h)

-- The order of a well-formed store that can hold something, after an insertion: a packet that is
-- held already keeps its place; a new one goes to the end, and the oldest goes when the store was
-- full.
pub store_insert_order :
    (Filed : List ℕ → Packet → Type 0) (limit : ℕ) (id : List ℕ) (packet : Packet) (s : PacketStore)
    → 0 < limit
    → IsStore Filed limit s
    → (store_insert id packet limit s).order ≡ (
        if contains s.order id
        then s.order
        else (if length s.order == limit
            then drop 1 (s.order ++ (id ∷ []))
            else s.order ++ (id ∷ [])))
unfolding store_insert store_new
store_insert_order Filed limit id packet s pos h =
    let positive : (limit == 0) ≡ false = ground (arith, pos) in
    rw (positive, h.indexed.1 id) (placed (find id s.packets))
  where
    placed :
        (o : Option Packet)
        → (store_new o id packet limit s).order ≡ (
            if is_some o
            then s.order
            else (if length s.order == limit
                then drop 1 (s.order ++ (id ∷ []))
                else s.order ++ (id ∷ [])))
    placed (some old) = refl
    placed none = ground (
      arith,
      evict_one limit (s.order ++ (id ∷ [])) (put id packet s.packets),
      length-append s.order (id ∷ []),
      h.bounded,
    )
