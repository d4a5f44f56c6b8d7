-- ===== src/Sync/History.antt =====
-- What the archive of src/sync/archive.rs holds after any run of its operations.
use bitmancer.Prelude.{
  ℕ, ◌-◌, ◌≡◌, refl, ◌∙◌, ap, true, Option, none, some, List, ltb, ◌>>=◌, inl, inr, Bool-cases,
  ==_iff,
}
use bitmancer.Prelude.Keys.{bytes_eq}
use bitmancer.Prelude.Table.{
  AllEntries, AllEntries-put, AllEntries-remove, AllEntries-retain, IsUnique, put-IsUnique,
  remove-IsUnique, retain-IsUnique,
}
use bitmancer.Protocol.Message.{
  MessageType, Packet, is_broadcast, parsed_type, to_u8, from_u8-to_u8,
}
use bitmancer.Sync.PacketId.{packet_id}
use bitmancer.Sync.Archive.{
  Kind, of_message, of_fragment, of_file, kind_of, capacity, PacketStore, is_fresh, Archive,
  new_archive, store, with_store, same_type, record_announce, record_kind, record_typed,
  record_packet, drop_stale, forget_peer, clear_archive,
}
use bitmancer.Sync.Stores.{
  IsStore, empty_store-IsStore, store_insert-IsStore, store_drop_stale-IsStore,
}

module _ (sha256 : List ℕ → List ℕ) where
  -- A packet that may stand in a store: sent to everyone, of the store's kind, under its own id.
  abbrev pub IsFiled : Kind → List ℕ → Packet → Type 0
  IsFiled kind id p =
      (is_broadcast p ≡ true)
      × ((parsed_type p >>= kind_of) ≡ some kind)
      × (id ≡ packet_id sha256 p)

  abbrev pub IsAnnounce : List ℕ → Packet → Type 0
  IsAnnounce sender p =
      (is_broadcast p ≡ true) × (parsed_type p ≡ some MessageType.announce) × (sender ≡ p.sender_id)

  pub record IsArchive (a : Archive) : Type 0 where
    pub messages : IsStore (IsFiled of_message) 1000 a.messages
    pub fragments : IsStore (IsFiled of_fragment) 600 a.fragments
    pub files : IsStore (IsFiled of_file) 200 a.files
    pub announced : AllEntries IsAnnounce a.announces
    pub unique : IsUnique a.announces

  -- The archives that a run of the operations reaches.
  pub data Reached : Archive → Type 0 where
    started : Reached new_archive
    recorded :
        (a : Archive) (p : Packet) (now : ℕ)
        → Reached a
        → Reached ((record_packet sha256 p now a).0)
    dropped : (a : Archive) (now : ℕ) → Reached a → Reached (drop_stale now a)
    forgotten : (a : Archive) (sender : List ℕ) → Reached a → Reached (forget_peer sender a)
    cleared : (a : Archive) → Reached a → Reached (clear_archive a)

  with_store-IsArchive :
      (kind : Kind) (s : PacketStore) (a : Archive)
      → IsStore (IsFiled kind) (capacity kind) s
      → IsArchive a
      → IsArchive (with_store kind s a)
  unfolding with_store store capacity
  with_store-IsArchive of_message s a k h = record {
    messages = k;
    fragments = h.fragments;
    files = h.files;
    announced = h.announced;
    unique = h.unique;
  }
  with_store-IsArchive of_fragment s a k h = record {
    messages = h.messages;
    fragments = k;
    files = h.files;
    announced = h.announced;
    unique = h.unique;
  }
  with_store-IsArchive of_file s a k h = record {
    messages = h.messages;
    fragments = h.fragments;
    files = k;
    announced = h.announced;
    unique = h.unique;
  }

  pub kind_store :
      (kind : Kind) (a : Archive)
      → IsArchive a
      → IsStore (IsFiled kind) (capacity kind) (store kind a)
  unfolding store capacity
  kind_store of_message a h = h.messages
  kind_store of_fragment a h = h.fragments
  kind_store of_file a h = h.files

  record_kind-IsArchive :
      (o : Option Kind) (p : Packet) (a : Archive)
      → is_broadcast p ≡ true
      → (parsed_type p >>= kind_of) ≡ o
      → IsArchive a
      → IsArchive ((record_kind sha256 o p a).0)
  unfolding record_kind
  record_kind-IsArchive none p a b e h = h
  record_kind-IsArchive (some kind) p a b e h =
      with_store-IsArchive kind _ a
        (store_insert-IsStore (IsFiled kind) (capacity kind) (packet_id sha256 p) p (store kind a)
          (b, e, refl) (kind_store kind a h))
        h

  record_announce-IsArchive :
      (p : Packet) (now : ℕ) (a : Archive)
      → is_broadcast p ≡ true
      → parsed_type p ≡ some MessageType.announce
      → IsArchive a
      → IsArchive ((record_announce p now a).0)
  unfolding record_announce
  record_announce-IsArchive p now a b e h = elim (Bool-cases (ltb 60000 (now - p.timestamp))) [
    | inl late ↦ rw late (record {
      messages = h.messages;
      fragments = h.fragments;
      files = h.files;
      announced = AllEntries-remove IsAnnounce p.sender_id a.announces h.announced;
      unique = remove-IsUnique p.sender_id a.announces h.unique;
    })
    | inr soon ↦ rw soon (record {
      messages = h.messages;
      fragments = h.fragments;
      files = h.files;
      announced = AllEntries-put IsAnnounce p.sender_id p a.announces h.announced (b, e, refl);
      unique = put-IsUnique p.sender_id p a.announces h.unique;
    })
  ]

  same_type_announce :
      (t : MessageType) → same_type t MessageType.announce ≡ true → t ≡ MessageType.announce
  same_type_announce t e = cc (
    from_u8-to_u8 t,
    from_u8-to_u8 MessageType.announce,
    (==_iff (to_u8 t) (to_u8 MessageType.announce)).0 e,
  )

  record_typed-IsArchive :
      (o : Option MessageType) (p : Packet) (now : ℕ) (a : Archive)
      → is_broadcast p ≡ true
      → parsed_type p ≡ o
      → IsArchive a
      → IsArchive ((record_typed sha256 o p now a).0)
  unfolding record_typed
  record_typed-IsArchive none p now a b e h = h
  record_typed-IsArchive (some t) p now a b e h = elim (Bool-cases (is_fresh p now)) [
    | inr old ↦ rw old h
    | inl young ↦ rw young (elim (Bool-cases (same_type t MessageType.announce)) [
      | inl it ↦
          rw it (record_announce-IsArchive p now a b (e ∙ ap some (same_type_announce t it)) h)
      | inr other ↦ rw other (record_kind-IsArchive (kind_of t) p a b (ap (λ o. o >>= kind_of) e) h)
    ])
  ]

  record_packet-IsArchive :
      (p : Packet) (now : ℕ) (a : Archive)
      → IsArchive a
      → IsArchive ((record_packet sha256 p now a).0)
  unfolding record_packet
  record_packet-IsArchive p now a h = elim (Bool-cases (is_broadcast p)) [
    | inl all ↦ rw all (record_typed-IsArchive (parsed_type p) p now a all refl h)
    | inr one ↦ rw one h
  ]

  empty-IsArchive : IsArchive (clear_archive new_archive)
  unfolding clear_archive
  empty-IsArchive = record {
    messages = empty_store-IsStore _ _;
    fragments = empty_store-IsStore _ _;
    files = empty_store-IsStore _ _;
    announced = tt;
    unique = tt;
  }

  -- However it got there, the archive keeps within its capacities and holds only packets that were
  -- sent to everyone: in each store those of its kind, each once and under its id, and of each
  -- sender at most one announce.
  pub Reached-IsArchive : (a : Archive) → Reached a → IsArchive a
  unfolding new_archive drop_stale forget_peer clear_archive
  Reached-IsArchive a started = empty-IsArchive
  Reached-IsArchive a (recorded b p now r) = record_packet-IsArchive p now b (Reached-IsArchive b r)
  Reached-IsArchive a (dropped b now r) =
      let h = Reached-IsArchive b r in
      record {
        messages = store_drop_stale-IsStore _ _ now b.messages h.messages;
        fragments = store_drop_stale-IsStore _ _ now b.fragments h.fragments;
        files = store_drop_stale-IsStore _ _ now b.files h.files;
        announced = AllEntries-retain IsAnnounce (λ p. is_fresh p now) b.announces h.announced;
        unique = retain-IsUnique (λ p. is_fresh p now) b.announces h.unique;
      }
  Reached-IsArchive a (forgotten b sender r) =
      let h = Reached-IsArchive b r in
      record {
        messages = h.messages;
        fragments = h.fragments;
        files = h.files;
        announced = AllEntries-remove IsAnnounce sender b.announces h.announced;
        unique = remove-IsUnique sender b.announces h.unique;
      }
  Reached-IsArchive a (cleared b r) = empty-IsArchive
