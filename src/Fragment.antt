-- ===== src/Fragment.antt =====
-- Splitting an encoded packet into fragments and putting it together again (src/fragment.rs).
-- Instants and durations count nanoseconds; each call reads the clock once, as `now`. `none` as
-- the result of `append` stands for a panic.
pub mod Chunks
pub mod Parse
pub mod Bounds
pub mod Agreement
use bitmancer.Prelude.{
  ℕ, zero, suc, ◌+◌, ◌-◌, ◌*◌, ◌/◌, ◌%◌, ◌^◌, ◌≡◌, Bool, not, ◌&&◌, ◌||◌, Option, none, some, List,
  [], ◌∷◌, ◌++◌, String, ltb, leb, ◌==◌, if◌then◌else◌, length, take, drop, get_elem?, set, true,
  replicate, is_some, guard, ◌>>=◌, ◌>>◌, arith, ==_iff, ◌↔◌, ap,
}
use bitmancer.Prelude.Bytes.{to_be_bytes, from_be_bytes}
use bitmancer.Prelude.Keys.{Eq, bytes_beq, bytes_beq_iff}
use bitmancer.Prelude.Table.{Table, find, put, remove, retain}
use bitmancer.Protocol.Message.{Packet}

abbrev pub max_assembled_bytes : ℕ
max_assembled_bytes = 1024 * 1024 + 18 + 2 * 65535 + 16 + 8 + 8 + 64

abbrev pub max_in_flight : ℕ
max_in_flight = 128

abbrev pub assembly_lifetime : ℕ
assembly_lifetime = 30 * 1000000000

abbrev pub max_fragments : ℕ
max_fragments = 10000

abbrev pub slice_bytes : ℕ
slice_bytes = 213

pub record FragmentKey : Type 0 where
  pub sender : List ℕ
  pub id : ℕ

abbrev pub key_beq : FragmentKey → FragmentKey → Bool
key_beq a b = bytes_beq a.sender b.sender && a.id == b.id

pub key_beq_iff : (a b : FragmentKey) → (key_beq a b ≡ true) ↔ (a ≡ b)
key_beq_iff a b = (
  λ h. ground (arith, bytes_beq_iff a.sender b.sender),
  λ h. ground (
    arith,
    bytes_beq_iff a.sender b.sender,
    ap (λ (k : FragmentKey). k.sender) h,
    ap (λ (k : FragmentKey). k.id) h,
  ),
)

instance abbrev pub key_eq : Eq FragmentKey
key_eq = record { beq = key_beq; beq_iff = key_beq_iff }

pub record FragmentHeader : Type 0 where
  pub key : FragmentKey
  pub index : ℕ
  pub total : ℕ
  pub original_type : ℕ
  pub content : List ℕ

-- `slice.chunks(size)`, with fuel for the chunks.
unfoldable pub chunks_from : ℕ → ℕ → List ℕ → List (List ℕ)
chunks_from zero size body = []
chunks_from (suc fuel) size [] = []
chunks_from (suc fuel) size (b ∷ bs) =
    take size (b ∷ bs) ∷ chunks_from fuel size (drop size (b ∷ bs))

unfoldable pub chunks : ℕ → List ℕ → List (List ℕ)
unfolding chunks_from
chunks size body = chunks_from (length body) size body

abbrev pub div_ceil : ℕ → ℕ → ℕ
div_ceil a b = (a + b - 1) / b

unfoldable pub fragment_payload : ℕ → ℕ → ℕ → ℕ → List ℕ → List ℕ
fragment_payload id original_type total index slice =
    to_be_bytes 8 id
    ++ (to_be_bytes 2 (index % 2 ^ 16)
        ++ (to_be_bytes 2 (total % 2 ^ 16) ++ (original_type ∷ slice)))

-- `enumerate` and `map`, from `index` on.
unfoldable pub payloads_from : ℕ → ℕ → ℕ → ℕ → List (List ℕ) → List (List ℕ)
unfolding fragment_payload
payloads_from id original_type total index [] = []
payloads_from id original_type total index (slice ∷ slices) =
    fragment_payload id original_type total index slice
    ∷ payloads_from id original_type total (index + 1) slices

unfoldable pub split : ℕ → ℕ → List ℕ → ℕ → List (List ℕ)
split id original_type body size =
    if length body == 0 || size == 0
    then []
    else let total = div_ceil (length body) size in
      if ltb max_fragments total
      then []
      else payloads_from id original_type total 0 (chunks size body)

unfoldable pub parse : Packet → Option FragmentHeader
parse p =
    let id = from_be_bytes (take 8 p.payload) in
    let index = from_be_bytes (take 2 (drop 8 p.payload)) in
    let total = from_be_bytes (take 2 (drop 10 p.payload)) in
    do
      guard (leb 13 (length p.payload))
      guard (not (total == 0 || ltb max_fragments total || leb total index))
      original_type ← get_elem? p.payload 12
      some (record {
        key = record { sender = p.sender_id; id = id };
        index = index;
        total = total;
        original_type = original_type;
        content = drop 13 p.payload;
      })

pub record Assembly : Type 0 where
  pub pieces : List (Option (List ℕ))
  pub received : ℕ
  pub bytes : ℕ
  pub started : ℕ

abbrev pub Assembler : Type 0
Assembler = Table FragmentKey Assembly

pub data Append : Type 0 where
  pending : ℕ → ℕ → Append
  complete : List ℕ → Append
  rejected : String → Append

-- `retain` of the assemblies that are young enough.
unfoldable pub expire : ℕ → Assembler → Assembler
expire now = retain (λ a. ltb (now - a.started) assembly_lifetime)

-- `entry(key).or_insert_with(...)`
unfoldable pub or_fresh : FragmentHeader → ℕ → Option Assembly → Assembly
or_fresh h now (some a) = a
or_fresh h now none = record {
  pieces = replicate h.total none;
  received = 0;
  bytes = 0;
  started = now;
}

-- The pieces in their order; `expect` panics on one that is missing.
unfoldable pub join : List (Option (List ℕ)) → Option (List ℕ)
join [] = some []
join (none ∷ pieces) = none
join (some piece ∷ pieces) = do rest ← join pieces; some (piece ++ rest)

abbrev with_piece : FragmentHeader → Assembly → Assembly
with_piece h a = record {
  pieces = set a.pieces h.index (some h.content);
  received = a.received + 1;
  bytes = a.bytes + length h.content;
  started = a.started;
}

-- Once the piece is stored: is the packet whole?
unfoldable pub finish : FragmentHeader → Assembly → Assembler → Option (Assembler × Append)
unfolding join
finish h a live =
    if ltb a.received (length a.pieces)
    then some (put h.key a live, pending a.received (length a.pieces))
    else do bytes ← join a.pieces; some (remove h.key live, complete bytes)

-- By the slot of the fragment: out of range, filled, or free.
unfoldable pub fill :
    Option (Option (List ℕ)) → FragmentHeader → Assembly → Assembler → Option (Assembler × Append)
unfolding finish
fill none h a live = none
fill (some (some piece)) h a live = some (live, rejected "duplicate fragment")
fill (some none) h a live =
    if ltb max_assembled_bytes (a.bytes + length h.content)
    then some (remove h.key live, rejected "assembly exceeds the size limit")
    else finish h (with_piece h a) live

-- On the entry of the fragment's key, which `live` holds.
unfoldable pub store_piece : FragmentHeader → Assembly → Assembler → Option (Assembler × Append)
unfolding fill
store_piece h a live =
    if not (length a.pieces == h.total)
    then some (remove h.key live, rejected "fragment count changed mid-assembly")
    else fill (get_elem? a.pieces h.index) h a live

unfoldable pub append : FragmentHeader → ℕ → Assembler → Option (Assembler × Append)
append h now state =
    let live = expire now state in
    let held = find h.key live in
    if not (is_some held) && leb max_in_flight (length live)
    then some (live, rejected "too many assemblies in flight")
    else store_piece h (or_fresh h now held) (put h.key (or_fresh h now held) live)
